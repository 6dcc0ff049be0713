-- ===== src/Chain.antt =====
-- What one instruction can do to one account: the abstract view of the program. `AccountStep`
-- relates the contents and the balance of the account at a key before and after an instruction;
-- its constructors are the ways in which the instructions of lib.rs touch an account, each with the
-- signature that it needs and, for a new account, with the address that it is derived at. The
-- configuration that an instruction counts in is a by-product and needs no signature of its own.
pub mod Steps
pub mod Handlers
pub mod Invariant
pub mod Lifecycle
pub mod Authority
pub mod Unique
use hwal.Prelude.{arith, ℕ, ◌+◌, ◌≤◌, ◌≡◌, ◌≢◌, true, Option, none, some, List}
use hwal.Prelude.Word.{saturating_add}
use hwal.Constants.{Pubkey, magicblock_delegation_program_id}
use hwal.Errors.{ok}
use hwal.State.{Account, config, price_feed, position, Config, PriceFeed, Position}
use hwal.Runtime.{Bank, Env, Runtime}
use hwal.Accounts.{config_seeds, feed_seeds, position_seeds}
use hwal.Admin.{
  InitializeConfig, UpdateConfigArgs, initialize_config_handler, update_config_handler,
}
use hwal.Feed.{
  InitializePriceFeed, initialize_price_feed_handler, update_price_feed_handler,
  register_lazer_feed_handler,
}
use hwal.Lazer.{UpdatePriceFeedFromLazer, Verified, update_from_lazer_handler}
use hwal.Triggers.{update_triggers_handler}
use hwal.Open.{OpenArgs, OpenPosition, opened_position, check_open}
use hwal.Tick.{TickPosition, Outcome, tick_handler}
use hwal.Cancel.{CancelPosition, cancel_handler}
use hwal.Delegation.{DelegatePosition, UndelegatePosition, can_delegate, can_undelegate}
use hwal.State.{zero_config, zero_price_feed}

-- Counters aside, the two configurations are the same.
pub record SamePolicy (c c' : Config) : Type 0 where
  pub admin : c'.admin ≡ c.admin
  pub fee_receiver : c'.fee_receiver ≡ c.fee_receiver
  pub fee_bps : c'.fee_bps ≡ c.fee_bps
  pub keeper_reward_bps : c'.keeper_reward_bps ≡ c.keeper_reward_bps
  pub bump : c'.bump ≡ c.bump

-- What an instruction counts in the configuration, up to the end of a `u64`: nothing, an opening, a
-- trigger with its fee and its reward, or a cancellation. Every other field is as it was.
pub data Counts (c c' : Config) : Type 0 where
  counts_nothing : c' ≡ c → Counts c c'
  counts_opened :
      c' ≡ record c { total_positions_opened = saturating_add c.total_positions_opened 1 }
      → Counts c c'
  counts_triggered :
      (fee reward : ℕ)
      → c' ≡ record c {
        total_positions_triggered = saturating_add c.total_positions_triggered 1;
        total_fees_collected = saturating_add c.total_fees_collected fee;
        total_keeper_rewards_paid = saturating_add c.total_keeper_rewards_paid reward;
      }
      → Counts c c'
  counts_cancelled :
      c' ≡ record c { total_positions_cancelled = saturating_add c.total_positions_cancelled 1 }
      → Counts c c'

pub Counts-SamePolicy : (c c' : Config) → Counts c c' → SamePolicy c c'
Counts-SamePolicy c c' (Counts.counts_nothing e) = ground arith
Counts-SamePolicy c c' (Counts.counts_opened e) = ground arith
Counts-SamePolicy c c' (Counts.counts_triggered fee reward e) = ground arith
Counts-SamePolicy c c' (Counts.counts_cancelled e) = ground arith

pub data AccountStep (rt : Runtime) (env : Env) (bank : Bank) (k : Pubkey) (a : Option Account)
    (n : ℕ) (a' : Option Account) (n' : ℕ) : Type 0 where
  -- the instruction does not write the account; if it is the program's, its balance does not fall
  kept : a' ≡ a → (a ≢ none → n ≤ n') → AccountStep rt env bank k a n a' n'
  config_created :
      (ctx : InitializeConfig) (fee_bps keeper_reward_bps bump : ℕ) (c : Config)
      → env.is_signer ctx.admin ≡ true
      → a ≡ none
      → k ≡ (rt.find_program_address config_seeds).0
      → initialize_config_handler ctx bump fee_bps keeper_reward_bps zero_config ≡ ok c
      → a' ≡ some (config c)
      → AccountStep rt env bank k a n a' n'
  config_updated :
      (args : UpdateConfigArgs) (c c' : Config)
      → env.is_signer c.admin ≡ true
      → a ≡ some (config c)
      → update_config_handler args c ≡ ok c'
      → a' ≡ some (config c')
      → n ≤ n'
      → AccountStep rt env bank k a n a' n'
  config_counted :
      (c c' : Config)
      → a ≡ some (config c)
      → Counts c c'
      → a' ≡ some (config c')
      → n ≤ n'
      → AccountStep rt env bank k a n a' n'
  feed_created :
      (ctx : InitializePriceFeed) (c : Config) (bump : ℕ) (symbol : List ℕ)
      (decimals initial_price : ℕ) (f : PriceFeed)
      → bank.accounts ctx.config ≡ some (config c)
      → env.is_signer c.admin ≡ true
      → a ≡ none
      → k ≡ (rt.find_program_address (feed_seeds symbol)).0
      → initialize_price_feed_handler env.unix_timestamp ctx.authority bump symbol decimals
          initial_price zero_price_feed
        ≡ ok f
      → a' ≡ some (price_feed f)
      → AccountStep rt env bank k a n a' n'
  feed_priced :
      (new_price : ℕ) (f f' : PriceFeed)
      → env.is_signer f.authority ≡ true
      → a ≡ some (price_feed f)
      → update_price_feed_handler env.unix_timestamp new_price f ≡ ok f'
      → a' ≡ some (price_feed f')
      → n ≤ n'
      → AccountStep rt env bank k a n a' n'
  feed_verified :
      (ctx : UpdatePriceFeedFromLazer) (payload : List ℕ) (f : PriceFeed) (v : Verified)
      → env.is_signer ctx.poster ≡ true
      → ctx.instructions ≡ rt.instructions_sysvar_id
      → a ≡ some (price_feed f)
      → update_from_lazer_handler rt env payload f ≡ ok v
      → a' ≡ some (price_feed v.feed)
      → n ≤ n'
      → AccountStep rt env bank k a n a' n'
  feed_registered :
      (lazer_feed_id channel : ℕ) (key : Pubkey) (c : Config) (f f' : PriceFeed)
      → bank.accounts key ≡ some (config c)
      → env.is_signer c.admin ≡ true
      → a ≡ some (price_feed f)
      → register_lazer_feed_handler lazer_feed_id channel f ≡ ok f'
      → a' ≡ some (price_feed f')
      → n ≤ n'
      → AccountStep rt env bank k a n a' n'
  position_opened :
      (ctx : OpenPosition) (args : OpenArgs) (f : PriceFeed) (bump entry_price : ℕ)
      → env.is_signer ctx.owner ≡ true
      → bank.accounts ctx.feed ≡ some (price_feed f)
      → k ≡ (rt.find_program_address (position_seeds ctx.owner args.nonce)).0
      → a ≡ none
      → k ≡ ctx.position
      → check_open env.unix_timestamp f args ≡ ok entry_price
      → a' ≡ some (position (opened_position env.unix_timestamp ctx bump args entry_price))
      → args.collateral ≤ n'
      → AccountStep rt env bank k a n a' n'
  position_retriggered :
      (stop_price take_profit_price trailing_offset : ℕ) (p p' : Position)
      → env.is_signer p.owner ≡ true
      → a ≡ some (position p)
      → update_triggers_handler stop_price take_profit_price trailing_offset p ≡ ok p'
      → a' ≡ some (position p')
      → n ≤ n'
      → AccountStep rt env bank k a n a' n'
  position_ticked :
      (ctx : TickPosition) (c : Config) (f : PriceFeed) (p : Position) (out : Outcome)
      → env.is_signer ctx.keeper ≡ true
      → bank.accounts ctx.config ≡ some (config c)
      → bank.accounts p.feed ≡ some (price_feed f)
      → ctx.owner ≡ p.owner
      → ctx.fee_receiver ≡ c.fee_receiver
      → a ≡ some (position p)
      → tick_handler env.unix_timestamp ctx c f p bank.lamports ≡ ok out
      → a' ≡ some (position out.position)
      → n + out.position.collateral ≤ n' + p.collateral
      → AccountStep rt env bank k a n a' n'
  position_cancelled :
      (ctx : CancelPosition) (c : Config) (p : Position) (out : Outcome)
      → env.is_signer p.owner ≡ true
      → a ≡ some (position p)
      → cancel_handler env.unix_timestamp ctx c p bank.lamports ≡ ok out
      → a' ≡ some (position out.position)
      → n + out.position.collateral ≤ n' + p.collateral
      → AccountStep rt env bank k a n a' n'
  position_delegated :
      (ctx : DelegatePosition) (p : Position)
      → env.is_signer p.owner ≡ true
      → ctx.delegation_program ≡ magicblock_delegation_program_id
      → a ≡ some (position p)
      → can_delegate p ≡ ok tt
      → a' ≡ some (position (record p { er_delegated = 1 }))
      → n ≤ n'
      → AccountStep rt env bank k a n a' n'
  position_undelegated :
      (ctx : UndelegatePosition) (p : Position)
      → env.is_signer p.owner ≡ true
      → ctx.delegation_program ≡ magicblock_delegation_program_id
      → a ≡ some (position p)
      → can_undelegate p ≡ ok tt
      → a' ≡ some (position (record p { er_delegated = 0 }))
      → n ≤ n'
      → AccountStep rt env bank k a n a' n'

-- Every account of the chain makes such a step.
abbrev pub BankStep : Runtime → Env → Bank → Bank → Type 0
BankStep rt env bank bank' =
    (k : Pubkey)
    → AccountStep rt env bank k (bank.accounts k) (bank.lamports k) (bank'.accounts k)
        (bank'.lamports k)
