-- ===== src/Chain/Invariant.antt =====
-- The invariant of every account that the program owns, over all histories.
use hwal.Prelude.{ℕ, ◌≤◌, ◌≡◌, ◌≢◌, Option, none, some, List, arith}
use hwal.Constants.{Pubkey}
use hwal.Errors.{ok}
use hwal.State.{Account, config, price_feed, position, Config, zero_config, zero_price_feed}
use hwal.Runtime.{Bank, Env, Runtime, IsRuntime}
use hwal.Open.{opened_position}
use hwal.Tick.Split.{IsPolicy}
use hwal.Positions.Kept.{check_open-Opens, opened_position-IsPosition, flagged-IsPosition}
use hwal.Call.{Call}
use hwal.Program.{execute, run}
use hwal.Chain.{Counts-SamePolicy, SamePolicy, AccountStep}
use hwal.Program.Runs.{run_induction}
use hwal.Chain.Steps.{execute-BankStep}
use hwal.Chain.Handlers.{
  IsFeed, IsCovered, initialize_config-IsPolicy, update_config-IsPolicy,
  initialize_price_feed-IsFeed, update_price_feed-IsFeed, registration-IsFeed,
  update_from_lazer-IsFeed, tick_handler-IsPosition, update_triggers-IsPosition,
  cancel_handler-IsPosition,
}

-- What the invariant says of an account with the given contents and balance.
abbrev pub IsAccount : Option Account → ℕ → Type 0
IsAccount none n = Unit
IsAccount (some (config c)) n = IsPolicy c
IsAccount (some (price_feed f)) n = IsFeed f
IsAccount (some (position p)) n = IsCovered p n

counted-IsPolicy : (c c' : Config) → SamePolicy c c' → IsPolicy c → IsPolicy c'
counted-IsPolicy c c' same v = ground arith

kept-IsAccount :
    (a : Option Account) (n n' : ℕ) → (a ≢ none → n ≤ n') → IsAccount a n → IsAccount a n'
kept-IsAccount none n n' grows v = tt
kept-IsAccount (some (config c)) n n' grows v = v
kept-IsAccount (some (price_feed f)) n n' grows v = v
kept-IsAccount (some (position p)) n n' grows v =
    let more : n ≤ n' = grows (λ e. cc) in record { formed = v.formed; covered = omega arith }

module _ (rt : Runtime) (env : Env) (bank : Bank) (k : Pubkey) where
  pub AccountStep-IsAccount :
      {a : Option Account} {n : ℕ} {a' : Option Account} {n' : ℕ}
      → AccountStep rt env bank k a n a' n'
      → IsAccount a n
      → IsAccount a' n'
  AccountStep-IsAccount {a} {n} {a'} {n'} (AccountStep.kept e grows) v =
      rw e (kept-IsAccount a n n' grows v)
  AccountStep-IsAccount (AccountStep.config_created ctx fee reward bump c _ _ _ h e') v =
      rw e' (initialize_config-IsPolicy ctx bump fee reward zero_config c h)
  AccountStep-IsAccount (AccountStep.config_updated args c c' _ e h e' _) v =
      rw e' (update_config-IsPolicy args c c' h (rw (e) at v))
  AccountStep-IsAccount (AccountStep.config_counted c c' e same e' _) v =
      rw e' (counted-IsPolicy c c' (Counts-SamePolicy c c' same) (rw (e) at v))
  AccountStep-IsAccount (AccountStep.feed_created ctx _ bump symbol decimals price f _ _ _ _ h e')
        v =
      rw e' (
        initialize_price_feed-IsFeed env.unix_timestamp ctx.authority bump symbol decimals price
          zero_price_feed f h)
  AccountStep-IsAccount (AccountStep.feed_priced price f f' _ e h e' _) v =
      rw e' (update_price_feed-IsFeed env.unix_timestamp price f f' h (rw (e) at v))
  AccountStep-IsAccount (AccountStep.feed_verified _ payload f w _ _ e h e' _) v =
      rw e' (update_from_lazer-IsFeed rt env payload f w h (rw (e) at v))
  AccountStep-IsAccount (AccountStep.feed_registered id channel key c f f' has signed e h e' _) v =
      rw e' (registration-IsFeed id channel f f' h (rw (e) at v))
  AccountStep-IsAccount (AccountStep.position_opened ctx args f bump entry _ _ _ _ _ h e' funded)
        v =
      let formed =
        opened_position-IsPosition env.unix_timestamp f ctx bump args entry
          (check_open-Opens env.unix_timestamp f args entry h) in
      rw e' (record { formed = formed; covered = unfold opened_position in funded })
  AccountStep-IsAccount (AccountStep.position_retriggered stop take offset p p' _ e h e' grows) v =
      let c : IsCovered p _ = rw (e) at v in
      let (formed, same) = update_triggers-IsPosition stop take offset p p' h c.formed in
      rw e' (record { formed = formed; covered = omega arith })
  AccountStep-IsAccount (AccountStep.position_ticked ctx c f p out _ _ _ _ _ e h e' drains) v =
      let w : IsCovered p _ = rw (e) at v in
      rw e' (record {
        formed = tick_handler-IsPosition env.unix_timestamp ctx c f p bank.lamports out h w.formed;
        covered = omega arith;
      })
  AccountStep-IsAccount (AccountStep.position_cancelled ctx c p out _ e h e' drains) v =
      let w : IsCovered p _ = rw (e) at v in
      rw e' (record {
        formed = cancel_handler-IsPosition env.unix_timestamp ctx c p bank.lamports out h w.formed;
        covered = omega arith;
      })
  AccountStep-IsAccount (AccountStep.position_delegated _ p _ _ e _ e' grows) v =
      let w : IsCovered p _ = rw (e) at v in
      rw e'
        (record { formed = flagged-IsPosition 1 p (omega arith) w.formed; covered = omega arith })
  AccountStep-IsAccount (AccountStep.position_undelegated _ p _ _ e _ e' grows) v =
      let w : IsCovered p _ = rw (e) at v in
      rw e'
        (record { formed = flagged-IsPosition 0 p (omega arith) w.formed; covered = omega arith })

-- Every account of the chain meets the invariant.
pub record IsBank (bank : Bank) : Type 0 where
  pub accounts : (k : Pubkey) → IsAccount (bank.accounts k) (bank.lamports k)

pub execute-IsBank :
    (rt : Runtime) (laws : IsRuntime rt) (env : Env) (call : Call) (bank bank' : Bank)
    → execute rt env call bank ≡ ok bank'
    → IsBank bank
    → IsBank bank'
execute-IsBank rt laws env call bank bank' h v = record {
  accounts = λ k.
      AccountStep-IsAccount rt env bank k (execute-BankStep rt laws env call bank bank' h k)
        (v.accounts k);
}

-- After any history that starts from a chain on which every account of the program is well formed
-- (an empty one, say), with any signers, accounts and arguments: the fee and the keeper's reward
-- of every configuration are within their limits; every feed has a price above zero and a known
-- source and channel; every position is well formed (its levels on their sides of the entry price,
-- its extreme only away from it, its status in accord with its collateral and its reason); and
-- every position's account holds at least the collateral.
pub run-IsBank :
    (rt : Runtime) (laws : IsRuntime rt) (calls : List (Env × Call)) (bank : Bank)
    → IsBank bank
    → IsBank (run rt calls bank)
run-IsBank rt laws =
    run_induction rt IsBank
      (λ env call bank bank' h v. execute-IsBank rt laws env call bank bank' h v)
