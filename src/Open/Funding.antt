-- ===== src/Open/Funding.antt =====
-- What opening a position does to the accounts and the balances of the chain.
use hwal.Prelude.{ℕ, ◌+◌, ◌≡◌, ◌≢◌, true, Option, none, some, ap, sym, ◌∙◌, subst, arith}
use hwal.Prelude.Map.{update}
use hwal.Constants.{Pubkey}
use hwal.Errors.{ok}
use hwal.State.{Account, config, position, price_feed, PriceFeed}
use hwal.Runtime.{Bank, Env, Lamports, Moves, Runtime, IsRuntime}
use hwal.Accounts.{position_seeds}
use hwal.Positions.Kept.{Opens, check_open-Opens}
use hwal.Open.{OpenPosition, OpenArgs, opened_position, open_position}
use hwal.Open.Inversion.{with_fresh, open_position-Opened}

-- Two payments between the same accounts are one of the sum.
Moves-trans :
    (from to a b : ℕ) (l m n : Lamports)
    → Moves from to a l m
    → Moves from to b m n
    → Moves from to (a + b) l n
Moves-trans from to a b l m n first second k = grind (arith, first k, second k)

pub record IsFunded (rt : Runtime) (env : Env) (ctx : OpenPosition) (args : OpenArgs)
    (bank bank' : Bank) : Type 0 where
  pub f : PriceFeed
  pub bump : ℕ
  pub entry_price : ℕ
  pub rent : ℕ
  pub signed : env.is_signer ctx.owner ≡ true
  pub has_feed : bank.accounts ctx.feed ≡ some (price_feed f)
  pub opens : Opens env.unix_timestamp f args entry_price
  pub at_derived : ctx.position ≡ (rt.find_program_address (position_seeds ctx.owner args.nonce)).0
  pub was_free : bank.accounts ctx.position ≡ none
  pub held :
      bank'.accounts ctx.position
      ≡ some (position (opened_position env.unix_timestamp ctx bump args entry_price))
  pub moved : Moves ctx.owner ctx.position (rent + args.collateral) bank.lamports bank'.lamports
  pub others : (k : Pubkey) → k ≢ ctx.position → k ≢ ctx.config → bank'.accounts k ≡ bank.accounts k

-- The second of two writes at different keys leaves the first.
update-update :
    (m : Pubkey → Option Account) (j k : Pubkey) (a b : Option Account)
    → k ≢ j
    → update (update m k a) j b k ≡ a
update-update m j k a b apart = ground arith

update-others :
    (m : Pubkey → Option Account) (i j k : Pubkey) (a b c : Option Account)
    → k ≢ i
    → k ≢ j
    → update (update (update m i a) i b) j c k ≡ m k
update-others m i j k a b c one two = ground arith

apart :
    (m : Pubkey → Option Account) (j k : Pubkey) (a : Account) → m j ≡ some a → m k ≡ none → k ≢ j
apart m j k a held free same = cc

-- Over a runtime that behaves as documented, an opening that succeeds is signed by the owner and
-- passes the checks at the feed's fresh price; it creates the position at the address derived from
-- the owner and the nonce, where no account was, with the levels and the collateral of the
-- arguments; it moves the collateral and the rent of the account from the owner to that account and
-- changes no other balance; and besides the position and the configuration it changes no account.
pub open_position-IsFunded :
    (rt : Runtime) (laws : IsRuntime rt) (env : Env) (ctx : OpenPosition) (args : OpenArgs)
    (bank bank' : Bank)
    → open_position rt env ctx args bank ≡ ok bank'
    → IsFunded rt env ctx args bank bank'
open_position-IsFunded rt laws env ctx args bank bank' h =
    let o = open_position-Opened rt env ctx args bank bank' h in
    let free = laws.init_account-fresh ctx.owner ctx.position _ bank o.created o.made in
    let differ = apart bank.accounts ctx.config ctx.position (config o.c) o.has_config free in
    let (rent, paid) = laws.init_account-Moves ctx.owner ctx.position _ bank o.created o.made in
    let deposited =
      laws.system_transfer-Moves ctx.owner ctx.position args.collateral _ o.funded o.transferred in
    record {
      f = o.f;
      bump = o.bump;
      entry_price = o.entry_price;
      rent = rent;
      signed = o.owner_signed;
      has_feed = o.has_feed;
      opens = check_open-Opens env.unix_timestamp o.f args o.entry_price o.checked;
      at_derived = o.at_derived;
      was_free = free;
      held =
          ap (λ (b : Bank). b.accounts ctx.position) o.left
          ∙ update-update (with_fresh ctx o.created bank).accounts ctx.config ctx.position _ _
              differ;
      moved =
          subst (Moves ctx.owner ctx.position (rent + args.collateral) bank.lamports)
            (sym (ap (λ (b : Bank). b.lamports) o.left))
            (Moves-trans ctx.owner ctx.position rent args.collateral bank.lamports o.created
              o.funded paid deposited);
      others = λ k one two.
          ap (λ (b : Bank). b.accounts k) o.left
          ∙ update-others bank.accounts ctx.position ctx.config k _ _ _ one two;
    }
