-- ===== src/Chain/Steps/Entry.antt =====
-- `open_position` as account steps.
use hwal.Prelude.{◌≤◌, ◌≡◌, ◌≢◌, refl, ap, none, arith}
use hwal.Constants.{Pubkey}
use hwal.Errors.{ok}
use hwal.State.{config, position, position_space}
use hwal.Runtime.{Bank, Env, Runtime, IsRuntime}
use hwal.Open.{OpenPosition, OpenArgs, open_position, opened_position, count_opened}
use hwal.Open.Inversion.{Opened, open_position-Opened, with_fresh}
use hwal.Chain.{Counts, AccountStep, BankStep}
use hwal.Chain.Steps.Writes.{BankStep-write_two}

module _ (rt : Runtime) (laws : IsRuntime rt) (env : Env) (ctx : OpenPosition) (args : OpenArgs)
    (bank bank' : Bank) (o : Opened rt env ctx args bank bank') where
  -- The new account was no account of the program, and the owner's is none either.
  was_fresh : bank.accounts ctx.position ≡ none
  was_fresh = laws.init_account-fresh ctx.owner ctx.position position_space bank o.created o.made

  owner_free : (with_fresh ctx o.created bank).accounts ctx.owner ≡ none
  owner_free =
      laws.system_transfer-payer ctx.owner ctx.position args.collateral
        (with_fresh ctx o.created bank) o.funded o.transferred

  owner_apart : ctx.position ≢ ctx.owner
  owner_apart = ground (arith, owner_free)

  -- No account but the owner's pays.
  others_keep : (k : Pubkey) → k ≢ ctx.owner → bank.lamports k ≤ o.funded k
  others_keep k ne =
      let (rent, creation) =
        laws.init_account-Moves ctx.owner ctx.position position_space bank o.created o.made in
      let funding =
        laws.system_transfer-Moves ctx.owner ctx.position args.collateral
          (with_fresh ctx o.created bank) o.funded o.transferred in
      ground (arith, creation k, funding k)

  funded_collateral : args.collateral ≤ o.funded ctx.position
  funded_collateral =
      let funding =
        laws.system_transfer-Moves ctx.owner ctx.position args.collateral
          (with_fresh ctx o.created bank) o.funded o.transferred in
      ground (arith, funding ctx.position, owner_apart)

  owner_not_program : (k : Pubkey) → bank.accounts k ≢ none → k ≢ ctx.owner
  owner_not_program k held e =
      held
        (rw e (laws.init_account-payer ctx.owner ctx.position position_space bank o.created o.made))

  Opened-BankStep : BankStep rt env bank bank'
  Opened-BankStep =
      let same_l = ap (λ (b : Bank). b.lamports) o.left in
      let apart : ctx.position ≢ ctx.config = λ e. ground (arith, was_fresh, o.has_config, e) in
      let p = opened_position env.unix_timestamp ctx o.bump args o.entry_price in
      BankStep-write_two rt env bank bank' ctx.position ctx.config (position p)
        (config (count_opened o.c)) (λ k. ground (arith, ap (λ (b : Bank). b.accounts k) o.left))
        apart (λ k _ _ held. rw same_l (others_keep k (owner_not_program k held)))
        (λ k here after.
          AccountStep.position_opened ctx args o.f o.bump o.entry_price o.owner_signed o.has_feed
            (rw here o.at_derived) (rw here was_fresh) here o.checked after
            (rw (same_l, here) funded_collateral))
        (λ k here after.
          AccountStep.config_counted o.c (count_opened o.c) (rw here o.has_config)
            (unfold count_opened in Counts.counts_opened refl) after
            (rw (same_l, here)
              (others_keep ctx.config
                (owner_not_program ctx.config (ground (arith, o.has_config))))))

pub open_position-BankStep :
    (rt : Runtime) (laws : IsRuntime rt) (env : Env) (ctx : OpenPosition) (args : OpenArgs)
    (bank bank' : Bank)
    → open_position rt env ctx args bank ≡ ok bank'
    → BankStep rt env bank bank'
open_position-BankStep rt laws env ctx args bank bank' h =
    Opened-BankStep rt laws env ctx args bank bank'
      (open_position-Opened rt env ctx args bank bank' h)
