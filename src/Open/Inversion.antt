-- ===== src/Open/Inversion.antt =====
-- What a successful `open_position` went through.
use hwal.Prelude.{ℕ, ◌≡◌, sym, true, some, ◌==◌}
use hwal.Errors.{ok, ok-injective, >>=-eq-ok, guard-eq-ok}
use hwal.Events.{position_opened}
use hwal.State.{config, position, price_feed, Config, PriceFeed, zero_position, position_space}
use hwal.Runtime.{Bank, Env, Lamports, Runtime}
use hwal.Accounts.{store, emit, init, config_seeds, position_seeds}
use hwal.Accounts.Inversion.{
  load_config-eq-ok, load_price_feed-eq-ok, seeds_match-eq-ok, init-eq-ok,
}
use hwal.Open.{OpenPosition, OpenArgs, check_open, opened_position, count_opened, open_position}

-- The bank with the new account created, before any collateral moves.
abbrev pub with_fresh : OpenPosition → Lamports → Bank → Bank
with_fresh ctx l bank = store ctx.position (position zero_position) (record bank { lamports = l })

pub record Opened (rt : Runtime) (env : Env) (ctx : OpenPosition) (args : OpenArgs)
    (bank bank' : Bank) : Type 0 where
  pub c : Config
  pub f : PriceFeed
  pub bump : ℕ
  pub entry_price : ℕ
  pub created : Lamports
  pub funded : Lamports
  pub owner_signed : env.is_signer ctx.owner ≡ true
  pub has_config : bank.accounts ctx.config ≡ some (config c)
  pub has_feed : bank.accounts ctx.feed ≡ some (price_feed f)
  pub at_derived : ctx.position ≡ (rt.find_program_address (position_seeds ctx.owner args.nonce)).0
  pub made : rt.init_account ctx.owner ctx.position position_space bank ≡ ok created
  pub checked : check_open env.unix_timestamp f args ≡ ok entry_price
  pub transferred :
      rt.system_transfer ctx.owner ctx.position args.collateral (with_fresh ctx created bank)
      ≡ ok funded
  pub left :
      bank'
      ≡ emit
          (position_opened ctx.position ctx.owner ctx.feed args.side args.collateral entry_price
            args.stop_price args.take_profit_price args.trailing_offset env.unix_timestamp)
          (store ctx.config (config (count_opened c)) (
            store ctx.position
              (position (opened_position env.unix_timestamp ctx bump args entry_price))
              (record (with_fresh ctx created bank) { lamports = funded })))

pub open_position-Opened :
    (rt : Runtime) (env : Env) (ctx : OpenPosition) (args : OpenArgs) (bank bank' : Bank)
    → open_position rt env ctx args bank ≡ ok bank'
    → Opened rt env ctx args bank bank'
unfolding open_position opened_position
open_position-Opened rt env ctx args bank bank' h =
    let seeds = position_seeds ctx.owner args.nonce in
    let (signed, h1) = guard-eq-ok (env.is_signer ctx.owner) _ _ h in
    let (c, hc, h2) = load_config-eq-ok bank ctx.config _ h1 in
    let (f, hf, h3) = load_price_feed-eq-ok bank ctx.feed _ h2 in
    let (_, h4) = guard-eq-ok (ctx.system_program == rt.system_program_id) _ _ h3 in
    let (created, inited, h5) =
      >>=-eq-ok (init rt ctx.owner ctx.position position_space seeds bank) _ h4 in
    let (derived, _, made) =
      init-eq-ok rt ctx.owner ctx.position position_space seeds bank inited in
    let (at_config, h6) = seeds_match-eq-ok rt ctx.config config_seeds c.bump _ h5 in
    let (entry, checked, h7) = >>=-eq-ok (check_open env.unix_timestamp f args) _ h6 in
    let (l, moved, h8) =
      >>=-eq-ok
        (rt.system_transfer ctx.owner ctx.position args.collateral (with_fresh ctx created.1 bank))
        _ h7 in
    record {
      c = c;
      f = f;
      bump = created.0;
      entry_price = entry;
      created = created.1;
      funded = l;
      owner_signed = signed;
      has_config = hc;
      has_feed = hf;
      at_derived = derived;
      made = made;
      checked = checked;
      transferred = moved;
      left = sym (ok-injective h8);
    }
