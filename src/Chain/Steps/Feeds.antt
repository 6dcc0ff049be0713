-- ===== src/Chain/Steps/Feeds.antt =====
-- The four instructions on price feeds as account steps.
use hwal.Prelude.{ℕ, ◌≡◌, ◌==◌, sym, ap, List, arith}
use hwal.Errors.{ok, ok-injective, >>=-eq-ok, guard-eq-ok}
use hwal.State.{price_feed, zero_price_feed, price_feed_space}
use hwal.Runtime.{Bank, Env, Runtime, IsRuntime}
use hwal.Accounts.{config_seeds, feed_seeds, init}
use hwal.Accounts.Inversion.{
  load_config-eq-ok, load_price_feed-eq-ok, address-eq-ok, seeds_match-eq-ok, init-eq-ok,
}
use hwal.Feed.{
  InitializePriceFeed, initialize_price_feed_handler, initialize_price_feed, UpdatePriceFeed,
  update_price_feed_handler, update_price_feed, RegisterLazerFeed, register_lazer_feed_handler,
  register_lazer_feed,
}
use hwal.Lazer.{UpdatePriceFeedFromLazer, update_from_lazer_handler, update_price_feed_from_lazer}
use hwal.Chain.{AccountStep, BankStep}
use hwal.Chain.Steps.Writes.{BankStep-write}
use hwal.Chain.Steps.Policy.{init_account-keeps}

pub initialize_price_feed-BankStep :
    (rt : Runtime) (laws : IsRuntime rt) (env : Env) (ctx : InitializePriceFeed) (symbol : List ℕ)
    (decimals initial_price : ℕ) (bank bank' : Bank)
    → initialize_price_feed rt env ctx symbol decimals initial_price bank ≡ ok bank'
    → BankStep rt env bank bank'
unfolding initialize_price_feed
initialize_price_feed-BankStep rt laws env ctx symbol decimals initial_price bank bank' h =
    let seeds = feed_seeds symbol in
    let (signed, h1) = guard-eq-ok (env.is_signer ctx.admin) _ _ h in
    let (c, hc, h2) = load_config-eq-ok bank ctx.config _ h1 in
    let (_, h3) = guard-eq-ok (ctx.system_program == rt.system_program_id) _ _ h2 in
    let (created, inited, h4) =
      >>=-eq-ok (init rt ctx.admin ctx.feed price_feed_space seeds bank) _ h3 in
    let (derived, _, made) = init-eq-ok rt ctx.admin ctx.feed price_feed_space seeds bank inited in
    let (at_admin, h5) = address-eq-ok ctx.admin c.admin _ _ h4 in
    let (_, h6) = seeds_match-eq-ok rt ctx.config config_seeds c.bump _ h5 in
    let (f, handled, h7) =
      >>=-eq-ok
        (initialize_price_feed_handler env.unix_timestamp ctx.authority created.0 symbol decimals
          initial_price zero_price_feed)
        _ h6 in
    let left = sym (ok-injective h7) in
    BankStep-write rt env bank bank' ctx.feed (price_feed f)
      (λ k. ap (λ (b : Bank). b.accounts k) left)
      (λ k _ held.
        rw (ap (λ (b : Bank). b.lamports) left) (
          init_account-keeps rt laws ctx.admin ctx.feed price_feed_space bank created.1 made k
            held))
      (λ k here after.
        AccountStep.feed_created ctx c created.0 symbol decimals initial_price f hc
          (rw (← at_admin) signed)
          (rw here
            (laws.init_account-fresh ctx.admin ctx.feed price_feed_space bank created.1 made))
          (rw here derived) handled after)

pub update_price_feed-BankStep :
    (rt : Runtime) (env : Env) (ctx : UpdatePriceFeed) (new_price : ℕ) (bank bank' : Bank)
    → update_price_feed env ctx new_price bank ≡ ok bank'
    → BankStep rt env bank bank'
unfolding update_price_feed
update_price_feed-BankStep rt env ctx new_price bank bank' h =
    let (signed, h1) = guard-eq-ok (env.is_signer ctx.authority) _ _ h in
    let (f, hf, h2) = load_price_feed-eq-ok bank ctx.feed _ h1 in
    let (at_authority, h3) = address-eq-ok ctx.authority f.authority _ _ h2 in
    let (f', handled, h4) =
      >>=-eq-ok (update_price_feed_handler env.unix_timestamp new_price f) _ h3 in
    let left = sym (ok-injective h4) in
    BankStep-write rt env bank bank' ctx.feed (price_feed f')
      (λ k. ap (λ (b : Bank). b.accounts k) left)
      (λ k _ _. ground (arith, ap (λ (b : Bank). b.lamports k) left))
      (λ k here after.
        AccountStep.feed_priced new_price f f' (rw (← at_authority) signed) (rw here hf) handled
          after (ground (arith, ap (λ (b : Bank). b.lamports k) left)))

pub register_lazer_feed-BankStep :
    (rt : Runtime) (env : Env) (ctx : RegisterLazerFeed) (lazer_feed_id channel : ℕ)
    (bank bank' : Bank)
    → register_lazer_feed rt env ctx lazer_feed_id channel bank ≡ ok bank'
    → BankStep rt env bank bank'
unfolding register_lazer_feed
register_lazer_feed-BankStep rt env ctx lazer_feed_id channel bank bank' h =
    let (signed, h1) = guard-eq-ok (env.is_signer ctx.admin) _ _ h in
    let (c, hc, h2) = load_config-eq-ok bank ctx.config _ h1 in
    let (f, hf, h3) = load_price_feed-eq-ok bank ctx.feed _ h2 in
    let (at_admin, h4) = address-eq-ok ctx.admin c.admin _ _ h3 in
    let (_, h5) = seeds_match-eq-ok rt ctx.config config_seeds c.bump _ h4 in
    let (f', handled, h6) = >>=-eq-ok (register_lazer_feed_handler lazer_feed_id channel f) _ h5 in
    let left = sym (ok-injective h6) in
    BankStep-write rt env bank bank' ctx.feed (price_feed f')
      (λ k. ap (λ (b : Bank). b.accounts k) left)
      (λ k _ _. ground (arith, ap (λ (b : Bank). b.lamports k) left))
      (λ k here after.
        AccountStep.feed_registered lazer_feed_id channel ctx.config c f f' hc
          (rw (← at_admin) signed) (rw here hf) handled after
          (ground (arith, ap (λ (b : Bank). b.lamports k) left)))

pub update_price_feed_from_lazer-BankStep :
    (rt : Runtime) (env : Env) (ctx : UpdatePriceFeedFromLazer) (payload : List ℕ)
    (bank bank' : Bank)
    → update_price_feed_from_lazer rt env ctx payload bank ≡ ok bank'
    → BankStep rt env bank bank'
unfolding update_price_feed_from_lazer
update_price_feed_from_lazer-BankStep rt env ctx payload bank bank' h =
    let (signed, h1) = guard-eq-ok (env.is_signer ctx.poster) _ _ h in
    let (f, hf, h2) = load_price_feed-eq-ok bank ctx.feed _ h1 in
    let (at_sysvar, h3) = address-eq-ok ctx.instructions rt.instructions_sysvar_id _ _ h2 in
    let (v, handled, h4) = >>=-eq-ok (update_from_lazer_handler rt env payload f) _ h3 in
    let left = sym (ok-injective h4) in
    BankStep-write rt env bank bank' ctx.feed (price_feed v.feed)
      (λ k. ap (λ (b : Bank). b.accounts k) left)
      (λ k _ _. ground (arith, ap (λ (b : Bank). b.lamports k) left))
      (λ k here after.
        AccountStep.feed_verified ctx payload f v signed at_sysvar (rw here hf) handled after
          (ground (arith, ap (λ (b : Bank). b.lamports k) left)))
