-- ===== src/Feed.antt =====
-- programs/hwal/src/instructions/initialize_price_feed.rs, update_price_feed.rs and
-- register_lazer_feed.rs: the price feed that an authority drives.
pub mod Prices
use hwal.Prelude.{ℕ, List, leb, ltb, ◌==◌}
use hwal.Prelude.Int.{ℤ}
use hwal.Prelude.Word.{saturating_add}
use hwal.Constants.{Pubkey, feed_source_authority, feed_source_lazer, lazer_channel_200ms}
use hwal.Errors.{
  Result, ok, program, not_admin, not_feed_authority, price_feed_zero, lazer_payload_invalid,
  feed_already_lazer, require, ◌>>=◌, ◌>>◌,
}
use hwal.Events.{price_feed_initialized, price_feed_updated, lazer_feed_registered}
use hwal.State.{PriceFeed, price_feed, zero_price_feed, price_feed_space}
use hwal.Runtime.{Bank, Env, Runtime}
use hwal.Accounts.{
  signer, load_config, load_price_feed, system_program, address, seeds_match, config_seeds,
  feed_seeds, init, store, emit,
}

pub record InitializePriceFeed : Type 0 where
  pub admin : Pubkey
  pub config : Pubkey
  pub authority : Pubkey
  pub feed : Pubkey
  pub system_program : Pubkey

unfoldable pub initialize_price_feed_handler :
    ℤ → Pubkey → ℕ → List ℕ → ℕ → ℕ → PriceFeed → Result PriceFeed
initialize_price_feed_handler now authority bump symbol decimals initial_price zeroed = do
  require (ltb 0 initial_price) price_feed_zero
  ok (record zeroed {
    authority = authority;
    symbol = symbol;
    decimals = decimals;
    price = initial_price;
    last_updated = now;
    update_count = 0;
    bump = bump;
    source = feed_source_authority;
    lazer_channel = 0;
    lazer_feed_id = 0;
  })

unfoldable pub initialize_price_feed :
    Runtime → Env → InitializePriceFeed → List ℕ → ℕ → ℕ → Bank → Result Bank
initialize_price_feed rt env ctx symbol decimals initial_price bank = do
  signer env ctx.admin
  c ← load_config bank ctx.config
  system_program rt ctx.system_program
  created ← init rt ctx.admin ctx.feed price_feed_space (feed_seeds symbol) bank
  address ctx.admin c.admin (program not_admin)
  seeds_match rt ctx.config config_seeds c.bump
  f ←
      initialize_price_feed_handler env.unix_timestamp ctx.authority created.0 symbol decimals
        initial_price zero_price_feed
  ok (
      emit (price_feed_initialized ctx.feed f.authority symbol decimals initial_price)
        (store ctx.feed (price_feed f) (record bank { lamports = created.1 })))

pub record UpdatePriceFeed : Type 0 where
  pub authority : Pubkey
  pub feed : Pubkey

-- The three assignments by which both update instructions write a price.
unfoldable pub write_price : ℤ → ℕ → PriceFeed → PriceFeed
write_price now new_price f = record f {
  price = new_price;
  last_updated = now;
  update_count = saturating_add f.update_count 1;
}

unfoldable pub update_price_feed_handler : ℤ → ℕ → PriceFeed → Result PriceFeed
update_price_feed_handler now new_price f = do
  require (ltb 0 new_price) price_feed_zero
  ok (write_price now new_price f)

unfoldable pub update_price_feed : Env → UpdatePriceFeed → ℕ → Bank → Result Bank
update_price_feed env ctx new_price bank = do
  signer env ctx.authority
  f ← load_price_feed bank ctx.feed
  address ctx.authority f.authority (program not_feed_authority)
  f' ← update_price_feed_handler env.unix_timestamp new_price f
  ok (
      emit (price_feed_updated ctx.feed f.price new_price f'.last_updated f'.update_count)
        (store ctx.feed (price_feed f') bank))

pub record RegisterLazerFeed : Type 0 where
  pub admin : Pubkey
  pub config : Pubkey
  pub feed : Pubkey

unfoldable pub register_lazer_feed_handler : ℕ → ℕ → PriceFeed → Result PriceFeed
register_lazer_feed_handler lazer_feed_id channel f = do
  require (leb channel lazer_channel_200ms) lazer_payload_invalid
  require (f.source == feed_source_authority) feed_already_lazer
  ok (record f {
    source = feed_source_lazer;
    lazer_channel = channel;
    lazer_feed_id = lazer_feed_id;
  })

unfoldable pub register_lazer_feed : Runtime → Env → RegisterLazerFeed → ℕ → ℕ → Bank → Result Bank
register_lazer_feed rt env ctx lazer_feed_id channel bank = do
  signer env ctx.admin
  c ← load_config bank ctx.config
  f ← load_price_feed bank ctx.feed
  address ctx.admin c.admin (program not_admin)
  seeds_match rt ctx.config config_seeds c.bump
  f' ← register_lazer_feed_handler lazer_feed_id channel f
  ok (
      emit (lazer_feed_registered ctx.feed lazer_feed_id channel)
        (store ctx.feed (price_feed f') bank))
