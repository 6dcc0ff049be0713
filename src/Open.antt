-- ===== src/Open.antt =====
-- programs/hwal/src/instructions/open_position.rs
pub mod Inversion
pub mod Fresh
pub mod Funding
use hwal.Prelude.{ℕ, ◌||◌, leb, ltb, ◌==◌}
use hwal.Prelude.Int.{ℤ, pos, leb_ℤ}
use hwal.Prelude.Word.{saturating_add, saturating_sub}
use hwal.Constants.{
  Pubkey, side_long, side_short, min_collateral_lamports, max_feed_staleness_secs, status_open,
  trigger_none,
}
use hwal.Errors.{
  Result, ok, invalid_side, collateral_too_small, price_feed_zero, price_feed_stale, require, ◌>>=◌,
  ◌>>◌,
}
use hwal.Events.{position_opened}
use hwal.State.{Config, config, Position, position, PriceFeed, zero_position, position_space}
use hwal.Runtime.{Bank, Env, Runtime}
use hwal.Accounts.{
  signer, load_config, load_price_feed, system_program, seeds_match, config_seeds, position_seeds,
  init, store, emit,
}
use hwal.Triggers.{check_triggers}

-- The price of a feed that is neither zero nor stale at the given time.
unfoldable pub fresh_price : ℤ → PriceFeed → Result ℕ
fresh_price now f = do
  require (ltb 0 f.price) price_feed_zero
  let staleness = saturating_sub now f.last_updated
  require (leb_ℤ staleness max_feed_staleness_secs) price_feed_stale
  ok f.price

pub record OpenArgs : Type 0 where
  pub nonce : ℕ
  pub side : ℕ
  pub collateral : ℕ
  pub stop_price : ℕ
  pub take_profit_price : ℕ
  pub trailing_offset : ℕ

pub record OpenPosition : Type 0 where
  pub owner : Pubkey
  pub config : Pubkey
  pub feed : Pubkey
  pub position : Pubkey
  pub system_program : Pubkey

-- The checks before any lamport moves; the result is the entry price.
unfoldable pub check_open : ℤ → PriceFeed → OpenArgs → Result ℕ
check_open now f args = do
  require (args.side == side_long || args.side == side_short) invalid_side
  require (leb min_collateral_lamports args.collateral) collateral_too_small
  entry_price ← fresh_price now f
  check_triggers args.side entry_price args.stop_price args.take_profit_price args.trailing_offset
  ok entry_price

-- The assignments to the zeroed account.
unfoldable pub opened_position : ℤ → OpenPosition → ℕ → OpenArgs → ℕ → Position
opened_position now ctx bump args entry_price = record zero_position {
  owner = ctx.owner;
  feed = ctx.feed;
  vault = ctx.position;
  nonce = args.nonce;
  side = args.side;
  status = status_open;
  trigger_reason = trigger_none;
  pad = 0;
  collateral = args.collateral;
  entry_price = entry_price;
  stop_price = args.stop_price;
  take_profit_price = args.take_profit_price;
  trailing_offset = args.trailing_offset;
  trailing_extreme = entry_price;
  opened_at = now;
  last_tick_at = now;
  settled_at = pos 0;
  tick_count = 0;
  bump = bump;
  vault_bump = 0;
  er_delegated = 0;
}

unfoldable pub count_opened : Config → Config
count_opened c = record c { total_positions_opened = saturating_add c.total_positions_opened 1 }

unfoldable pub open_position : Runtime → Env → OpenPosition → OpenArgs → Bank → Result Bank
open_position rt env ctx args bank = do
  signer env ctx.owner
  c ← load_config bank ctx.config
  f ← load_price_feed bank ctx.feed
  system_program rt ctx.system_program
  created ← init rt ctx.owner ctx.position position_space (position_seeds ctx.owner args.nonce) bank
  seeds_match rt ctx.config config_seeds c.bump
  entry_price ← check_open env.unix_timestamp f args
  let fresh = store ctx.position (position zero_position) (record bank { lamports = created.1 })
  l ← rt.system_transfer ctx.owner ctx.position args.collateral fresh
  let p = opened_position env.unix_timestamp ctx created.0 args entry_price
  ok (
      emit
        (position_opened ctx.position p.owner p.feed args.side args.collateral entry_price
          args.stop_price args.take_profit_price args.trailing_offset p.opened_at)
        (store ctx.config (config (count_opened c))
          (store ctx.position (position p) (record fresh { lamports = l }))))
