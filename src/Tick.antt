-- ===== src/Tick.antt =====
-- programs/hwal/src/instructions/tick_position.rs: read the feed, advance the trailing extreme,
-- evaluate the triggers, and settle if one fires.
pub mod Inversion
pub mod Split
pub mod Trigger
pub mod Effect
pub mod Settlement
pub mod Progress
pub mod Trailing
use hwal.Prelude.{ℕ, ◌&&◌, ◌||◌, leb, ltb, ◌==◌, if◌then◌else◌}
use hwal.Prelude.Int.{ℤ}
use hwal.Prelude.Word
use hwal.Prelude.Word.{u64_max, saturating_add}
use hwal.Constants.{
  Pubkey, side_long, status_open, status_triggered, trigger_none, trigger_stop_loss,
  trigger_take_profit, trigger_trailing,
}
use hwal.Errors.{
  Result, ok, program, constraint_address, not_position_owner, position_not_open, feed_mismatch,
  math_overflow, trailing_underflow, ok_or, require, ◌>>=◌, ◌>>◌,
}
use hwal.Events.{Event, position_ticked, position_triggered}
use hwal.State.{Config, config, Position, position, PriceFeed}
use hwal.Runtime.{Bank, Env, Lamports, Runtime}
use hwal.Accounts.{
  signer, load_config, load_price_feed, load_position, address, seeds_match, config_seeds,
  position_seeds, store, emit,
}
use hwal.Utils.{bps_of, checked_sub, transfer_lamports_from_pda}
use hwal.Open.{fresh_price}

unfoldable pub count_tick : ℤ → Position → Position
count_tick now p = record p { last_tick_at = now; tick_count = saturating_add p.tick_count 1 }

unfoldable pub advance_extreme : ℕ → Position → Position
advance_extreme price p =
    if ltb 0 p.trailing_offset
    then (if p.side == side_long
        then (if ltb p.trailing_extreme price then record p { trailing_extreme = price } else p)
        else (if ltb price p.trailing_extreme || p.trailing_extreme == 0
            then record p { trailing_extreme = price }
            else p))
    else p

-- The last branch for each side: `error` where the threshold cannot be computed.
unfoldable pub trailing_long : ℕ → Position → Result ℕ
trailing_long price p = do
  threshold ←
      ok_or (Word.checked_sub p.trailing_extreme p.trailing_offset) (program trailing_underflow)
  ok (if leb price threshold then trigger_trailing else trigger_none)

unfoldable pub trailing_short : ℕ → Position → Result ℕ
trailing_short price p = do
  threshold ←
      ok_or (Word.checked_add u64_max p.trailing_extreme p.trailing_offset) (program math_overflow)
  ok (if leb threshold price then trigger_trailing else trigger_none)

-- The trigger that fires at a price: stop-loss, take-profit, trailing stop, in this order.
unfoldable pub evaluate_trigger : ℕ → Position → Result ℕ
unfolding trailing_long trailing_short
evaluate_trigger price p =
    if p.side == side_long
    then (if ltb 0 p.stop_price && leb price p.stop_price
        then ok trigger_stop_loss
        else if ltb 0 p.take_profit_price && leb p.take_profit_price price
        then ok trigger_take_profit
        else if ltb 0 p.trailing_offset
        then trailing_long price p
        else ok trigger_none)
    else (if ltb 0 p.stop_price && leb p.stop_price price
        then ok trigger_stop_loss
        else if ltb 0 p.take_profit_price && leb price p.take_profit_price
        then ok trigger_take_profit
        else if ltb 0 p.trailing_offset
        then trailing_short price p
        else ok trigger_none)

pub record Payout : Type 0 where
  pub fee : ℕ
  pub keeper_reward : ℕ
  pub net_to_owner : ℕ

unfoldable pub compute_payout : Config → ℕ → Result Payout
compute_payout c collateral = do
  fee ← bps_of collateral c.fee_bps
  keeper_reward ← bps_of collateral c.keeper_reward_bps
  after_fee ← checked_sub collateral fee
  net_to_owner ← checked_sub after_fee keeper_reward
  ok (record { fee = fee; keeper_reward = keeper_reward; net_to_owner = net_to_owner })

pub record TickPosition : Type 0 where
  pub keeper : Pubkey
  pub config : Pubkey
  pub feed : Pubkey
  pub position : Pubkey
  pub owner : Pubkey
  pub fee_receiver : Pubkey

-- `if amount > 0 { transfer_lamports_from_pda(...)?; }`
unfoldable pub pay : Pubkey → Pubkey → ℕ → Lamports → Result Lamports
pay from to amount l = if ltb 0 amount then transfer_lamports_from_pda l from to amount else ok l

-- The three transfers out of the position's account.
unfoldable pub pay_out : TickPosition → Payout → Lamports → Result Lamports
pay_out ctx out l = do
  paid_fee ← pay ctx.position ctx.fee_receiver out.fee l
  paid_keeper ← pay ctx.position ctx.keeper out.keeper_reward paid_fee
  pay ctx.position ctx.owner out.net_to_owner paid_keeper

-- What an instruction leaves of the accounts that it writes.
pub record Outcome : Type 0 where
  pub config : Config
  pub position : Position
  pub lamports : Lamports
  pub event : Event

unfoldable pub close_triggered : ℤ → ℕ → Position → Position
close_triggered now trigger p = record p {
  collateral = 0;
  status = status_triggered;
  trigger_reason = trigger;
  settled_at = now;
}

unfoldable pub count_triggered : Payout → Config → Config
count_triggered out c = record c {
  total_positions_triggered = saturating_add c.total_positions_triggered 1;
  total_fees_collected = saturating_add c.total_fees_collected out.fee;
  total_keeper_rewards_paid = saturating_add c.total_keeper_rewards_paid out.keeper_reward;
}

-- The part of the handler behind `if trigger == TRIGGER_NONE { return }`.
unfoldable pub settle : ℤ → TickPosition → ℕ → ℕ → Config → Position → Lamports → Result Outcome
settle now ctx trigger price c p l = do
  out ← compute_payout c p.collateral
  paid ← pay_out ctx out l
  ok (record {
    config = count_triggered out c;
    position = close_triggered now trigger p;
    lamports = paid;
    event =
        position_triggered ctx.position p.owner trigger price out.net_to_owner out.fee
          out.keeper_reward ctx.keeper now;
  })

unfoldable pub finish_tick :
    ℤ → TickPosition → ℕ → ℕ → Config → Position → Lamports → Result Outcome
finish_tick now ctx trigger price c p l =
    if trigger == trigger_none
    then ok (record {
      config = c;
      position = p;
      lamports = l;
      event = position_ticked ctx.position price p.trailing_extreme p.last_tick_at;
    })
    else settle now ctx trigger price c p l

unfoldable pub tick_handler :
    ℤ → TickPosition → Config → PriceFeed → Position → Lamports → Result Outcome
tick_handler now ctx c f p l = do
  require (p.status == status_open) position_not_open
  price ← fresh_price now f
  let ticked = advance_extreme price (count_tick now p)
  trigger ← evaluate_trigger price ticked
  finish_tick now ctx trigger price c ticked l

unfoldable pub tick_position : Runtime → Env → TickPosition → Bank → Result Bank
tick_position rt env ctx bank = do
  signer env ctx.keeper
  c ← load_config bank ctx.config
  f ← load_price_feed bank ctx.feed
  p ← load_position bank ctx.position
  seeds_match rt ctx.config config_seeds c.bump
  address ctx.feed p.feed (program feed_mismatch)
  seeds_match rt ctx.position (position_seeds p.owner p.nonce) p.bump
  address ctx.owner p.owner (program not_position_owner)
  address ctx.fee_receiver c.fee_receiver constraint_address
  out ← tick_handler env.unix_timestamp ctx c f p bank.lamports
  ok (
      emit out.event (
        store ctx.config (config out.config)
          (store ctx.position (position out.position) (record bank { lamports = out.lamports }))))
