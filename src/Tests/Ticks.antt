-- ===== src/Tests/Ticks.antt =====
-- The theorems on ticks and on cancellations at the position of the scene.
use hwal.Prelude.{◌⊎◌, ℕ, ◌+◌, ◌*◌, ◌<◌, ◌≤◌, ◌≡◌, ◌≢◌, ◌↔◌, refl, List, [], ◌∷◌, arith}
use hwal.Prelude.Int.{ℤ, pos, ◌-ℤ◌}
use hwal.Prelude.Word.{u64_max, saturating_sub}
use hwal.Constants.{bps_denominator, side_long}
use hwal.Errors.{ok, err, program, math_overflow, trailing_underflow}
use hwal.State.{Config, PriceFeed, Position, zero_config, zero_price_feed}
use hwal.Runtime.{Lamports, Moves}
use hwal.Open.{fresh_price, opened_position}
use hwal.Utils.{bps_of, checked_sub}
use hwal.Positions.{IsPosition}
use hwal.Tick.{
  Outcome, Payout, count_tick, advance_extreme, evaluate_trigger, compute_payout, finish_tick,
  tick_handler,
}
use hwal.Tick.Split.{IsPolicy, payout_of, compute_payout-payout_of}
use hwal.Tick.Trigger.{CanTrail, Fires, TrailIsNext, evaluate_trigger_iff, evaluate_trigger-eq-err}
use hwal.Tick.Effect.{TickEffect, tick_handler-TickEffect}
use hwal.Tick.Settlement.{compute_payout_net}
use hwal.Tick.Trailing.{run_ticks, running_extreme, run_ticks_extreme}
use hwal.Tick.Progress.{tick_handler_succeeds}
use hwal.Cancel.{cancel_handler}
use hwal.Cancel.Refund.{cancel_handler_succeeds}
use hwal.Tests.Scene.{treasury, held, tick_ctx, cancel_ctx, alice, position_key}

abbrev policy : Config
policy = record zero_config { fee_receiver = treasury; fee_bps = 50; keeper_reward_bps = 25 }

policy-IsPolicy : IsPolicy policy
policy-IsPolicy = record { fee_fits = omega arith; reward_fits = omega arith }

abbrev feed_at : ℕ → ℕ → PriceFeed
feed_at price time = record zero_price_feed { price = price; last_updated = pos time }

abbrev purse : Lamports
purse k = 100_000_000

compute_payout-payout_of_example : compute_payout policy 2_000_001 ≡ ok (payout_of policy 2_000_001)
compute_payout-payout_of_example =
    compute_payout-payout_of policy 2_000_001 policy-IsPolicy (omega arith)

abbrev split : Payout
split = record { fee = 10_000; keeper_reward = 5_000; net_to_owner = 1_985_001 }

split_computed : compute_payout policy 2_000_001 ≡ ok split
unfolding compute_payout bps_of checked_sub
split_computed = refl

compute_payout_net_example :
    (2_000_001 * 9300 ≤ 1_985_001 * bps_denominator)
    × (split.fee + split.keeper_reward + split.net_to_owner ≡ 2_000_001)
compute_payout_net_example =
    compute_payout_net policy 2_000_001 split policy-IsPolicy split_computed

abbrev trailing : Position
trailing = record held { trailing_extreme = 160_000 }

trailing-CanTrail : CanTrail trailing
unfolding held opened_position
trailing-CanTrail = record { long_fits = λ long. omega arith; short_fits = λ short. omega arith }

evaluate_trigger_iff_example : (evaluate_trigger 154_000 trailing ≡ ok 3) ↔ Fires trailing 154_000 3
evaluate_trigger_iff_example = evaluate_trigger_iff trailing 154_000 3 trailing-CanTrail

-- A short whose threshold is no `u64`.
abbrev short_position : Position
short_position = record held {
  side = 1;
  stop_price = 0;
  trailing_extreme = 18_446_744_073_709_551_000;
}

evaluate_trigger-eq-err_example :
    (evaluate_trigger 100 short_position ≡ err (program math_overflow)) ↔ (
      TrailIsNext short_position 100
      × (((program math_overflow ≡ program trailing_underflow)
            × (short_position.side ≡ side_long)
            × (short_position.trailing_extreme < short_position.trailing_offset))
          ⊎ ((program math_overflow ≡ program math_overflow)
              × (short_position.side ≢ side_long)
              × (u64_max < short_position.trailing_extreme + short_position.trailing_offset))))
evaluate_trigger-eq-err_example = evaluate_trigger-eq-err short_position 100 (program math_overflow)

abbrev once : ℕ → ℕ → Position
once time price = record held { last_tick_at = pos time; tick_count = 1; trailing_extreme = price }

rises :
    tick_handler (pos 1020) tick_ctx policy (feed_at 153_000 1015) held purse
    ≡ ok (record {
      config = policy;
      position = once 1020 153_000;
      lamports = purse;
      event = hwal.Events.position_ticked 1151 153_000 153_000 (pos 1020);
    })
unfolding tick_handler held opened_position fresh_price count_tick advance_extreme evaluate_trigger
    finish_tick saturating_sub ◌-ℤ◌
rises = refl

tick_handler-TickEffect_example :
    TickEffect (pos 1020) (feed_at 153_000 1015) held (once 1020 153_000)
tick_handler-TickEffect_example =
    tick_handler-TickEffect (pos 1020) tick_ctx policy (feed_at 153_000 1015) held purse
      (record {
        config = policy;
        position = once 1020 153_000;
        lamports = purse;
        event = hwal.Events.position_ticked 1151 153_000 153_000 (pos 1020);
      })
      rises

held-IsPosition : IsPosition held
unfolding held opened_position
held-IsPosition = record { status = ground arith; extreme = ground arith; levels = ground arith }

held_open : held.status ≡ 0
unfolding held opened_position
held_open = refl

held_collateral : held.collateral ≡ 2_000_000
unfolding held opened_position
held_collateral = refl

held_long : held.side ≡ side_long
unfolding held opened_position
held_long = refl

fresh : fresh_price (pos 1020) (feed_at 139_000 1015) ≡ ok 139_000
unfolding fresh_price saturating_sub ◌-ℤ◌
fresh = refl

tick_handler_succeeds_example :
    (out : Outcome) × (tick_handler (pos 1020) tick_ctx policy (feed_at 139_000 1015) held purse
      ≡ ok out)
tick_handler_succeeds_example =
    tick_handler_succeeds (pos 1020) tick_ctx policy (feed_at 139_000 1015) held purse 139_000
      held_open held-IsPosition fresh policy-IsPolicy (λ short. absurd (short held_long))
      (omega (arith, held_collateral)) (λ k. omega arith)

abbrev path : List (ℤ × PriceFeed)
path = (pos 1020, feed_at 153_000 1015) ∷ (pos 1030, feed_at 151_000 1025) ∷ []

abbrev twice : Position
twice = record held { last_tick_at = pos 1030; tick_count = 2; trailing_extreme = 153_000 }

walked : run_ticks tick_ctx policy purse path held ≡ ok twice
unfolding run_ticks tick_handler held opened_position fresh_price count_tick advance_extreme
    evaluate_trigger finish_tick saturating_sub ◌-ℤ◌
walked = refl

run_ticks_extreme_example : twice.trailing_extreme ≡ running_extreme held path
unfolding held opened_position
run_ticks_extreme_example =
    run_ticks_extreme tick_ctx policy purse path held twice (omega arith) (omega arith) walked

cancel_handler_succeeds_example :
    (out : Outcome) × (cancel_handler (pos 1020) cancel_ctx policy held purse ≡ ok out)
    × Moves position_key alice held.collateral purse out.lamports
    × (out.position.status ≡ 2)
    × (out.position.collateral ≡ 0)
cancel_handler_succeeds_example =
    cancel_handler_succeeds (pos 1020) cancel_ctx policy held purse held_open
      (omega (arith, held_collateral)) (omega (arith, held_collateral))
