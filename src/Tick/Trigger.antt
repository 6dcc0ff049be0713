-- ===== src/Tick/Trigger.antt =====
-- What `evaluate_trigger` decides, as conditions on the prices: `Fires p price reason`.
use hwal.Prelude.{ℕ, ◌+◌, ◌≤◌, ◌<◌, ◌≡◌, ◌≢◌, ◌⊎◌, ◌↔◌, arith}
use hwal.Prelude.Word.{u64_max}
use hwal.Constants.{
  side_long, trigger_none, trigger_stop_loss, trigger_take_profit, trigger_trailing,
}
use hwal.Errors.{Error, ok, err, program, trailing_underflow, math_overflow}
use hwal.State.{Position}
use hwal.Tick.{evaluate_trigger}

module _ (p : Position) where
  -- `a` is no better than `b` for the position's side: not above for a long, not below for a short.
  abbrev pub NoBetter : ℕ → ℕ → Type 0
  NoBetter a b = ((p.side ≡ side_long) × (a ≤ b)) ⊎ ((p.side ≢ side_long) × (b ≤ a))

  abbrev pub StopHit : ℕ → Type 0
  StopHit price = (0 < p.stop_price) × NoBetter price p.stop_price

  abbrev pub TakeHit : ℕ → Type 0
  TakeHit price = (0 < p.take_profit_price) × NoBetter p.take_profit_price price

  -- The price has come back from the extreme by the offset or more.
  abbrev pub TrailHit : ℕ → Type 0
  TrailHit price =
      (0 < p.trailing_offset)
      × (((p.side ≡ side_long) × (price + p.trailing_offset ≤ p.trailing_extreme))
          ⊎ ((p.side ≢ side_long) × (p.trailing_extreme + p.trailing_offset ≤ price)))

  -- The first condition that holds, in the order stop-loss, take-profit, trailing stop.
  abbrev pub Fires : ℕ → ℕ → Type 0
  Fires price reason =
      (StopHit price × (reason ≡ trigger_stop_loss))
      ⊎ ((¬ StopHit price) × TakeHit price × (reason ≡ trigger_take_profit))
      ⊎ ((¬ StopHit price) × (¬ TakeHit price) × TrailHit price × (reason ≡ trigger_trailing))
      ⊎ ((¬ StopHit price) × (¬ TakeHit price) × (¬ TrailHit price) × (reason ≡ trigger_none))

  -- The threshold of the trailing stop is a `u64`.
  pub record CanTrail : Type 0 where
    pub long_fits : p.side ≡ side_long → p.trailing_offset ≤ p.trailing_extreme
    pub short_fits : p.side ≢ side_long → p.trailing_extreme + p.trailing_offset ≤ u64_max

  pub evaluate_trigger-Fires :
      (price reason : ℕ) → evaluate_trigger price p ≡ ok reason → Fires price reason
  unfolding evaluate_trigger
  evaluate_trigger-Fires price reason h = ground arith

  Fires-evaluate_trigger :
      (price reason : ℕ) → CanTrail → Fires price reason → evaluate_trigger price p ≡ ok reason
  unfolding evaluate_trigger
  Fires-evaluate_trigger price reason v h = ground arith

  -- Where the threshold of the trailing stop is a `u64`, the evaluation gives a reason exactly if
  -- `Fires` holds of it: the stop-loss if its level is set and reached, else the take-profit if its
  -- level is set and reached, else the trailing stop if an offset is set and the price has come
  -- back by it from the extreme, else none.
  pub evaluate_trigger_iff :
      (price reason : ℕ) → CanTrail → (evaluate_trigger price p ≡ ok reason) ↔ Fires price reason
  evaluate_trigger_iff price reason v =
      (evaluate_trigger-Fires price reason, Fires-evaluate_trigger price reason v)

  -- A trailing offset that is set, and neither a stop-loss nor a take-profit that is hit.
  abbrev pub TrailIsNext : ℕ → Type 0
  TrailIsNext price = (0 < p.trailing_offset) × (¬ StopHit price) × (¬ TakeHit price)

  -- The evaluation fails exactly with a trailing offset set and neither the stop-loss nor the
  -- take-profit reached, and then for one of two reasons and no other: it underflows for a long if
  -- the offset is larger than the extreme, and overflows for a short if extreme and offset exceed a
  -- `u64`.
  pub evaluate_trigger-eq-err :
      (price : ℕ) (e : Error)
      → (evaluate_trigger price p ≡ err e) ↔ (
          TrailIsNext price
          × (((e ≡ program trailing_underflow)
                × (p.side ≡ side_long)
                × (p.trailing_extreme < p.trailing_offset))
              ⊎ ((e ≡ program math_overflow)
                  × (p.side ≢ side_long)
                  × (u64_max < p.trailing_extreme + p.trailing_offset))))
  unfolding evaluate_trigger
  evaluate_trigger-eq-err price e = ground arith
