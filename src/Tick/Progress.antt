-- ===== src/Tick/Progress.antt =====
-- A tick that can settle does: no error is left when the conditions of a tick are met.
use hwal.Prelude.{==_iff, ℕ, ◌+◌, ◌≤◌, ◌<◌, ◌≡◌, ◌≢◌, inl, inr, refl, ◌==◌, Bool-cases, arith}
use hwal.Prelude.Int.{ℤ}
use hwal.Prelude.Word.{u64_max}
use hwal.Constants.{Pubkey, side_long, status_open, trigger_none}
use hwal.Errors.{Error, Result, ok, err}
use hwal.State.{Config, PriceFeed, Position}
use hwal.Runtime.{Lamports}
use hwal.Events.{position_ticked, position_triggered}
use hwal.Open.{fresh_price}
use hwal.Positions.{IsPosition}
use hwal.Positions.Kept.{fresh_price-pos}
use hwal.Tick.{
  TickPosition, Outcome, Payout, count_tick, close_triggered, count_triggered, advance_extreme,
  evaluate_trigger, settle, finish_tick, tick_handler,
}
use hwal.Tick.Split.{
  IsPolicy, payout_of, compute_payout-payout_of, compute_payout_sum, pay_out_succeeds,
}
use hwal.Tick.Trigger.{CanTrail}
use hwal.Tick.Effect.{ticked, ticked_status}

evaluate_trigger-ne-err :
    (price : ℕ) (p : Position) → CanTrail p → (e : Error) → evaluate_trigger price p ≢ err e
unfolding evaluate_trigger
evaluate_trigger-ne-err price p v e = ground arith

evaluate_trigger_total :
    (price : ℕ) (p : Position) → CanTrail p → (reason : ℕ) × (evaluate_trigger price p ≡ ok reason)
evaluate_trigger_total price p v = go (evaluate_trigger price p) refl
  where
    go :
        (r : Result ℕ)
        → evaluate_trigger price p ≡ r
        → (reason : ℕ) × (evaluate_trigger price p ≡ ok reason)
    go (ok reason) e = (reason, e)
    go (err x) e = absurd (evaluate_trigger-ne-err price p v x e)

ticked-CanTrail :
    (now : ℤ) (price : ℕ) (p : Position)
    → 0 < price
    → IsPosition p
    → (p.side ≢ side_long → p.entry_price + p.trailing_offset ≤ u64_max)
    → CanTrail (ticked now price p)
unfolding advance_extreme count_tick
ticked-CanTrail now price p positive v fits = ground arith

-- The two outcomes of a tick.
abbrev quiet_outcome : ℤ → TickPosition → ℕ → Config → Position → Lamports → Outcome
quiet_outcome now ctx price c p l = record {
  config = c;
  position = p;
  lamports = l;
  event = position_ticked ctx.position price p.trailing_extreme p.last_tick_at;
}

abbrev settled_outcome : ℤ → TickPosition → ℕ → ℕ → Config → Position → Payout → Lamports → Outcome
settled_outcome now ctx trigger price c p out paid = record {
  config = count_triggered out c;
  position = close_triggered now trigger p;
  lamports = paid;
  event =
      position_triggered ctx.position p.owner trigger price out.net_to_owner out.fee
        out.keeper_reward ctx.keeper now;
}

finish_tick_total :
    (now : ℤ) (ctx : TickPosition) (trigger price : ℕ) (c : Config) (p : Position) (l : Lamports)
    → IsPolicy c
    → p.collateral ≤ u64_max
    → p.collateral ≤ l ctx.position
    → ((k : Pubkey) → l k + l ctx.position ≤ u64_max)
    → (out : Outcome) × (finish_tick now ctx trigger price c p l ≡ ok out)
unfolding finish_tick settle
finish_tick_total now ctx trigger price c p l policy small covered room =
    let computed = compute_payout-payout_of c p.collateral policy small in
    let whole = compute_payout_sum c p.collateral (payout_of c p.collateral) computed in
    let (paid, done) = pay_out_succeeds ctx (payout_of c p.collateral) l (omega arith) room in
    elim (Bool-cases (trigger == trigger_none)) [
      | inl quiet ↦ (quiet_outcome now ctx price c p l, rw quiet)
      | inr fired ↦ (
        settled_outcome now ctx trigger price c p (payout_of c p.collateral) paid,
        rw (fired, computed, done),
      )
    ]

-- A tick of an open, well-formed position, at a fresh price and under an accepted policy, succeeds
-- if the position's account holds the collateral, no balance comes near the end of a `u64`, and,
-- for a short, the entry price and the trailing offset together fit into a `u64`.
pub tick_handler_succeeds :
    (now : ℤ) (ctx : TickPosition) (c : Config) (f : PriceFeed) (p : Position) (l : Lamports)
    (price : ℕ)
    → p.status ≡ status_open
    → IsPosition p
    → fresh_price now f ≡ ok price
    → IsPolicy c
    → (p.side ≢ side_long → p.entry_price + p.trailing_offset ≤ u64_max)
    → p.collateral ≤ l ctx.position
    → ((k : Pubkey) → l k + l ctx.position ≤ u64_max)
    → (out : Outcome) × (tick_handler now ctx c f p l ≡ ok out)
unfolding tick_handler
tick_handler_succeeds now ctx c f p l price opened v fresh policy fits covered room =
    let q = ticked now price p in
    let kept = (ticked_status now price p).1 in
    let trail = ticked-CanTrail now price p (fresh_price-pos now f price fresh).1 v fits in
    let (reason, evaluated) = evaluate_trigger_total price q trail in
    let small : q.collateral ≤ u64_max = rw kept (omega (arith, room ctx.position)) in
    let (out, finished) =
      finish_tick_total now ctx reason price c q l policy small (rw kept covered) room in
    (out, rw ((==_iff p.status status_open).1 opened, fresh, evaluated) finished)
