-- ===== src/Tick/Effect.antt =====
-- What a successful tick does to the position.
use hwal.Prelude.{subst, ℕ, ◌≡◌, ◌≢◌, ◌⊎◌, inl, inr, refl, arith}
use hwal.Prelude.Int.{ℤ}
use hwal.Constants.{status_open, status_triggered, trigger_none}
use hwal.Errors.{ok}
use hwal.State.{Config, PriceFeed, Position}
use hwal.Runtime.{Lamports}
use hwal.Open.{fresh_price}
use hwal.Tick.{TickPosition, Outcome, count_tick, advance_extreme, close_triggered, tick_handler}
use hwal.Tick.Trigger.{Fires, evaluate_trigger-Fires}
use hwal.Tick.Inversion.{tick_handler-Handled, finish_tick-cases}

-- All that the owner agreed to is the same.
pub record SameTerms (p p' : Position) : Type 0 where
  pub owner : p'.owner ≡ p.owner
  pub feed : p'.feed ≡ p.feed
  pub nonce : p'.nonce ≡ p.nonce
  pub side : p'.side ≡ p.side
  pub entry_price : p'.entry_price ≡ p.entry_price
  pub stop_price : p'.stop_price ≡ p.stop_price
  pub take_profit_price : p'.take_profit_price ≡ p.take_profit_price
  pub trailing_offset : p'.trailing_offset ≡ p.trailing_offset
  pub opened_at : p'.opened_at ≡ p.opened_at
  pub bump : p'.bump ≡ p.bump
  pub er_delegated : p'.er_delegated ≡ p.er_delegated

-- The position with the tick counted and the extreme advanced, on which the triggers are evaluated.
abbrev pub ticked : ℤ → ℕ → Position → Position
ticked now price p = advance_extreme price (count_tick now p)

SameTerms-ticked : (now : ℤ) (price : ℕ) (p : Position) → SameTerms p (ticked now price p)
unfolding advance_extreme count_tick
SameTerms-ticked now price p = ground arith

pub ticked_status :
    (now : ℤ) (price : ℕ) (p : Position)
    → ((ticked now price p).status ≡ p.status)
      × ((ticked now price p).collateral ≡ p.collateral)
      × ((ticked now price p).trigger_reason ≡ p.trigger_reason)
      × ((ticked now price p).settled_at ≡ p.settled_at)
unfolding advance_extreme count_tick
ticked_status now price p = ground arith

SameTerms-closed :
    (now : ℤ) (trigger : ℕ) (p q : Position)
    → SameTerms p q
    → SameTerms p (close_triggered now trigger q)
unfolding close_triggered
SameTerms-closed now trigger p q same = ground arith

-- No trigger fired, and the position stays as it was but for the tick.
abbrev pub Quiet : ℤ → ℕ → Position → Position → Type 0
Quiet now price p p' = Fires (ticked now price p) price trigger_none × (p' ≡ ticked now price p)

-- A trigger fired, and the position is closed for that reason.
abbrev pub Fired : ℤ → ℕ → Position → Position → Type 0
Fired now price p p' =
    Fires (ticked now price p) price p'.trigger_reason
    × (p'.trigger_reason ≢ trigger_none)
    × (p'.status ≡ status_triggered)
    × (p'.collateral ≡ 0)
    × (p'.settled_at ≡ now)

pub Fired-closed :
    (now : ℤ) (trigger price : ℕ) (p p' : Position)
    → p' ≡ close_triggered now trigger (ticked now price p)
    → Fires (ticked now price p) price trigger
    → trigger ≢ trigger_none
    → Fired now price p p'
unfolding close_triggered
Fired-closed now trigger price p p' e fires fired = rw e (fires, fired, refl, refl, refl)

pub record TickEffect (now : ℤ) (f : PriceFeed) (p p' : Position) : Type 0 where
  pub was_open : p.status ≡ status_open
  pub price : ℕ
  pub fresh : fresh_price now f ≡ ok price
  pub terms : SameTerms p p'
  pub result : Quiet now price p p' ⊎ Fired now price p p'

-- A tick that succeeds was on an open position, at the feed's price, which is neither zero nor
-- stale. It leaves the terms of the position alone, and either none of the three conditions holds
-- at that price and only the tick is recorded, or the first that holds, in the order stop-loss,
-- take-profit, trailing stop, is the reason for which the position is closed and emptied.
pub tick_handler-TickEffect :
    (now : ℤ) (ctx : TickPosition) (c : Config) (f : PriceFeed) (p : Position) (l : Lamports)
    (out : Outcome)
    → tick_handler now ctx c f p l ≡ ok out
    → TickEffect now f p out.position
tick_handler-TickEffect now ctx c f p l out h =
    let r = tick_handler-Handled now ctx c f p l out h in
    let q = ticked now r.price p in
    let fires = evaluate_trigger-Fires q r.price r.trigger r.evaluated in
    let same = SameTerms-ticked now r.price p in
    elim (finish_tick-cases now ctx r.trigger r.price c q l out r.finished) [
      | inl (quiet, _, left, _, _) ↦ record {
        was_open = r.was_open;
        price = r.price;
        fresh = r.fresh;
        terms = rw left same;
        result = inl (subst (λ (t : ℕ). Fires q r.price t) quiet fires, left);
      }
      | inr (fired, s) ↦ record {
        was_open = r.was_open;
        price = r.price;
        fresh = r.fresh;
        terms = rw s.closed (SameTerms-closed now r.trigger p q same);
        result = inr (Fired-closed now r.trigger r.price p out.position s.closed fires fired);
      }
    ]
