-- ===== src/Tick/Trailing.antt =====
-- The trailing extreme over a sequence of ticks: the running maximum of the prices for a long, the
-- running minimum for a short.
use hwal.Prelude.{
  subst, ℕ, ◌<◌, ◌≡◌, ◌≢◌, inl, inr, ap, ◌∙◌, sym, min, max, List, [], ◌∷◌, arith, ◌==◌,
  if◌then◌else◌,
}
use hwal.Prelude.Int.{ℤ}
use hwal.Constants.{side_long}
use hwal.Errors.{Result, ok, ok-injective, >>=-eq-ok, ◌>>=◌}
use hwal.State.{Config, PriceFeed, Position}
use hwal.Runtime.{Lamports}
use hwal.Positions.Kept.{fresh_price-pos}
use hwal.Tick.{TickPosition, Outcome, count_tick, advance_extreme, close_triggered, tick_handler}
use hwal.Tick.Inversion.{tick_handler-Handled, finish_tick-cases}
use hwal.Tick.Effect.{ticked}

-- One tick after the other, at the given times and states of the feed.
unfoldable pub run_ticks :
    TickPosition → Config → Lamports → List (ℤ × PriceFeed) → Position → Result Position
run_ticks ctx c l [] p = ok p
run_ticks ctx c l ((now, f) ∷ rest) p =
    tick_handler now ctx c f p l >>= λ out. run_ticks ctx c l rest out.position

-- The largest, or smallest, of the start and the prices.
pub running_max : ℕ → List (ℤ × PriceFeed) → ℕ
running_max e [] = e
running_max e ((now, f) ∷ rest) = running_max (max e f.price) rest

pub running_min : ℕ → List (ℤ × PriceFeed) → ℕ
running_min e [] = e
running_min e ((now, f) ∷ rest) = running_min (min e f.price) rest

-- What one tick keeps, and what it makes of the extreme.
record Advances (f : PriceFeed) (p p' : Position) : Type 0 where
  side : p'.side ≡ p.side
  offset : p'.trailing_offset ≡ p.trailing_offset
  long_extreme : p.side ≡ side_long → p'.trailing_extreme ≡ max p.trailing_extreme f.price
  short_extreme : p.side ≢ side_long → p'.trailing_extreme ≡ min p.trailing_extreme f.price
  extreme_pos : 0 < p'.trailing_extreme

ticked-Advances :
    (now : ℤ) (f : PriceFeed) (p : Position)
    → 0 < f.price
    → 0 < p.trailing_offset
    → 0 < p.trailing_extreme
    → Advances f p (ticked now f.price p)
unfolding advance_extreme count_tick
ticked-Advances now f p priced trails started = ground arith

closed-Advances :
    (now : ℤ) (trigger : ℕ) (f : PriceFeed) (p q : Position)
    → Advances f p q
    → Advances f p (close_triggered now trigger q)
unfolding close_triggered
closed-Advances now trigger f p q v = ground arith

tick_handler-Advances :
    (now : ℤ) (ctx : TickPosition) (c : Config) (f : PriceFeed) (p : Position) (l : Lamports)
    (out : Outcome)
    → tick_handler now ctx c f p l ≡ ok out
    → 0 < p.trailing_offset
    → 0 < p.trailing_extreme
    → Advances f p out.position
tick_handler-Advances now ctx c f p l out h trails started =
    let r = tick_handler-Handled now ctx c f p l out h in
    let (same, positive) = fresh_price-pos now f r.price r.fresh in
    let v = ticked-Advances now f p (subst (λ (n : ℕ). 0 < n) same positive) trails started in
    let w = subst (λ (n : ℕ). Advances f p (ticked now n p)) (sym same) v in
    elim (finish_tick-cases now ctx r.trigger r.price c (ticked now r.price p) l out r.finished) [
      | inl (_, _, left, _, _) ↦ subst (Advances f p) (sym left) w
      | inr (_, s) ↦
          subst (Advances f p) (sym s.closed)
            (closed-Advances now r.trigger f p (ticked now r.price p) w)
    ]

run_ticks-sides :
    (ctx : TickPosition) (c : Config) (l : Lamports) (ticks : List (ℤ × PriceFeed))
    (p p' : Position)
    → 0 < p.trailing_offset
    → 0 < p.trailing_extreme
    → run_ticks ctx c l ticks p ≡ ok p'
    → (p.side ≡ side_long → p'.trailing_extreme ≡ running_max p.trailing_extreme ticks)
      × (p.side ≢ side_long → p'.trailing_extreme ≡ running_min p.trailing_extreme ticks)
unfolding run_ticks running_max running_min
run_ticks-sides ctx c l [] p p' trails started h =
    let e = ap (λ (q : Position). q.trailing_extreme) (sym (ok-injective h)) in (λ _. e, λ _. e)
run_ticks-sides ctx c l ((now, f) ∷ rest) p p' trails started h =
    let (out, ran, h1) = >>=-eq-ok (tick_handler now ctx c f p l) _ h in
    let v = tick_handler-Advances now ctx c f p l out ran trails started in
    let (long, short) =
      run_ticks-sides ctx c l rest out.position p' (rw v.offset trails) v.extreme_pos h1 in
    (
      (λ is_long.
          long (v.side ∙ is_long) ∙ ap (λ (e : ℕ). running_max e rest) (v.long_extreme is_long)),
      (λ is_short.
          short (λ e. is_short (sym v.side ∙ e))
          ∙ ap (λ (e : ℕ). running_min e rest) (v.short_extreme is_short)),
    )

-- The extreme of a position over all the prices.
abbrev pub running_extreme : Position → List (ℤ × PriceFeed) → ℕ
running_extreme p ticks =
    if p.side == side_long
    then running_max p.trailing_extreme ticks
    else running_min p.trailing_extreme ticks

-- After any sequence of ticks that all succeed (the last of which may have fired a trigger), on a
-- position with a trailing offset and an extreme above zero, the extreme is the largest of the
-- old extreme and the prices of all the ticks for a long, and the smallest for a short.
pub run_ticks_extreme :
    (ctx : TickPosition) (c : Config) (l : Lamports) (ticks : List (ℤ × PriceFeed))
    (p p' : Position)
    → 0 < p.trailing_offset
    → 0 < p.trailing_extreme
    → run_ticks ctx c l ticks p ≡ ok p'
    → p'.trailing_extreme ≡ running_extreme p ticks
run_ticks_extreme ctx c l ticks p p' trails started h =
    let (long, short) = run_ticks-sides ctx c l ticks p p' trails started h in ground arith
