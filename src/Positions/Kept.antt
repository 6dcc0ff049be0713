-- ===== src/Positions/Kept.antt =====
-- Each change of a position that an instruction makes keeps it well formed.
use hwal.Prelude.{◌==◌, ==_iff, sym, ℕ, ◌≤◌, ◌<◌, ◌≡◌, ◌≢◌, ◌⊎◌, arith}
use hwal.Prelude.Int.{ℤ}
use hwal.Constants.{
  side_long, side_short, status_open, trigger_none, trigger_trailing, min_collateral_lamports,
}
use hwal.Errors.{ok, >>=-eq-ok, guard-eq-ok, ok-injective}
use hwal.State.{Position, PriceFeed}
use hwal.Triggers.{check_triggers, set_triggers, update_triggers_handler}
use hwal.Open.{OpenArgs, OpenPosition, fresh_price, check_open, opened_position}
use hwal.Tick.{count_tick, advance_extreme, evaluate_trigger, close_triggered}
use hwal.Cancel.{close_cancelled}
use hwal.Positions.{HasLevels, IsPosition}

-- The checks pass exactly for levels that lie on their sides.
pub check_triggers-HasLevels :
    (side entry stop take offset : ℕ)
    → check_triggers side entry stop take offset ≡ ok tt
    → HasLevels side entry stop take offset
unfolding check_triggers
check_triggers-HasLevels side entry stop take offset h = ground arith

pub HasLevels-check_triggers :
    (side entry stop take offset : ℕ)
    → HasLevels side entry stop take offset
    → check_triggers side entry stop take offset ≡ ok tt
unfolding check_triggers
HasLevels-check_triggers side entry stop take offset v = ground arith

pub fresh_price-pos :
    (now : ℤ) (f : PriceFeed) (price : ℕ)
    → fresh_price now f ≡ ok price
    → (price ≡ f.price) × (0 < price)
unfolding fresh_price
fresh_price-pos now f price h = ground arith

-- What the checks of `open_position` establish.
pub record Opens (now : ℤ) (f : PriceFeed) (args : OpenArgs) (entry : ℕ) : Type 0 where
  pub side_known : (args.side ≡ side_long) ⊎ (args.side ≡ side_short)
  pub enough : min_collateral_lamports ≤ args.collateral
  pub fresh : fresh_price now f ≡ ok entry
  pub levels : HasLevels args.side entry args.stop_price args.take_profit_price args.trailing_offset

pub check_open-Opens :
    (now : ℤ) (f : PriceFeed) (args : OpenArgs) (entry : ℕ)
    → check_open now f args ≡ ok entry
    → Opens now f args entry
unfolding check_open fresh_price
check_open-Opens now f args entry h = ground (
  arith,
  fresh_price-pos now f,
  check_triggers-HasLevels args.side f.price args.stop_price args.take_profit_price
      args.trailing_offset,
)

pub opened_position-IsPosition :
    (now : ℤ) (f : PriceFeed) (ctx : OpenPosition) (bump : ℕ) (args : OpenArgs) (entry : ℕ)
    → Opens now f args entry
    → IsPosition (opened_position now ctx bump args entry)
unfolding opened_position
opened_position-IsPosition now f ctx bump args entry v =
    let (_, positive) = fresh_price-pos now f entry v.fresh in ground arith

pub set_triggers-IsPosition :
    (p : Position) (stop take offset : ℕ)
    → IsPosition p
    → HasLevels p.side p.entry_price stop take offset
    → IsPosition (set_triggers stop take offset p)
unfolding set_triggers
set_triggers-IsPosition p stop take offset v l = ground arith

pub count_tick-IsPosition : (now : ℤ) (p : Position) → IsPosition p → IsPosition (count_tick now p)
unfolding count_tick
count_tick-IsPosition now p v = ground arith

pub advance_extreme-IsPosition :
    (price : ℕ) (p : Position) → 0 < price → IsPosition p → IsPosition (advance_extreme price p)
unfolding advance_extreme
advance_extreme-IsPosition price p positive v = ground arith

pub evaluate_trigger-le :
    (price : ℕ) (p : Position) (trigger : ℕ)
    → evaluate_trigger price p ≡ ok trigger
    → trigger ≤ trigger_trailing
unfolding evaluate_trigger
evaluate_trigger-le price p trigger h = ground arith

pub close_triggered-IsPosition :
    (now : ℤ) (trigger : ℕ) (p : Position)
    → trigger ≢ trigger_none
    → trigger ≤ trigger_trailing
    → IsPosition p
    → IsPosition (close_triggered now trigger p)
unfolding close_triggered
close_triggered-IsPosition now trigger p fired known v = ground arith

pub close_cancelled-IsPosition :
    (now : ℤ) (p : Position)
    → p.status ≡ status_open
    → IsPosition p
    → IsPosition (close_cancelled now p)
unfolding close_cancelled
close_cancelled-IsPosition now p was_open v = ground arith

pub flagged-IsPosition :
    (flag : ℕ) (p : Position)
    → flag ≤ 1
    → IsPosition p
    → IsPosition (record p { er_delegated = flag })
flagged-IsPosition flag p small v = ground arith

-- What a successful change of the levels went through.
pub record Retriggered (stop take offset : ℕ) (p p' : Position) : Type 0 where
  pub was_open : p.status ≡ status_open
  pub levels : HasLevels p.side p.entry_price stop take offset
  pub changed : p' ≡ set_triggers stop take offset p

pub update_triggers_handler-Retriggered :
    (stop take offset : ℕ) (p p' : Position)
    → update_triggers_handler stop take offset p ≡ ok p'
    → Retriggered stop take offset p p'
unfolding update_triggers_handler
update_triggers_handler-Retriggered stop take offset p p' h =
    let (opened, h1) = guard-eq-ok (p.status == status_open) _ _ h in
    let (unit, checked, h2) =
      >>=-eq-ok (check_triggers p.side p.entry_price stop take offset) _ h1 in
    record {
      was_open = (==_iff _ _).0 opened;
      levels = check_triggers-HasLevels p.side p.entry_price stop take offset checked;
      changed = sym (ok-injective h2);
    }
