-- ===== src/Triggers/Update.antt =====
-- When the levels of a position may be changed, and what the change does.
use hwal.Prelude.{ℕ, ◌≡◌, ◌↔◌, if◌then◌else◌, ==_iff, ◌==◌, ap, sym, ◌∙◌, arith}
use hwal.Constants.{status_open}
use hwal.Errors.{ok}
use hwal.State.{Position}
use hwal.Positions.{HasLevels}
use hwal.Positions.Kept.{update_triggers_handler-Retriggered, HasLevels-check_triggers}
use hwal.Triggers.{set_triggers, update_triggers_handler}

-- The extreme after a change of the offset: a new offset starts it again at the entry price.
abbrev pub restarted : ℕ → Position → ℕ
restarted offset p = if offset == p.trailing_offset then p.trailing_extreme else p.entry_price

-- The position with the three levels, and otherwise as it was.
abbrev pub with_levels : ℕ → ℕ → ℕ → Position → Position
with_levels stop take offset p = record p {
  stop_price = stop;
  take_profit_price = take;
  trailing_offset = offset;
  trailing_extreme = restarted offset p;
}

set_triggers-with_levels :
    (stop take offset : ℕ) (p : Position)
    → set_triggers stop take offset p ≡ with_levels stop take offset p
unfolding set_triggers
set_triggers-with_levels stop take offset p = ground arith

succeeds :
    (stop take offset : ℕ) (p : Position)
    → p.status ≡ status_open
    → HasLevels p.side p.entry_price stop take offset
    → update_triggers_handler stop take offset p ≡ ok (set_triggers stop take offset p)
unfolding update_triggers_handler
succeeds stop take offset p opened levels = rw (
  (==_iff p.status status_open).1 opened,
  HasLevels-check_triggers p.side p.entry_price stop take offset levels,
)

-- An update of the levels succeeds, with a position, exactly when the position was open, each level
-- that is set lies on its side of the entry price and the offset below it, and the new position is
-- the old one with the three levels, and the extreme back at the entry price if the trailing offset
-- is another.
pub update_triggers_iff :
    (stop take offset : ℕ) (p p' : Position)
    → (update_triggers_handler stop take offset p ≡ ok p') ↔ (
        (p.status ≡ status_open)
        × HasLevels p.side p.entry_price stop take offset
        × (p' ≡ with_levels stop take offset p))
update_triggers_iff stop take offset p p' = (
  (λ h.
      let r = update_triggers_handler-Retriggered stop take offset p p' h in
      (r.was_open, r.levels, r.changed ∙ set_triggers-with_levels stop take offset p)),
  (λ (opened, levels, e).
      succeeds stop take offset p opened levels
      ∙ ap ok (set_triggers-with_levels stop take offset p ∙ sym e)),
)
