-- ===== src/Positions.antt =====
-- The well-formedness of a position, which every instruction keeps.
pub mod Kept
use hwal.Prelude.{ℕ, ◌≤◌, ◌<◌, ◌≡◌, ◌≢◌, ◌⊎◌}
use hwal.Prelude.Int.{pos}
use hwal.Constants.{
  side_long, side_short, status_open, status_triggered, status_cancelled, trigger_none,
  trigger_trailing, min_collateral_lamports,
}
use hwal.State.{Position}

-- A level that is set lies below the entry price, or above it.
abbrev pub SetBelow : ℕ → ℕ → Type 0
SetBelow level entry = (level ≡ 0) ⊎ (level < entry)

abbrev pub SetAbove : ℕ → ℕ → Type 0
SetAbove level entry = (level ≡ 0) ⊎ (entry < level)

-- The levels lie on their sides of the entry price, and the trailing offset below it.
pub record HasLevels (side entry stop_price take_profit_price trailing_offset : ℕ) : Type 0 where
  pub long_stop : side ≡ side_long → SetBelow stop_price entry
  pub long_take : side ≡ side_long → SetAbove take_profit_price entry
  pub short_stop : side ≢ side_long → SetAbove stop_price entry
  pub short_take : side ≢ side_long → SetBelow take_profit_price entry
  pub offset : SetBelow trailing_offset entry

-- The extreme has moved only away from the entry price: up for a long, down for a short, and never
-- to zero.
pub record HasExtreme (p : Position) : Type 0 where
  pub long_extreme : p.side ≡ side_long → p.entry_price ≤ p.trailing_extreme
  pub short_extreme : p.side ≢ side_long → p.trailing_extreme ≤ p.entry_price
  pub extreme_pos : 0 < p.trailing_extreme
  pub entry_pos : 0 < p.entry_price

-- The status tells what is left of the collateral and why.
pub record HasStatus (p : Position) : Type 0 where
  pub side_known : (p.side ≡ side_long) ⊎ (p.side ≡ side_short)
  pub open_holds :
      p.status ≡ status_open
      → (min_collateral_lamports ≤ p.collateral) × (p.trigger_reason ≡ trigger_none)
  pub closed_empty : p.status ≢ status_open → p.collateral ≡ 0
  pub status_known :
      (p.status ≡ status_open)
      ⊎ ((p.status ≡ status_triggered)
          × (trigger_none < p.trigger_reason)
          × (p.trigger_reason ≤ trigger_trailing))
      ⊎ ((p.status ≡ status_cancelled) × (p.trigger_reason ≡ trigger_none))
  pub flag : p.er_delegated ≤ 1

pub record IsPosition (p : Position) : Type 0 where
  pub status : HasStatus p
  pub extreme : HasExtreme p
  pub levels : HasLevels p.side p.entry_price p.stop_price p.take_profit_price p.trailing_offset
