-- ===== src/Open/Fresh.antt =====
-- When a feed's price is fresh, and when a position may be opened.
use hwal.Prelude.{ℕ, ◌<◌, ◌≡◌, ◌↔◌, arith}
use hwal.Prelude.Int.{ℤ, pos, ◌+ℤ◌, ◌≤ℤ◌}
use hwal.Prelude.Word.{saturating_sub-le_iff}
use hwal.Errors.{ok}
use hwal.State.{PriceFeed}
use hwal.Open.{OpenArgs, fresh_price, check_open}
use hwal.Positions.Kept.{Opens, check_open-Opens, HasLevels-check_triggers}

-- The price is above zero and the last update at most 120 seconds ago.
abbrev pub IsFresh : ℤ → PriceFeed → Type 0
IsFresh now f = (0 < f.price) × (now ≤ℤ f.last_updated +ℤ pos 120)

-- A feed gives a price exactly when the price is above zero and the clock is at most 120 seconds
-- past the last update, in true integers (a time that is ahead of the clock counts as fresh); and
-- the price that it gives is the feed's.
pub fresh_price_iff :
    (now : ℤ) (f : PriceFeed) (price : ℕ)
    → (fresh_price now f ≡ ok price) ↔ (IsFresh now f × (price ≡ f.price))
unfolding fresh_price
fresh_price_iff now f price = (
  (λ h. ground (arith, saturating_sub-le_iff now f.last_updated 120 (omega arith))),
  (λ h. ground (arith, saturating_sub-le_iff now f.last_updated 120 (omega arith))),
)

Opens-check_open :
    (now : ℤ) (f : PriceFeed) (args : OpenArgs) (entry : ℕ)
    → Opens now f args entry
    → check_open now f args ≡ ok entry
unfolding check_open
Opens-check_open now f args entry v =
    let levels =
      HasLevels-check_triggers args.side entry args.stop_price args.take_profit_price
        args.trailing_offset v.levels in
    ground (arith, v.fresh, levels)

-- The checks of `open_position` pass, with an entry price, exactly when the side is long or short,
-- the collateral is the minimum or more, the entry price is the feed's fresh price, and the levels
-- that are set lie on their sides of it and the offset below it.
pub check_open_iff :
    (now : ℤ) (f : PriceFeed) (args : OpenArgs) (entry : ℕ)
    → (check_open now f args ≡ ok entry) ↔ Opens now f args entry
check_open_iff now f args entry =
    (check_open-Opens now f args entry, Opens-check_open now f args entry)
