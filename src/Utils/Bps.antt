-- ===== src/Utils/Bps.antt =====
-- `bps_of`: the share of an amount in basis points.
use hwal.Prelude.{ℕ, ◌+◌, ◌*◌, ◌/◌, ◌≤◌, ◌<◌, ◌≡◌, ◌↔◌, arith}
use hwal.Prelude.Word.{u64_max}
use hwal.Constants.{bps_denominator}
use hwal.Errors.{Error, ok, err, program, math_overflow}
use hwal.Utils.{bps_of}

-- For a `u64` amount the product fits into 128 bits.
product_bound : (amount bps top : ℕ) → amount ≤ u64_max → bps ≤ top → amount * bps ≤ u64_max * top
product_bound amount bps top ha hb = grind arith

-- For a `u64` amount and a rate of at most 10 000 basis points there is no error.
pub bps_of-div :
    (amount bps : ℕ)
    → amount ≤ u64_max
    → bps ≤ bps_denominator
    → bps_of amount bps ≡ ok (amount * bps / bps_denominator)
unfolding bps_of
bps_of-div amount bps ha hb = ground (arith, product_bound amount bps bps_denominator ha hb)

-- What `bps_of` returns is the quotient rounded down, whatever the rate.
pub bps_of-floor :
    (amount bps share : ℕ)
    → bps_of amount bps ≡ ok share
    → (share * bps_denominator ≤ amount * bps) × (amount * bps < (share + 1) * bps_denominator)
unfolding bps_of
bps_of-floor amount bps share h = ground arith

-- For a `u64` amount and a `u16` rate `bps_of` gives the share rounded down exactly if that is a
-- `u64`, and fails exactly if it is not, with `MathOverflow` and no other error; the product itself
-- never overflows.
pub bps_of-eq-err :
    (amount bps : ℕ) (e : Error)
    → amount ≤ u64_max
    → bps < 65536
    → ((bps_of amount bps ≡ ok (amount * bps / bps_denominator))
        ↔ (amount * bps < (u64_max + 1) * bps_denominator))
      × ((bps_of amount bps ≡ err e)
          ↔ ((e ≡ program math_overflow) × ((u64_max + 1) * bps_denominator ≤ amount * bps)))
unfolding bps_of
bps_of-eq-err amount bps e ha hb = ground (arith, product_bound amount bps 65535 ha)
