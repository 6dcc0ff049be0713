-- ===== src/Utils.antt =====
-- programs/hwal/src/utils.rs
pub mod Bps
pub mod Transfer
use hwal.Prelude.{ℕ, ◌-◌, ◌*◌, Option, some, ltb, ◌==◌, if◌then◌else◌}
use hwal.Prelude.Word
use hwal.Prelude.Word.{u64_max, u128_max, checked_mul, checked_div, try_u64, and_then}
use hwal.Prelude.Map.{update}
use hwal.Constants.{Pubkey, bps_denominator}
use hwal.Errors.{Result, ok, err, program, math_overflow, insufficient_vault_lamports, ok_or, ◌>>=◌}
use hwal.Runtime.{Lamports}

unfoldable pub bps_of : ℕ → ℕ → Result ℕ
bps_of amount bps =
    ok_or
      (and_then (and_then (checked_mul u128_max amount bps) (λ v. checked_div v bps_denominator))
        try_u64)
      (program math_overflow)

unfoldable pub checked_sub : ℕ → ℕ → Result ℕ
checked_sub a b = ok_or (Word.checked_sub a b) (program math_overflow)

unfoldable pub checked_add : ℕ → ℕ → Result ℕ
checked_add a b = ok_or (Word.checked_add u64_max a b) (program math_overflow)

-- The second balance is read after the first is written, so the two accounts may be one.
unfoldable pub transfer_lamports_from_pda : Lamports → Pubkey → Pubkey → ℕ → Result Lamports
transfer_lamports_from_pda lamports from to amount =
    if amount == 0
    then ok lamports
    else if ltb (lamports from) amount
    then err (program insufficient_vault_lamports)
    else do
      left ← ok_or (Word.checked_sub (lamports from) amount) (program math_overflow)
      let taken = update lamports from left
      grown ← ok_or (Word.checked_add u64_max (taken to) amount) (program math_overflow)
      ok (update taken to grown)
