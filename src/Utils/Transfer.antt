-- ===== src/Utils/Transfer.antt =====
-- `transfer_lamports_from_pda`: what it moves, and when it succeeds.
use hwal.Prelude.{ℕ, ◌+◌, ◌≤◌, ◌<◌, ◌≡◌, ◌==◌, arith, Bool-cases, inl, inr, ◌-◌}
use hwal.Prelude.Word.{u64_max}
use hwal.Prelude.Map.{update}
use hwal.Errors.{ok, err, program, insufficient_vault_lamports}
use hwal.Runtime.{Lamports, Moves}
use hwal.Utils.{transfer_lamports_from_pda}

-- A transfer that succeeds moves the amount from the one account to the other, which may be the
-- same, and leaves every other balance alone.
pub transfer-Moves :
    (l : Lamports) (from to n : ℕ) (l' : Lamports)
    → transfer_lamports_from_pda l from to n ≡ ok l'
    → Moves from to n l l'
unfolding transfer_lamports_from_pda
transfer-Moves l from to n l' h k = ground arith

-- A transfer of no more than the account holds succeeds if the receiver's balance stays a `u64`.
pub transfer_succeeds :
    (l : Lamports) (from to n : ℕ)
    → n ≤ l from
    → l to + n ≤ u64_max
    → (l' : Lamports) × (transfer_lamports_from_pda l from to n ≡ ok l')
unfolding transfer_lamports_from_pda
transfer_succeeds l from to n enough fits = elim (Bool-cases (n == 0)) [
  | inl nothing ↦ (l, rw nothing)
  | inr some_ ↦
      ((let taken = update l from (l from - n) in update taken to (taken to + n)), ground arith)
]

pub transfer_short :
    (l : Lamports) (from to n : ℕ)
    → l from < n
    → transfer_lamports_from_pda l from to n ≡ err (program insufficient_vault_lamports)
unfolding transfer_lamports_from_pda
transfer_short l from to n short = ground arith
