-- ===== src/Lazer/Bytes.antt =====
-- Little-endian bytes: what `to_le_bytes` writes, and that `from_le_bytes` reads it back.
use hwal.Prelude.{ℕ, zero, suc, ◌*◌, ◌/◌, ◌<◌, ◌≡◌, refl, ap, length, arith}
use hwal.Lazer.{from_le_bytes}
use hwal.Accounts.{to_le_bytes}

pub length-to_le_bytes : (n x : ℕ) → length (to_le_bytes n x) ≡ n
unfolding to_le_bytes
length-to_le_bytes zero x = refl
length-to_le_bytes (suc n) x = ap suc (length-to_le_bytes n (x / 256))

-- `256 ^ n`, by recursion.
abbrev pub bytes_limit : ℕ → ℕ
bytes_limit zero = 1
bytes_limit (suc n) = 256 * bytes_limit n

pub from_le_bytes-to_le_bytes : (n x : ℕ) → x < bytes_limit n → from_le_bytes (to_le_bytes n x) ≡ x
unfolding to_le_bytes from_le_bytes
from_le_bytes-to_le_bytes zero x h = omega arith
from_le_bytes-to_le_bytes (suc n) x h =
    omega (arith, from_le_bytes-to_le_bytes n (x / 256) (omega arith))
