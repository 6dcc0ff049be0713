-- ===== src/Prelude/Map.antt =====
-- Maps from keys to values as functions, with the sum of the values over a list of keys.
use hwal.Prelude.Decide.{◌==◌, if◌then◌else◌}
use Prim.Native.Nat.{ℕ, ◌+◌, ◌*◌}
use mathlib.Core.Path.{◌≡◌}
use mathlib.Core.Logic.{◌≢◌}
use mathlib.Core.List.{List, [], ◌∷◌}
use native.Mathlib.Omega.{arith}

module _ {ℓ} {V : Type ℓ} where
  -- `f` with the value at `k` replaced.
  abbrev pub update : (ℕ → V) → ℕ → V → ℕ → V
  update f k v j = if j == k then v else f j

  pub update_self : (f : ℕ → V) (k : ℕ) (v : V) → update f k v k ≡ v
  update_self f k v = ground arith

  pub update_ne : (f : ℕ → V) (k : ℕ) (v : V) (j : ℕ) → j ≢ k → update f k v j ≡ f j
  update_ne f k v j h = ground arith

-- `amount` at the key `k`, and nothing elsewhere.
abbrev pub at_key : ℕ → ℕ → ℕ → ℕ
at_key k amount j = if j == k then amount else 0

-- The sum of a map over a list of keys.
unfoldable pub sum_over : List ℕ → (ℕ → ℕ) → ℕ
sum_over [] f = 0
sum_over (k ∷ ks) f = f k + sum_over ks f

-- How often a key is listed.
unfoldable pub count : ℕ → List ℕ → ℕ
count k [] = 0
count k (j ∷ ks) = (if j == k then 1 else 0) + count k ks

pub sum_over-at_key : (ks : List ℕ) (k n : ℕ) → sum_over ks (at_key k n) ≡ count k ks * n
unfolding sum_over count
sum_over-at_key [] k n = omega arith
sum_over-at_key (j ∷ ks) k n = grind (arith, sum_over-at_key ks k n)
