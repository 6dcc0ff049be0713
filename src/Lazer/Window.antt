-- ===== src/Lazer/Window.antt =====
-- The search for the payload in the data of the ed25519 instruction.
use hwal.Prelude.{
  ℕ, zero, suc, ◌<◌, ◌≡◌, inl, inr, refl, ap, sym, ◌∙◌, Bool, true, ◌&&◌, Bool-cases, List, [], ◌∷◌,
  ◌++◌, length, take, drop, leb, arith, take-append, length-append,
}
use hwal.Lazer.{bytes_eq, any_window}

-- `part` stands somewhere in `whole`, with any bytes before and behind it.
abbrev pub Contains : List ℕ → List ℕ → Type 0
Contains whole part = (pre : List ℕ) × (post : List ℕ) × (whole ≡ pre ++ part ++ post)

pub bytes_eq_refl : (xs : List ℕ) → bytes_eq xs xs ≡ true
unfolding bytes_eq
bytes_eq_refl [] = refl
bytes_eq_refl (x ∷ xs) = ground (arith, bytes_eq_refl xs)

pub bytes_eq_sound : (xs ys : List ℕ) → bytes_eq xs ys ≡ true → xs ≡ ys
unfolding bytes_eq
bytes_eq_sound [] [] h = refl
bytes_eq_sound [] (y ∷ ys) h = cc
bytes_eq_sound (x ∷ xs) [] h = cc
bytes_eq_sound (x ∷ xs) (y ∷ ys) h = ground (arith, bytes_eq_sound xs ys)

take-append-drop : (n : ℕ) (xs : List ℕ) → take n xs ++ drop n xs ≡ xs
take-append-drop zero xs = refl
take-append-drop (suc n) [] = refl
take-append-drop (suc n) (x ∷ xs) = ap (λ r. x ∷ r) (take-append-drop n xs)

-- The window at the front of the data.
abbrev front_matches : List ℕ → List ℕ → Bool
front_matches bytes expected =
    leb (length expected) (length bytes) && bytes_eq (take (length expected) bytes) expected

front_matches_append : (part post : List ℕ) → front_matches (part ++ post) part ≡ true
front_matches_append part post = ground (
  arith,
  length-append part post,
  bytes_eq_refl part,
  ap (λ r. bytes_eq r part) (take-append part post),
)

pub any_window-Contains :
    (bytes expected : List ℕ) → any_window bytes expected ≡ true → Contains bytes expected
unfolding any_window
any_window-Contains [] expected h = cc
any_window-Contains (b ∷ bytes) expected h =
    elim (Bool-cases (front_matches (b ∷ bytes) expected)) [
      | inl front ↦
          let same : take (length expected) (b ∷ bytes) ≡ expected =
            bytes_eq_sound _ _ (ground arith) in
          (
            [],
            drop (length expected) (b ∷ bytes),
            sym (take-append-drop (length expected) (b ∷ bytes))
                ∙ ap (λ r. r ++ drop (length expected) (b ∷ bytes)) same,
          )
      | inr later ↦
          let (pre, post, e) = any_window-Contains bytes expected (ground arith) in
          (b ∷ pre, post, ap (λ r. b ∷ r) e)
    ]

pub Contains-any_window :
    (pre expected post : List ℕ)
    → 0 < length expected
    → any_window (pre ++ expected ++ post) expected ≡ true
unfolding any_window
Contains-any_window [] [] post h = absurd (omega arith)
Contains-any_window [] (x ∷ expected) post h =
    ground (arith, front_matches_append (x ∷ expected) post)
Contains-any_window (b ∷ pre) expected post h =
    ground (arith, Contains-any_window pre expected post h)
