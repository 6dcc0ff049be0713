-- ===== src/Tests/Sample.antt =====
-- A runtime that behaves as `IsRuntime` asks: a derived address is the sum of the bytes of its
-- seeds, an account costs a lamport for each byte, and the delegation program moves nothing.
use hwal.Prelude.{
  ℕ, ◌+◌, ◌-◌, ◌≡◌, ap, ◌∙◌, Bool, true, false, ◌&&◌, Option, none, some, List, [], ◌∷◌, ◌++◌, leb,
  if◌then◌else◌, arith,
}
use hwal.Prelude.Map.{update}
use hwal.Constants.{Pubkey}
use hwal.Errors.{Result, ok, err, external}
use hwal.State.{Account}
use hwal.Runtime.{Bank, Lamports, Runtime, IsRuntime}

abbrev total : List ℕ → ℕ
total [] = 0
total (b ∷ bs) = b + total bs

abbrev total_seeds : List (List ℕ) → ℕ
total_seeds [] = 0
total_seeds (s ∷ seeds) = total s + total_seeds seeds

total_seeds-append :
    (xs ys : List (List ℕ)) → total_seeds (xs ++ ys) ≡ total_seeds xs + total_seeds ys
total_seeds-append [] ys = omega arith
total_seeds-append (x ∷ xs) ys = omega (arith, total_seeds-append xs ys)

abbrev is_free : Option Account → Bool
is_free none = true
is_free (some a) = false

abbrev moved : Lamports → Pubkey → Pubkey → ℕ → Lamports
moved l from to n = let taken = update l from (l from - n) in update taken to (taken to + n)

abbrev sample_transfer : Pubkey → Pubkey → ℕ → Bank → Result Lamports
sample_transfer from to n bank =
    if is_free (bank.accounts from) && leb n (bank.lamports from)
    then ok (moved bank.lamports from to n)
    else err (external 1)

abbrev sample_init : Pubkey → Pubkey → ℕ → Bank → Result Lamports
sample_init payer new space bank =
    if is_free (bank.accounts new) then sample_transfer payer new space bank else err (external 0)

abbrev pub sample : Runtime
sample = record {
  create_program_address = λ seeds. some (total_seeds seeds);
  find_program_address = λ seeds. (total_seeds seeds + 255, 255);
  init_account = sample_init;
  system_transfer = sample_transfer;
  invoke_signed = λ ix infos seeds bank. ok bank.lamports;
  system_program_id = 0;
  ed25519_program_id = 77;
  instructions_sysvar_id = 78;
}

pub sample-IsRuntime : IsRuntime sample
sample-IsRuntime = record {
  find-create = λ seeds. ap some (total_seeds-append seeds ((255 ∷ []) ∷ []) ∙ omega arith);
  init_account-fresh = λ payer new space bank l h. ground arith;
  init_account-payer = λ payer new space bank l h. ground arith;
  init_account-Moves = λ payer new space bank l h. (space, λ k. ground arith);
  system_transfer-payer = λ from to amount bank l h. ground arith;
  system_transfer-Moves = λ from to amount bank l h k. ground arith;
  invoke_signed-keeps = λ ix infos seeds bank l h k held. ground arith;
}
