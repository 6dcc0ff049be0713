-- ===== src/Chain/Steps/Writes.antt =====
-- An instruction that writes one or two accounts makes a step at each of them, and keeps the
-- others.
use hwal.Prelude.{◌≤◌, ◌≡◌, ◌≢◌, ◌==◌, none, some, inl, inr, Bool-cases, ==_iff, arith}
use hwal.Prelude.Map.{update}
use hwal.Constants.{Pubkey}
use hwal.State.{Account}
use hwal.Runtime.{Bank, Env, Runtime}
use hwal.Chain.{AccountStep, BankStep}

module _ (rt : Runtime) (env : Env) (bank bank' : Bank) where
  -- The step at a key where the instruction leaves the given contents.
  abbrev pub StepAt : Pubkey → Account → Type 0
  StepAt key account =
      (k : Pubkey)
      → k ≡ key
      → bank'.accounts k ≡ some account
      → AccountStep rt env bank k (bank.accounts k) (bank.lamports k) (bank'.accounts k)
          (bank'.lamports k)

  pub BankStep-write :
      (key : Pubkey) (account : Account)
      → ((k : Pubkey) → bank'.accounts k ≡ update bank.accounts key (some account) k)
      → ((k : Pubkey) → k ≢ key → bank.accounts k ≢ none → bank.lamports k ≤ bank'.lamports k)
      → StepAt key account
      → BankStep rt env bank bank'
  BankStep-write key account wrote others at k = elim (Bool-cases (k == key)) [
    | inl here ↦ at k ((==_iff k key).0 here) (ground (arith, wrote k))
    | inr away ↦ AccountStep.kept (ground (arith, wrote k)) (others k (ground arith))
  ]

  pub BankStep-write_two :
      (key key' : Pubkey) (account account' : Account)
      → ((k : Pubkey)
          → bank'.accounts k
            ≡ update (update bank.accounts key (some account)) key' (some account') k)
      → key ≢ key'
      → ((k : Pubkey)
          → k ≢ key
          → k ≢ key'
          → bank.accounts k ≢ none
          → bank.lamports k ≤ bank'.lamports k)
      → StepAt key account
      → StepAt key' account'
      → BankStep rt env bank bank'
  BankStep-write_two key key' account account' wrote apart others at at' k =
      elim (Bool-cases (k == key')) [
        | inl here ↦ at' k ((==_iff k key').0 here) (ground (arith, wrote k))
        | inr away ↦ elim (Bool-cases (k == key)) [
          | inl here ↦ at k ((==_iff k key).0 here) (ground (arith, wrote k))
          | inr elsewhere ↦
              AccountStep.kept (ground (arith, wrote k)) (others k (ground arith) (ground arith))
        ]
      ]
