-- ===== src/Runtime.antt =====
-- What the program runs on and does not implement: the accounts of the chain, the transaction
-- that calls it, and the programs and functions of Solana and Anchor that it calls. These are the
-- parameter `Runtime` of the model, and `IsRuntime` states what is documented of them.
use hwal.Prelude.{ℕ, ◌+◌, ◌≤◌, ◌≡◌, ◌≢◌, Bool, Option, none, some, List, [], ◌∷◌, ◌++◌}
use hwal.Prelude.Int.{ℤ}
use hwal.Prelude.Map.{at_key}
use hwal.Constants.{Pubkey}
use hwal.Errors.{Result, ok}
use hwal.Events.{Event}
use hwal.State.{Account}

abbrev pub Lamports : Type 0
Lamports = Pubkey → ℕ

-- The chain as the program sees it: the balance of every account, what the accounts that the
-- program owns hold (`none` for any other account), and the log of its events.
pub record Bank : Type 0 where
  pub lamports : Lamports
  pub accounts : Pubkey → Option Account
  pub log : List Event

-- `AccountMeta` and `Instruction` of the Solana SDK; `input` is the instruction's `data`.
pub record AccountMeta : Type 0 where
  pub pubkey : Pubkey
  pub is_signer : Bool
  pub is_writable : Bool

pub record Instruction : Type 0 where
  pub program_id : Pubkey
  pub metas : List AccountMeta
  pub input : List ℕ

-- The transaction: `Clock::get()`, the signers, `load_current_index_checked`, and
-- `load_instruction_at_checked`.
pub record Env : Type 0 where
  pub unix_timestamp : ℤ
  pub is_signer : Pubkey → Bool
  pub load_current_index : Option ℕ
  pub load_instruction_at : ℕ → Option Instruction

-- Derived addresses of this program, `init` of Anchor (payer, new account, size), `transfer` of
-- the system program (from, to, amount), and `invoke_signed` (instruction, accounts, seeds of the
-- signer). A call that succeeds returns the balances that it leaves.
pub record Runtime : Type 0 where
  pub create_program_address : List (List ℕ) → Option Pubkey
  pub find_program_address : List (List ℕ) → Pubkey × ℕ
  pub init_account : Pubkey → Pubkey → ℕ → Bank → Result Lamports
  pub system_transfer : Pubkey → Pubkey → ℕ → Bank → Result Lamports
  pub invoke_signed : Instruction → List Pubkey → List (List ℕ) → Bank → Result Lamports
  pub system_program_id : Pubkey
  pub ed25519_program_id : Pubkey
  pub instructions_sysvar_id : Pubkey

-- Between the two balances, `n` lamports went from one account to another and no other balance
-- changed.
abbrev pub Moves : Pubkey → Pubkey → ℕ → Lamports → Lamports → Type 0
Moves from to n l l' = (k : Pubkey) → l' k + at_key from n k ≡ l k + at_key to n k

-- An account is created only where none is, and is paid for by an account that no program owns; a
-- transfer of the system program also takes from such an account only. A called program takes
-- nothing from an account of the caller's.
pub record IsRuntime (rt : Runtime) : Type 0 where
  pub find-create :
      (seeds : List (List ℕ))
      → rt.create_program_address (seeds ++ ((rt.find_program_address seeds).1 ∷ []) ∷ [])
        ≡ some (rt.find_program_address seeds).0
  pub init_account-fresh :
      (payer new space : ℕ) (bank : Bank) (l : Lamports)
      → rt.init_account payer new space bank ≡ ok l
      → bank.accounts new ≡ none
  pub init_account-payer :
      (payer new space : ℕ) (bank : Bank) (l : Lamports)
      → rt.init_account payer new space bank ≡ ok l
      → bank.accounts payer ≡ none
  pub init_account-Moves :
      (payer new space : ℕ) (bank : Bank) (l : Lamports)
      → rt.init_account payer new space bank ≡ ok l
      → (rent : ℕ) × Moves payer new rent bank.lamports l
  pub system_transfer-payer :
      (from to amount : ℕ) (bank : Bank) (l : Lamports)
      → rt.system_transfer from to amount bank ≡ ok l
      → bank.accounts from ≡ none
  pub system_transfer-Moves :
      (from to amount : ℕ) (bank : Bank) (l : Lamports)
      → rt.system_transfer from to amount bank ≡ ok l
      → Moves from to amount bank.lamports l
  pub invoke_signed-keeps :
      (ix : Instruction) (infos : List Pubkey) (seeds : List (List ℕ)) (bank : Bank) (l : Lamports)
      → rt.invoke_signed ix infos seeds bank ≡ ok l
      → (k : Pubkey) → bank.accounts k ≢ none
      → bank.lamports k ≤ l k
