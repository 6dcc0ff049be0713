-- ===== src/Accounts.antt =====
-- The checks of Anchor's `#[derive(Accounts)]` that the instructions state: which accounts sign,
-- what type an account holds, and the `address` and `seeds` constraints; and the writing back of
-- the accounts that are `mut`.
pub mod Inversion
use hwal.Prelude.{
  ℕ, zero, suc, ◌/◌, ◌%◌, Bool, false, Option, none, some, List, [], ◌∷◌, ◌++◌, ◌==◌,
}
use hwal.Prelude.Map.{update}
use hwal.Constants.{Pubkey, config_seed, feed_seed, position_seed}
use hwal.Errors.{
  Error, Result, ok, err, account_not_signer, account_not_initialized, constraint_seeds,
  invalid_program_id, guard, ◌>>=◌, ◌>>◌,
}
use hwal.Events.{Event}
use hwal.State.{Account, config, price_feed, position, Config, PriceFeed, Position}
use hwal.Runtime.{Bank, Env, Lamports, Runtime}

-- The first `n` bytes of a number in little-endian order: `to_le_bytes`, and the bytes of a key.
unfoldable pub to_le_bytes : ℕ → ℕ → List ℕ
to_le_bytes zero x = []
to_le_bytes (suc n) x = x % 256 ∷ to_le_bytes n (x / 256)

-- `as_ref` of a `Pubkey`
unfoldable pub key_bytes : Pubkey → List ℕ
unfolding to_le_bytes
key_bytes = to_le_bytes 32

-- `Signer<'info>`
abbrev pub signer : Env → Pubkey → Result (Unit {0})
signer env key = guard (env.is_signer key) account_not_signer

abbrev pub as_config : Option Account → Result Config
as_config (some (config c)) = ok c
as_config _ = err account_not_initialized

abbrev pub as_price_feed : Option Account → Result PriceFeed
as_price_feed (some (price_feed f)) = ok f
as_price_feed _ = err account_not_initialized

abbrev pub as_position : Option Account → Result Position
as_position (some (position p)) = ok p
as_position _ = err account_not_initialized

-- `Account<'info, T>`
abbrev pub load_config : Bank → Pubkey → Result Config
load_config bank key = as_config (bank.accounts key)

abbrev pub load_price_feed : Bank → Pubkey → Result PriceFeed
load_price_feed bank key = as_price_feed (bank.accounts key)

abbrev pub load_position : Bank → Pubkey → Result Position
load_position bank key = as_position (bank.accounts key)

-- `address = expected @ error`
abbrev pub address : Pubkey → Pubkey → Error → Result (Unit {0})
address key expected error = guard (key == expected) error

-- `Program<'info, System>`
abbrev pub system_program : Runtime → Pubkey → Result (Unit {0})
system_program rt key = guard (key == rt.system_program_id) invalid_program_id

abbrev pub is_key : Pubkey → Option Pubkey → Bool
is_key key none = false
is_key key (some derived) = key == derived

-- `seeds = [...], bump = b`
abbrev pub seeds_match : Runtime → Pubkey → List (List ℕ) → ℕ → Result (Unit {0})
seeds_match rt key seeds bump =
    guard (is_key key (rt.create_program_address (seeds ++ (bump ∷ []) ∷ []))) constraint_seeds

abbrev pub config_seeds : List (List ℕ)
config_seeds = config_seed ∷ []

abbrev pub feed_seeds : List ℕ → List (List ℕ)
feed_seeds symbol = feed_seed ∷ symbol ∷ []

abbrev pub position_seeds : Pubkey → ℕ → List (List ℕ)
position_seeds owner nonce = position_seed ∷ key_bytes owner ∷ to_le_bytes 8 nonce ∷ []

-- `init, payer, space, seeds, bump`: the account must be the derived one; its bump is returned
-- with the balances.
abbrev pub init : Runtime → Pubkey → Pubkey → ℕ → List (List ℕ) → Bank → Result (ℕ × Lamports)
init rt payer key space seeds bank = do
  let found = rt.find_program_address seeds
  address key found.0 constraint_seeds
  l ← rt.init_account payer key space bank
  ok (found.1, l)

abbrev pub store : Pubkey → Account → Bank → Bank
store key account bank = record bank { accounts = update bank.accounts key (some account) }

abbrev pub emit : Event → Bank → Bank
emit event bank = record bank { log = bank.log ++ event ∷ [] }
