-- ===== src/Accounts/Inversion.antt =====
-- What a run that succeeds learns from each account check that it passed.
use hwal.Prelude.{ℕ, ◌≡◌, true, Option, some, List, [], ◌∷◌, ◌++◌, arith, ◌==◌, ==_iff}
use hwal.Constants.{Pubkey}
use hwal.Errors.{Error, Result, ok, >>=-eq-ok, guard-eq-ok, ◌>>=◌, ◌>>◌}
use hwal.State.{Account, config, price_feed, position, Config, PriceFeed, Position}
use hwal.Runtime.{Bank, Lamports, Runtime}
use hwal.Accounts.{
  load_config, load_price_feed, load_position, as_config, as_price_feed, as_position, is_key,
  address, seeds_match, init,
}

as_config-eq-ok : (o : Option Account) {c : Config} → as_config o ≡ ok c → o ≡ some (config c)
as_config-eq-ok o h = ground arith

as_price_feed-eq-ok :
    (o : Option Account) {f : PriceFeed} → as_price_feed o ≡ ok f → o ≡ some (price_feed f)
as_price_feed-eq-ok o h = ground arith

as_position-eq-ok :
    (o : Option Account) {p : Position} → as_position o ≡ ok p → o ≡ some (position p)
as_position-eq-ok o h = ground arith

is_key-eq_true : (key : Pubkey) (o : Option Pubkey) → is_key key o ≡ true → o ≡ some key
is_key-eq_true key o h = ground arith

module _ {ℓ} {B : Type ℓ} {b : B} where
  pub load_config-eq-ok :
      (bank : Bank) (key : Pubkey) (k : Config → Result B)
      → (load_config bank key >>= k) ≡ ok b
      → (c : Config) × (bank.accounts key ≡ some (config c)) × (k c ≡ ok b)
  load_config-eq-ok bank key k h =
      let (c, hc, rest) = >>=-eq-ok (load_config bank key) k h in (c, as_config-eq-ok _ hc, rest)

  pub load_price_feed-eq-ok :
      (bank : Bank) (key : Pubkey) (k : PriceFeed → Result B)
      → (load_price_feed bank key >>= k) ≡ ok b
      → (f : PriceFeed) × (bank.accounts key ≡ some (price_feed f)) × (k f ≡ ok b)
  load_price_feed-eq-ok bank key k h =
      let (f, hf, rest) = >>=-eq-ok (load_price_feed bank key) k h in
      (f, as_price_feed-eq-ok _ hf, rest)

  pub load_position-eq-ok :
      (bank : Bank) (key : Pubkey) (k : Position → Result B)
      → (load_position bank key >>= k) ≡ ok b
      → (p : Position) × (bank.accounts key ≡ some (position p)) × (k p ≡ ok b)
  load_position-eq-ok bank key k h =
      let (p, hp, rest) = >>=-eq-ok (load_position bank key) k h in
      (p, as_position-eq-ok _ hp, rest)

  pub address-eq-ok :
      (key expected : Pubkey) (e : Error) (k : Result B)
      → (address key expected e >> k) ≡ ok b
      → (key ≡ expected) × (k ≡ ok b)
  address-eq-ok key expected e k h =
      let (same, rest) = guard-eq-ok (key == expected) e k h in ((==_iff key expected).0 same, rest)

  pub seeds_match-eq-ok :
      (rt : Runtime) (key : Pubkey) (seeds : List (List ℕ)) (bump : ℕ) (k : Result B)
      → (seeds_match rt key seeds bump >> k) ≡ ok b
      → (rt.create_program_address (seeds ++ (bump ∷ []) ∷ []) ≡ some key) × (k ≡ ok b)
  seeds_match-eq-ok rt key seeds bump k h =
      let (derived, rest) = guard-eq-ok _ _ k h in (is_key-eq_true key _ derived, rest)

-- A successful `init` is at the derived address, with its bump.
pub init-eq-ok :
    (rt : Runtime) (payer key : Pubkey) (space : ℕ) (seeds : List (List ℕ)) (bank : Bank)
    {created : ℕ × Lamports}
    → init rt payer key space seeds bank ≡ ok created
    → (key ≡ (rt.find_program_address seeds).0)
      × (created.0 ≡ (rt.find_program_address seeds).1)
      × (rt.init_account payer key space bank ≡ ok created.1)
init-eq-ok rt payer key space seeds bank h =
    let (same, rest) = address-eq-ok key _ _ _ h in
    let (l, made, e) = >>=-eq-ok (rt.init_account payer key space bank) _ rest in
    (same, ground arith, ground arith)
