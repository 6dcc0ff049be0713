-- ===== src/Errors.antt =====
-- programs/hwal/src/errors.rs, and the result of a fallible call: `Result<T>` of Anchor.
use hwal.Prelude.{ℕ, Bool, true, false, ◌≡◌, refl, ap, Option, none, some}

pub data HwalError : Type 0 where
  fee_bps_too_high keeper_reward_too_high not_admin not_position_owner : HwalError
  not_feed_authority invalid_side collateral_too_small position_not_open : HwalError
  price_feed_stale price_feed_zero invalid_stop_price invalid_take_profit_price : HwalError
  invalid_trailing_offset math_overflow trailing_underflow : HwalError
  insufficient_vault_lamports invalid_vault no_trigger_hit feed_mismatch : HwalError
  feed_not_lazer feed_already_lazer lazer_payload_invalid lazer_feed_id_mismatch : HwalError
  lazer_payload_stale lazer_signature_missing position_already_delegated : HwalError
  position_not_delegated : HwalError

-- `program` wraps an error of the program itself. The framework refuses an account that is no signer, is not
-- initialised as the type that is asked for, is not the program that is asked for, or misses an `address` or `seeds` constraint.
-- `external` carries what a called program returned.
pub data Error : Type 0 where
  program : HwalError → Error
  account_not_signer account_not_initialized invalid_program_id : Error
  constraint_address constraint_seeds : Error
  external : ℕ → Error

pub data Result {ℓ} (A : Type ℓ) : Type ℓ where
  ok : A → Result A
  err : Error → Result A

-- `require!`, with the error that a failed test returns.
abbrev pub guard : Bool → Error → Result (Unit {0})
guard true otherwise = ok tt
guard false otherwise = err otherwise

abbrev pub require : Bool → HwalError → Result (Unit {0})
require test otherwise = guard test (program otherwise)

-- `?`: the first error is the result.
infixl 5 ◌>>=◌ ◌>>◌
abbrev pub ◌>>=◌ {ℓ κ} : {A : Type ℓ} {B : Type κ} → Result A → (A → Result B) → Result B
ok x >>= rest = rest x
err reason >>= rest = err reason

abbrev pub ◌>>◌ {ℓ} : {B : Type ℓ} → Result (Unit {0}) → Result B → Result B
first >> second = first >>= λ (unit : Unit {0}). second

-- `ok_or_else`
abbrev pub ok_or {ℓ} : {A : Type ℓ} → Option A → Error → Result A
ok_or none e = err e
ok_or (some a) e = ok a

-- A bind that succeeds comes from a first part that succeeds.
pub >>=-eq-ok {ℓ κ} :
    {A : Type ℓ} {B : Type κ} {last : B} (first : Result A) (rest : A → Result B)
    → (first >>= rest) ≡ ok last
    → (x : A) × (first ≡ ok x) × (rest x ≡ ok last)
>>=-eq-ok (ok x) rest ran = (x, refl, ran)
>>=-eq-ok (err reason) rest ran = cc

-- A test that a successful run went through holds, and the rest of the run succeeds.
pub guard-eq-ok {ℓ} :
    {B : Type ℓ} (t : Bool) (e : Error) (k : Result B) {b : B}
    → (guard t e >> k) ≡ ok b
    → (t ≡ true) × (k ≡ ok b)
guard-eq-ok true e k h = (refl, h)
guard-eq-ok false e k h = cc

abbrev unwrap_or {ℓ} : {A : Type ℓ} → A → Result A → A
unwrap_or d (ok a) = a
unwrap_or d (err e) = d

pub ok-injective {ℓ} : {A : Type ℓ} {a b : A} → ok a ≡ ok b → a ≡ b
ok-injective {a} h = ap (unwrap_or a) h

-- A test at the end of a run that succeeds holds.
pub guard-eq-ok_tt : (t : Bool) (e : Error) → guard t e ≡ ok tt → t ≡ true
guard-eq-ok_tt true e h = refl
guard-eq-ok_tt false e h = cc

pub ok_or-eq-ok {ℓ} :
    {A : Type ℓ} {a : A} (o : Option A) (e : Error) → ok_or o e ≡ ok a → o ≡ some a
ok_or-eq-ok none e h = cc
ok_or-eq-ok (some b) e h = ap some (ok-injective h)
