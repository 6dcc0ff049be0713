-- ===== src/Lazer/Acceptance.antt =====
-- When a Lazer update is accepted.
use hwal.Prelude.{
  subst, ◌∙◌, ℕ, suc, ◌-◌, ◌<◌, ◌≡◌, ◌↔◌, refl, sym, ap, true, some, List, length, ltb, ◌==◌,
  ==_iff, arith,
}
use hwal.Prelude.Int.{ℤ, pos, ◌≤ℤ◌, ◌+ℤ◌}
use hwal.Prelude.Word.{saturating_sub-le_iff, saturating_sub-nonneg_iff}
use hwal.Constants.{feed_source_lazer}
use hwal.Errors.{
  program, lazer_signature_missing, ok_or, ok_or-eq-ok, guard-eq-ok_tt, ok, ok-injective, >>=-eq-ok,
  guard-eq-ok,
}
use hwal.State.{PriceFeed}
use hwal.Runtime.{Env, Instruction, Runtime}
use hwal.Feed.{write_price}
use hwal.Lazer.{
  Payload, Verified, parse_payload, check_payload, any_window, verify_lazer_signature_present,
  update_from_lazer_handler,
}
use hwal.Lazer.Window.{Contains, any_window-Contains, Contains-any_window}

-- The payload fits the feed, and is at most five seconds old and not from the future.
pub record Fits (now : ℤ) (f : PriceFeed) (p : Payload) : Type 0 where
  pub price_pos : 0 < p.new_price
  pub same_id : f.lazer_feed_id ≡ p.feed_id
  pub same_channel : f.lazer_channel ≡ p.channel
  pub not_future : p.payload_timestamp ≤ℤ now
  pub recent : now ≤ℤ p.payload_timestamp +ℤ pos 5

pub check_payload-Fits :
    (now : ℤ) (f : PriceFeed) (p : Payload) → (check_payload now f p ≡ ok tt) ↔ Fits now f p
unfolding check_payload
check_payload-Fits now f p = (
  (λ h. ground (
    arith,
    saturating_sub-le_iff now p.payload_timestamp 5 (omega arith),
    saturating_sub-nonneg_iff now p.payload_timestamp,
  )),
  (λ v. ground (
    arith,
    saturating_sub-le_iff now p.payload_timestamp 5 (omega arith),
    saturating_sub-nonneg_iff now p.payload_timestamp,
  )),
)

-- The instruction before the current one is the ed25519 program's, and its data contains the
-- payload. Nothing is asked of the keys, of the signatures or of where the payload stands.
pub record IsAttested (rt : Runtime) (env : Env) (payload : List ℕ) : Type 0 where
  pub index : ℕ
  pub prior : Instruction
  pub current : env.load_current_index ≡ some (suc index)
  pub loaded : env.load_instruction_at index ≡ some prior
  pub is_ed25519 : prior.program_id ≡ rt.ed25519_program_id
  pub contains : Contains prior.input payload

attested_index : (n : ℕ) → 0 < n → suc (n - 1) ≡ n
attested_index n h = omega arith

pub verify-IsAttested :
    (rt : Runtime) (env : Env) (payload : List ℕ)
    → verify_lazer_signature_present rt env payload ≡ ok tt
    → IsAttested rt env payload
unfolding verify_lazer_signature_present
verify-IsAttested rt env payload h =
    let (n, at, h1) =
      >>=-eq-ok (ok_or env.load_current_index (program lazer_signature_missing)) _ h in
    let (later, h2) = guard-eq-ok (ltb 0 n) _ _ h1 in
    let (ix, loaded, h3) =
      >>=-eq-ok (ok_or (env.load_instruction_at (n - 1)) (program lazer_signature_missing)) _ h2 in
    let (is_ed25519, h4) = guard-eq-ok (ix.program_id == rt.ed25519_program_id) _ _ h3 in
    record {
      index = n - 1;
      prior = ix;
      current = ok_or-eq-ok _ _ at ∙ ap some (sym (attested_index n (ground arith)));
      loaded = ok_or-eq-ok _ _ loaded;
      is_ed25519 = (==_iff _ _).0 is_ed25519;
      contains = any_window-Contains ix.input payload (guard-eq-ok_tt _ _ h4);
    }

pub IsAttested-verify :
    (rt : Runtime) (env : Env) (payload : List ℕ)
    → 0 < length payload
    → IsAttested rt env payload
    → verify_lazer_signature_present rt env payload ≡ ok tt
unfolding verify_lazer_signature_present
IsAttested-verify rt env payload some_bytes v =
    let (pre, post, e) = v.contains in
    let found : any_window v.prior.input payload ≡ true =
      ap (λ r. any_window r payload) e ∙ Contains-any_window pre payload post some_bytes in
    let back : suc v.index - 1 ≡ v.index = omega arith in
    let same = (==_iff v.prior.program_id rt.ed25519_program_id).1 v.is_ed25519 in
    rw (v.current, back, v.loaded, same, found) (ground arith)

-- The conditions on which a payload is accepted.
pub record Accepts (rt : Runtime) (env : Env) (payload : List ℕ) (f : PriceFeed) (v : Verified)
    : Type 0 where
  pub is_lazer : f.source ≡ feed_source_lazer
  pub parsed : parse_payload payload ≡ ok v.payload
  pub fits : Fits env.unix_timestamp f v.payload
  pub attested : IsAttested rt env payload
  pub written : v.feed ≡ write_price env.unix_timestamp v.payload.new_price f

handler-Accepts :
    (rt : Runtime) (env : Env) (payload : List ℕ) (f : PriceFeed) (v : Verified)
    → update_from_lazer_handler rt env payload f ≡ ok v
    → Accepts rt env payload f v
unfolding update_from_lazer_handler
handler-Accepts rt env payload f v h =
    let (is_lazer, h1) = guard-eq-ok (f.source == feed_source_lazer) _ _ h in
    let (p, parsed, h2) = >>=-eq-ok (parse_payload payload) _ h1 in
    let (unit, checked, h3) = >>=-eq-ok (check_payload env.unix_timestamp f p) _ h2 in
    let (unit', verified, h4) = >>=-eq-ok (verify_lazer_signature_present rt env payload) _ h3 in
    let e = ok-injective h4 in
    record {
      is_lazer = (==_iff _ _).0 is_lazer;
      parsed = parsed ∙ ap (λ (w : Verified). ok w.payload) e;
      fits =
          subst (λ (w : Verified). Fits env.unix_timestamp f w.payload) e
            ((check_payload-Fits env.unix_timestamp f p).0 checked);
      attested = verify-IsAttested rt env payload verified;
      written =
          subst (λ (w : Verified). w.feed ≡ write_price env.unix_timestamp w.payload.new_price f) e
            refl;
    }

parsed_nonempty :
    (payload : List ℕ) (p : Payload) → parse_payload payload ≡ ok p → 0 < length payload
unfolding parse_payload
parsed_nonempty payload p h = ground arith

Accepts-handler :
    (rt : Runtime) (env : Env) (payload : List ℕ) (f : PriceFeed) (v : Verified)
    → Accepts rt env payload f v
    → update_from_lazer_handler rt env payload f ≡ ok v
unfolding update_from_lazer_handler
Accepts-handler rt env payload f v a = rw (
  (==_iff f.source feed_source_lazer).1 a.is_lazer,
  a.parsed,
  (check_payload-Fits env.unix_timestamp f v.payload).1 a.fits,
  IsAttested-verify rt env payload (parsed_nonempty payload v.payload a.parsed) a.attested,
  ← a.written,
)

-- A Lazer update succeeds with a payload exactly when the feed is a Lazer feed, the payload parses,
-- its price is above zero, its id and channel are the feed's, it is from the last five seconds, and
-- the instruction before this one is the ed25519 program's with the payload anywhere in its data.
-- No key is asked for. The feed then has the payload's price, at the time of the clock.
pub update_from_lazer_iff :
    (rt : Runtime) (env : Env) (payload : List ℕ) (f : PriceFeed) (v : Verified)
    → (update_from_lazer_handler rt env payload f ≡ ok v) ↔ Accepts rt env payload f v
update_from_lazer_iff rt env payload f v =
    (handler-Accepts rt env payload f v, Accepts-handler rt env payload f v)
