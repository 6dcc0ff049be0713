-- ===== src/Lazer.antt =====
-- programs/hwal/src/instructions/update_price_feed_from_lazer.rs: a price that comes in a payload
-- which the instruction before this one, of the ed25519 program, must contain.
pub mod Bytes
pub mod Window
pub mod Layout
pub mod Acceptance
use hwal.Prelude.{
  ℕ, ◌+◌, ◌-◌, ◌*◌, ◌^◌, Bool, true, false, ◌&&◌, ◌||◌, List, [], ◌∷◌, length, take, drop,
  get_elem?, leb, ltb, ◌==◌, if◌then◌else◌,
}
use hwal.Prelude.Int.{ℤ, pos, negsuc, leb_ℤ}
use hwal.Prelude.Word.{saturating_sub}
use hwal.Constants.{Pubkey, feed_source_lazer, max_lazer_payload_age_secs}
use hwal.Errors.{
  Result, ok, program, constraint_address, feed_not_lazer, lazer_payload_invalid, price_feed_zero,
  lazer_feed_id_mismatch, lazer_payload_stale, lazer_signature_missing, ok_or, require, ◌>>=◌, ◌>>◌,
}
use hwal.Events.{lazer_price_verified, price_feed_updated}
use hwal.State.{PriceFeed, price_feed}
use hwal.Runtime.{Bank, Env, Runtime}
use hwal.Accounts.{signer, load_price_feed, address, store, emit}
use hwal.Feed.{write_price}

-- `u64::from_le_bytes`
unfoldable pub from_le_bytes : List ℕ → ℕ
from_le_bytes [] = 0
from_le_bytes (b ∷ bs) = b + 256 * from_le_bytes bs

-- The `i64` of a 64-bit pattern, in two's complement.
unfoldable pub to_i64 : ℕ → ℤ
to_i64 w = if ltb w (2 ^ 63) then pos w else negsuc (2 ^ 64 - w - 1)

-- `payload[from..from + len]`
unfoldable pub slice : ℕ → ℕ → List ℕ → List ℕ
slice from len bytes = take len (drop from bytes)

pub record Payload : Type 0 where
  pub feed_id : ℕ
  pub payload_timestamp : ℤ
  pub new_price : ℕ
  pub channel : ℕ

-- The four fields; the slices have their lengths since the payload has 25 bytes at least.
unfoldable pub parse_payload : List ℕ → Result Payload
parse_payload payload = do
  require (leb 25 (length payload)) lazer_payload_invalid
  channel ← ok_or (get_elem? payload 24) (program lazer_payload_invalid)
  ok (record {
    feed_id = from_le_bytes (slice 0 8 payload);
    payload_timestamp = to_i64 (from_le_bytes (slice 8 8 payload));
    new_price = from_le_bytes (slice 16 8 payload);
    channel = channel;
  })

-- `==` of two byte slices.
unfoldable pub bytes_eq : List ℕ → List ℕ → Bool
bytes_eq [] [] = true
bytes_eq (a ∷ as_) (b ∷ bs) = a == b && bytes_eq as_ bs
bytes_eq _ _ = false

-- `bytes.windows(n).any(|w| w == expected)` for `n` the length of `expected`: each suffix of at
-- least that length gives one window, its first `n` bytes.
unfoldable pub any_window : List ℕ → List ℕ → Bool
unfolding bytes_eq
any_window [] expected = false
any_window (b ∷ bytes) expected =
    let rest = any_window bytes expected in
    leb (length expected) (length (b ∷ bytes))
      && bytes_eq (take (length expected) (b ∷ bytes)) expected
    || rest

unfoldable pub verify_lazer_signature_present : Runtime → Env → List ℕ → Result (Unit {0})
verify_lazer_signature_present rt env expected_payload = do
  current_index ← ok_or env.load_current_index (program lazer_signature_missing)
  require (ltb 0 current_index) lazer_signature_missing
  prior_ix ← ok_or (env.load_instruction_at (current_index - 1)) (program lazer_signature_missing)
  require (prior_ix.program_id == rt.ed25519_program_id) lazer_signature_missing
  require (any_window prior_ix.input expected_payload) lazer_signature_missing

-- The tests on the parsed payload, up to the age.
unfoldable pub check_payload : ℤ → PriceFeed → Payload → Result (Unit {0})
check_payload now f p = do
  require (ltb 0 p.new_price) price_feed_zero
  require (f.lazer_feed_id == p.feed_id) lazer_feed_id_mismatch
  require (f.lazer_channel == p.channel) lazer_feed_id_mismatch
  let age = saturating_sub now p.payload_timestamp
  require (leb_ℤ (pos 0) age && leb_ℤ age max_lazer_payload_age_secs) lazer_payload_stale

pub record Verified : Type 0 where
  pub feed : PriceFeed
  pub payload : Payload

unfoldable pub update_from_lazer_handler : Runtime → Env → List ℕ → PriceFeed → Result Verified
update_from_lazer_handler rt env payload f = do
  require (f.source == feed_source_lazer) feed_not_lazer
  p ← parse_payload payload
  check_payload env.unix_timestamp f p
  verify_lazer_signature_present rt env payload
  ok (record { feed = write_price env.unix_timestamp p.new_price f; payload = p })

pub record UpdatePriceFeedFromLazer : Type 0 where
  pub poster : Pubkey
  pub feed : Pubkey
  pub instructions : Pubkey

unfoldable pub update_price_feed_from_lazer :
    Runtime → Env → UpdatePriceFeedFromLazer → List ℕ → Bank → Result Bank
update_price_feed_from_lazer rt env ctx payload bank = do
  signer env ctx.poster
  f ← load_price_feed bank ctx.feed
  address ctx.instructions rt.instructions_sysvar_id constraint_address
  v ← update_from_lazer_handler rt env payload f
  ok (
      emit
        (price_feed_updated ctx.feed f.price v.payload.new_price v.feed.last_updated
          v.feed.update_count)
        (emit
          (lazer_price_verified ctx.feed v.payload.feed_id v.payload.channel v.payload.new_price
            v.payload.payload_timestamp env.unix_timestamp)
          (store ctx.feed (price_feed v.feed) bank)))
