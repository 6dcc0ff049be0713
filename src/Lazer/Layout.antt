-- ===== src/Lazer/Layout.antt =====
-- The layout of a payload: feed id, timestamp and price in eight little-endian bytes each, then the
-- channel, then anything.
use hwal.Prelude.{
  ℕ, ◌-◌, ◌≤◌, ◌<◌, ◌^◌, ◌≡◌, refl, ◌∙◌, List, ◌∷◌, ◌++◌, length, get_elem?, some, arith,
}
use hwal.Prelude.Int.{ℤ, pos, negsuc}
use hwal.Prelude.Word.{IsI64}
use hwal.Errors.{ok}
use hwal.Accounts.{to_le_bytes}
use hwal.Lazer.{Payload, slice, from_le_bytes, to_i64, parse_payload}
use hwal.Lazer.Bytes.{from_le_bytes-to_le_bytes}

-- The 64-bit pattern of an `i64`, in two's complement.
abbrev pub i64_bits : ℤ → ℕ
i64_bits (pos n) = n
i64_bits (negsuc n) = 2 ^ 64 - 1 - n

pub to_i64-i64_bits : (t : ℤ) → IsI64 t → to_i64 (i64_bits t) ≡ t
unfolding to_i64
to_i64-i64_bits (pos n) h = ground arith
to_i64-i64_bits (negsuc n) h = ground arith

pub i64_bits-lt : (t : ℤ) → IsI64 t → i64_bits t < 2 ^ 64
i64_bits-lt (pos n) h = omega arith
i64_bits-lt (negsuc n) h = omega arith

abbrev pub encode_payload : Payload → List ℕ → List ℕ
encode_payload p rest =
    to_le_bytes 8 p.feed_id
    ++ to_le_bytes 8 (i64_bits p.payload_timestamp)
    ++ to_le_bytes 8 p.new_price
    ++ p.channel ∷ rest

-- The fields are in the ranges of their types.
pub record IsPayload (p : Payload) : Type 0 where
  pub feed_id : p.feed_id < 2 ^ 64
  pub payload_timestamp : IsI64 p.payload_timestamp
  pub new_price : p.new_price < 2 ^ 64

-- The slices of an encoded payload are the encoded fields.
module _ (p : Payload) (rest : List ℕ) where
  slice-feed_id : slice 0 8 (encode_payload p rest) ≡ to_le_bytes 8 p.feed_id
  unfolding slice to_le_bytes
  slice-feed_id = refl

  slice-timestamp : slice 8 8 (encode_payload p rest) ≡ to_le_bytes 8 (i64_bits p.payload_timestamp)
  unfolding slice to_le_bytes
  slice-timestamp = refl

  slice-price : slice 16 8 (encode_payload p rest) ≡ to_le_bytes 8 p.new_price
  unfolding slice to_le_bytes
  slice-price = refl

  channel_byte : get_elem? (encode_payload p rest) 24 ≡ some p.channel
  unfolding to_le_bytes
  channel_byte = refl

  long_enough : 25 ≤ length (encode_payload p rest)
  unfolding to_le_bytes
  long_enough = omega arith

-- The result of the parser on bytes that are long enough.
abbrev pub parsed : List ℕ → ℕ → Payload
parsed payload channel = record {
  feed_id = from_le_bytes (slice 0 8 payload);
  payload_timestamp = to_i64 (from_le_bytes (slice 8 8 payload));
  new_price = from_le_bytes (slice 16 8 payload);
  channel = channel;
}

parse_payload-parsed :
    (payload : List ℕ) (channel : ℕ)
    → 25 ≤ length payload
    → get_elem? payload 24 ≡ some channel
    → parse_payload payload ≡ ok (parsed payload channel)
unfolding parse_payload
parse_payload-parsed payload channel enough at = ground arith

-- What is encoded in the layout of the program's slices, from fields in the ranges of their types,
-- is parsed back, whatever bytes follow.
pub parse-encode :
    (p : Payload) (rest : List ℕ) → IsPayload p → parse_payload (encode_payload p rest) ≡ ok p
parse-encode p rest v =
    parse_payload-parsed (encode_payload p rest) p.channel (long_enough p rest)
      (channel_byte p rest)
    ∙ rw (
      slice-feed_id p rest,
      slice-timestamp p rest,
      slice-price p rest,
      from_le_bytes-to_le_bytes 8 p.feed_id v.feed_id,
      from_le_bytes-to_le_bytes 8 (i64_bits p.payload_timestamp)
          (i64_bits-lt p.payload_timestamp v.payload_timestamp),
      to_i64-i64_bits p.payload_timestamp v.payload_timestamp,
      from_le_bytes-to_le_bytes 8 p.new_price v.new_price,
    )
