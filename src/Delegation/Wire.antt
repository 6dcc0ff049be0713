-- ===== src/Delegation/Wire.antt =====
-- The data of the delegation instruction, and what it is read back as.
use hwal.Prelude.{ℕ, ◌^◌, ◌<◌, ◌≡◌, refl, ap, ◌∙◌, List, length}
use hwal.Constants.{Pubkey}
use hwal.Accounts.{to_le_bytes, key_bytes}
use hwal.Lazer.{slice, from_le_bytes}
use hwal.Lazer.Bytes.{from_le_bytes-to_le_bytes}
use hwal.Delegation.{build_delegate_instruction_data}

abbrev wire : Pubkey → ℕ → List ℕ
wire owner nonce = build_delegate_instruction_data owner (to_le_bytes 8 nonce)

wire_owner : (owner nonce : ℕ) → slice 1 32 (wire owner nonce) ≡ to_le_bytes 32 owner
unfolding slice build_delegate_instruction_data key_bytes to_le_bytes
wire_owner owner nonce = refl

wire_nonce : (owner nonce : ℕ) → slice 33 8 (wire owner nonce) ≡ to_le_bytes 8 nonce
unfolding slice build_delegate_instruction_data key_bytes to_le_bytes
wire_nonce owner nonce = refl

length-build_delegate_instruction_data : (owner nonce : ℕ) → length (wire owner nonce) ≡ 41
unfolding build_delegate_instruction_data key_bytes to_le_bytes
length-build_delegate_instruction_data owner nonce = refl

-- The data has the 41 bytes that are reserved for it, and for a 32-byte key and a `u64` nonce the
-- bytes behind the first are read back as the owner (32 bytes) and the nonce (8 bytes).
pub wire_roundtrip :
    (owner : Pubkey) (nonce : ℕ)
    → owner < 2 ^ 256
    → nonce < 2 ^ 64
    → (length (build_delegate_instruction_data owner (to_le_bytes 8 nonce)) ≡ 41)
      × (from_le_bytes (slice 1 32 (build_delegate_instruction_data owner (to_le_bytes 8 nonce)))
          ≡ owner)
      × (from_le_bytes (slice 33 8 (build_delegate_instruction_data owner (to_le_bytes 8 nonce)))
          ≡ nonce)
wire_roundtrip owner nonce ho hn = (
  length-build_delegate_instruction_data owner nonce,
  ap from_le_bytes (wire_owner owner nonce) ∙ from_le_bytes-to_le_bytes 32 owner ho,
  ap from_le_bytes (wire_nonce owner nonce) ∙ from_le_bytes-to_le_bytes 8 nonce hn,
)
