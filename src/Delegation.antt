-- ===== src/Delegation.antt =====
-- programs/hwal/src/instructions/delegate_position.rs and undelegate_position.rs: the flag of a
-- position that is handed to the MagicBlock rollup, around a call of the delegation program.
pub mod Wire
pub mod Handover
pub mod Flag
use hwal.Prelude.{ℕ, Bool, true, false, List, [], ◌∷◌, ◌++◌, ◌==◌}
use hwal.Constants.{Pubkey, position_seed, status_open, magicblock_delegation_program_id}
use hwal.Errors.{
  Result, ok, program, constraint_address, not_position_owner, position_not_open,
  position_already_delegated, position_not_delegated, require, ◌>>=◌, ◌>>◌,
}
use hwal.Events.{position_delegated, position_undelegated}
use hwal.State.{Position, position}
use hwal.Runtime.{AccountMeta, Bank, Env, Instruction, Runtime}
use hwal.Accounts.{
  signer, load_position, system_program, address, seeds_match, position_seeds, key_bytes,
  to_le_bytes, store, emit,
}

-- `AccountMeta::new` and `AccountMeta::new_readonly`
abbrev writable : Pubkey → Bool → AccountMeta
writable key is_signer = record { pubkey = key; is_signer = is_signer; is_writable = true }

abbrev read_only : Pubkey → Bool → AccountMeta
read_only key is_signer = record { pubkey = key; is_signer = is_signer; is_writable = false }

unfoldable pub build_delegate_instruction_data : Pubkey → List ℕ → List ℕ
build_delegate_instruction_data owner nonce_bytes = 0 ∷ key_bytes owner ++ nonce_bytes

-- The seeds with which the position signs.
unfoldable pub signer_seeds : Position → List (List ℕ)
signer_seeds p = position_seed ∷ key_bytes p.owner ∷ to_le_bytes 8 p.nonce ∷ (p.bump ∷ []) ∷ []

pub record DelegatePosition : Type 0 where
  pub owner : Pubkey
  pub position : Pubkey
  pub delegation_program : Pubkey
  pub delegation_buffer : Pubkey
  pub delegation_record : Pubkey
  pub delegation_metadata : Pubkey
  pub system_program : Pubkey

unfoldable pub delegate_ix : DelegatePosition → Position → Instruction
unfolding build_delegate_instruction_data
delegate_ix ctx p = record {
  program_id = ctx.delegation_program;
  metas =
      writable ctx.owner true
      ∷ writable ctx.position false
      ∷ writable ctx.delegation_buffer false
      ∷ writable ctx.delegation_record false
      ∷ writable ctx.delegation_metadata false
      ∷ read_only ctx.system_program false
      ∷ [];
  input = build_delegate_instruction_data p.owner (to_le_bytes 8 p.nonce);
}

abbrev pub can_delegate : Position → Result (Unit {0})
can_delegate p = do
  require (p.status == status_open) position_not_open
  require (p.er_delegated == 0) position_already_delegated

unfoldable pub delegate_position : Runtime → Env → DelegatePosition → Bank → Result Bank
delegate_position rt env ctx bank = do
  signer env ctx.owner
  p ← load_position bank ctx.position
  system_program rt ctx.system_program
  address ctx.owner p.owner (program not_position_owner)
  seeds_match rt ctx.position (position_seeds p.owner p.nonce) p.bump
  address ctx.delegation_program magicblock_delegation_program_id constraint_address
  can_delegate p
  l ←
      rt.invoke_signed (delegate_ix ctx p)
        (ctx.owner ∷ ctx.position ∷ ctx.delegation_buffer ∷ ctx.delegation_record
          ∷ ctx.delegation_metadata ∷ ctx.system_program ∷ ctx.delegation_program ∷ [])
        (signer_seeds p) bank
  ok (
      emit (position_delegated ctx.position p.owner env.unix_timestamp) (
        store ctx.position (position (record p { er_delegated = 1 }))
          (record bank { lamports = l })))

pub record UndelegatePosition : Type 0 where
  pub owner : Pubkey
  pub position : Pubkey
  pub delegation_program : Pubkey
  pub delegation_record : Pubkey
  pub delegation_metadata : Pubkey
  pub system_program : Pubkey

unfoldable pub undelegate_ix : UndelegatePosition → Instruction
undelegate_ix ctx = record {
  program_id = ctx.delegation_program;
  metas =
      writable ctx.owner true
      ∷ writable ctx.position false
      ∷ writable ctx.delegation_record false
      ∷ writable ctx.delegation_metadata false
      ∷ read_only ctx.system_program false
      ∷ [];
  input = 1 ∷ [];
}

abbrev pub can_undelegate : Position → Result (Unit {0})
can_undelegate p = do
  require (p.status == status_open) position_not_open
  require (p.er_delegated == 1) position_not_delegated

unfoldable pub undelegate_position : Runtime → Env → UndelegatePosition → Bank → Result Bank
undelegate_position rt env ctx bank = do
  signer env ctx.owner
  p ← load_position bank ctx.position
  system_program rt ctx.system_program
  address ctx.owner p.owner (program not_position_owner)
  seeds_match rt ctx.position (position_seeds p.owner p.nonce) p.bump
  address ctx.delegation_program magicblock_delegation_program_id constraint_address
  can_undelegate p
  l ←
      rt.invoke_signed (undelegate_ix ctx)
        (ctx.owner ∷ ctx.position ∷ ctx.delegation_record ∷ ctx.delegation_metadata
          ∷ ctx.system_program ∷ ctx.delegation_program ∷ [])
        (signer_seeds p) bank
  ok (
      emit (position_undelegated ctx.position p.owner env.unix_timestamp) (
        store ctx.position (position (record p { er_delegated = 0 }))
          (record bank { lamports = l })))
