-- ===== src/Delegation/Handover.antt =====
-- What a delegation calls, and what it changes on the chain.
use hwal.Prelude.{
  ℕ, ◌≡◌, ◌==◌, ==_iff, true, false, some, List, [], ◌∷◌, ◌++◌, refl, sym, ap, arith,
}
use hwal.Prelude.Map.{update}
use hwal.Constants.{Pubkey, position_seed, status_open, magicblock_delegation_program_id}
use hwal.Errors.{ok, ok-injective, >>=-eq-ok, guard-eq-ok}
use hwal.Events.{position_delegated}
use hwal.State.{position, Position}
use hwal.Runtime.{Bank, Env, Instruction, Lamports, Runtime}
use hwal.Accounts.{to_le_bytes, key_bytes, position_seeds}
use hwal.Accounts.Inversion.{load_position-eq-ok, address-eq-ok, seeds_match-eq-ok}
use hwal.Delegation.{
  DelegatePosition, build_delegate_instruction_data, delegate_ix, signer_seeds, can_delegate,
  delegate_position,
}

-- The owner of an open position that is not delegated signs; the delegation program, and no other,
-- is called with the position as the signer; and of the chain the flag, the log and the balances
-- that the call leaves change.
pub record Delegates (rt : Runtime) (env : Env) (ctx : DelegatePosition) (bank bank' : Bank)
    : Type 0 where
  pub p : Position
  pub ix : Instruction
  pub has_position : bank.accounts ctx.position ≡ some (position p)
  pub signed : env.is_signer p.owner ≡ true
  pub was_open : p.status ≡ status_open
  pub was_home : p.er_delegated ≡ 0
  pub program_id : ix.program_id ≡ magicblock_delegation_program_id
  pub input : ix.input ≡ 0 ∷ key_bytes p.owner ++ to_le_bytes 8 p.nonce
  pub metas :
      ix.metas
      ≡ record { pubkey = p.owner; is_signer = true; is_writable = true }
        ∷ record { pubkey = ctx.position; is_signer = false; is_writable = true }
        ∷ record { pubkey = ctx.delegation_buffer; is_signer = false; is_writable = true }
        ∷ record { pubkey = ctx.delegation_record; is_signer = false; is_writable = true }
        ∷ record { pubkey = ctx.delegation_metadata; is_signer = false; is_writable = true }
        ∷ record { pubkey = rt.system_program_id; is_signer = false; is_writable = false }
        ∷ []
  pub called :
      rt.invoke_signed ix
        (p.owner ∷ ctx.position ∷ ctx.delegation_buffer ∷ ctx.delegation_record
          ∷ ctx.delegation_metadata ∷ rt.system_program_id ∷ magicblock_delegation_program_id ∷ [])
        (position_seed ∷ key_bytes p.owner ∷ to_le_bytes 8 p.nonce ∷ (p.bump ∷ []) ∷ [])
        bank
      ≡ ok bank'.lamports
  pub accounts :
      bank'.accounts
      ≡ update bank.accounts ctx.position (some (position (record p { er_delegated = 1 })))
  pub log : bank'.log ≡ bank.log ++ position_delegated ctx.position p.owner env.unix_timestamp ∷ []

can_delegate-eq-ok :
    (p : Position) → can_delegate p ≡ ok tt → (p.status ≡ status_open) × (p.er_delegated ≡ 0)
can_delegate-eq-ok p h = ground arith

-- The same call, at keys that are known to be others' and with its result by another name.
same_call :
    (rt : Runtime) (ix : Instruction) (place buffer record_key metadata : Pubkey)
    (owner owner' system system' program program' : Pubkey) (seeds : List (List ℕ)) (bank : Bank)
    (l l' : Lamports)
    → owner ≡ owner'
    → system ≡ system'
    → program ≡ program'
    → l' ≡ l
    → rt.invoke_signed ix
        (owner ∷ place ∷ buffer ∷ record_key ∷ metadata ∷ system ∷ program ∷ [])
        seeds
        bank
      ≡ ok l
    → rt.invoke_signed ix
        (owner' ∷ place ∷ buffer ∷ record_key ∷ metadata ∷ system' ∷ program' ∷ [])
        seeds
        bank
      ≡ ok l'
same_call rt ix place buffer record_key metadata owner owner' system system' program program' seeds
      bank l l' eo es ep el called =
    cc

-- A delegation that succeeds is of an open position that is not delegated, signed by its owner. It
-- calls the MagicBlock delegation program, with the accounts in the order of that instruction, the
-- owner and the nonce as data, and the seeds of the position as its signature; then it sets the
-- flag, and changes no other field and no other account of the program.
pub delegate_position-Delegates :
    (rt : Runtime) (env : Env) (ctx : DelegatePosition) (bank bank' : Bank)
    → delegate_position rt env ctx bank ≡ ok bank'
    → Delegates rt env ctx bank bank'
unfolding delegate_position delegate_ix signer_seeds build_delegate_instruction_data
delegate_position-Delegates rt env ctx bank bank' h =
    let (signed, h1) = guard-eq-ok (env.is_signer ctx.owner) _ _ h in
    let (p, hp, h2) = load_position-eq-ok bank ctx.position _ h1 in
    let (system, h3) = guard-eq-ok (ctx.system_program == rt.system_program_id) _ _ h2 in
    let (at_owner, h4) = address-eq-ok ctx.owner p.owner _ _ h3 in
    let (_, h5) = seeds_match-eq-ok rt ctx.position (position_seeds p.owner p.nonce) p.bump _ h4 in
    let (at_program, h6) =
      address-eq-ok ctx.delegation_program magicblock_delegation_program_id _ _ h5 in
    let (unit, allowed, h7) = >>=-eq-ok (can_delegate p) _ h6 in
    let (l, called, h8) = >>=-eq-ok (rt.invoke_signed (delegate_ix ctx p) _ _ bank) _ h7 in
    let at_system = (==_iff ctx.system_program rt.system_program_id).0 system in
    let left = sym (ok-injective h8) in
    let (opened, home) = can_delegate-eq-ok p allowed in
    record {
      p = p;
      ix = delegate_ix ctx p;
      has_position = hp;
      signed = rw (← at_owner) signed;
      was_open = opened;
      was_home = home;
      program_id = at_program;
      input = refl;
      metas = rw (at_owner, at_system);
      called =
          same_call rt (delegate_ix ctx p) ctx.position ctx.delegation_buffer ctx.delegation_record
            ctx.delegation_metadata ctx.owner p.owner ctx.system_program rt.system_program_id
            ctx.delegation_program magicblock_delegation_program_id (signer_seeds p) bank l
            bank'.lamports at_owner at_system at_program (ap (λ (b : Bank). b.lamports) left)
            called;
      accounts = ap (λ (b : Bank). b.accounts) left;
      log = ap (λ (b : Bank). b.log) left;
    }
