-- ===== src/Chain/Steps/Terms.antt =====
-- `update_triggers` and the two delegation instructions as account steps.
use hwal.Prelude.{ℕ, ◌≡◌, ◌==◌, sym, ap, arith}
use hwal.Constants.{magicblock_delegation_program_id}
use hwal.Errors.{ok, ok-injective, >>=-eq-ok, guard-eq-ok}
use hwal.State.{position}
use hwal.Runtime.{Bank, Env, Runtime, IsRuntime}
use hwal.Accounts.{position_seeds}
use hwal.Accounts.Inversion.{load_position-eq-ok, address-eq-ok, seeds_match-eq-ok}
use hwal.Triggers.{UpdateTriggers, update_triggers_handler, update_triggers}
use hwal.Delegation.{
  DelegatePosition, delegate_ix, can_delegate, delegate_position, UndelegatePosition, undelegate_ix,
  can_undelegate, undelegate_position,
}
use hwal.Chain.{AccountStep, BankStep}
use hwal.Chain.Steps.Writes.{BankStep-write}

pub update_triggers-BankStep :
    (rt : Runtime) (env : Env) (ctx : UpdateTriggers)
    (stop_price take_profit_price trailing_offset : ℕ) (bank bank' : Bank)
    → update_triggers rt env ctx stop_price take_profit_price trailing_offset bank ≡ ok bank'
    → BankStep rt env bank bank'
unfolding update_triggers
update_triggers-BankStep rt env ctx stop take offset bank bank' h =
    let (signed, h1) = guard-eq-ok (env.is_signer ctx.owner) _ _ h in
    let (p, hp, h2) = load_position-eq-ok bank ctx.position _ h1 in
    let (at_owner, h3) = address-eq-ok ctx.owner p.owner _ _ h2 in
    let (_, h4) =
      seeds_match-eq-ok rt ctx.position (position_seeds ctx.owner p.nonce) p.bump _ h3 in
    let (p', handled, h5) = >>=-eq-ok (update_triggers_handler stop take offset p) _ h4 in
    let left = sym (ok-injective h5) in
    BankStep-write rt env bank bank' ctx.position (position p')
      (λ k. ap (λ (b : Bank). b.accounts k) left)
      (λ k _ _. ground (arith, ap (λ (b : Bank). b.lamports k) left))
      (λ k here after.
        AccountStep.position_retriggered stop take offset p p' (rw (← at_owner) signed) (rw here hp)
          handled after (ground (arith, ap (λ (b : Bank). b.lamports k) left)))

pub delegate_position-BankStep :
    (rt : Runtime) (laws : IsRuntime rt) (env : Env) (ctx : DelegatePosition) (bank bank' : Bank)
    → delegate_position rt env ctx bank ≡ ok bank'
    → BankStep rt env bank bank'
unfolding delegate_position
delegate_position-BankStep rt laws env ctx bank bank' h =
    let (signed, h1) = guard-eq-ok (env.is_signer ctx.owner) _ _ h in
    let (p, hp, h2) = load_position-eq-ok bank ctx.position _ h1 in
    let (_, h3) = guard-eq-ok (ctx.system_program == rt.system_program_id) _ _ h2 in
    let (at_owner, h4) = address-eq-ok ctx.owner p.owner _ _ h3 in
    let (_, h5) = seeds_match-eq-ok rt ctx.position (position_seeds p.owner p.nonce) p.bump _ h4 in
    let (at_program, h6) =
      address-eq-ok ctx.delegation_program magicblock_delegation_program_id _ _ h5 in
    let (unit, allowed, h7) = >>=-eq-ok (can_delegate p) _ h6 in
    let (l, called, h8) = >>=-eq-ok (rt.invoke_signed (delegate_ix ctx p) _ _ bank) _ h7 in
    let left = sym (ok-injective h8) in
    let keeps = laws.invoke_signed-keeps _ _ _ bank l called in
    BankStep-write rt env bank bank' ctx.position (position (record p { er_delegated = 1 }))
      (λ k. ap (λ (b : Bank). b.accounts k) left)
      (λ k _ held. rw (ap (λ (b : Bank). b.lamports) left) (keeps k held))
      (λ k here after.
        AccountStep.position_delegated ctx p (rw (← at_owner) signed) at_program (rw here hp)
          allowed after
          (rw (ap (λ (b : Bank). b.lamports) left) (keeps k (ground (arith, hp, here)))))

pub undelegate_position-BankStep :
    (rt : Runtime) (laws : IsRuntime rt) (env : Env) (ctx : UndelegatePosition) (bank bank' : Bank)
    → undelegate_position rt env ctx bank ≡ ok bank'
    → BankStep rt env bank bank'
unfolding undelegate_position
undelegate_position-BankStep rt laws env ctx bank bank' h =
    let (signed, h1) = guard-eq-ok (env.is_signer ctx.owner) _ _ h in
    let (p, hp, h2) = load_position-eq-ok bank ctx.position _ h1 in
    let (_, h3) = guard-eq-ok (ctx.system_program == rt.system_program_id) _ _ h2 in
    let (at_owner, h4) = address-eq-ok ctx.owner p.owner _ _ h3 in
    let (_, h5) = seeds_match-eq-ok rt ctx.position (position_seeds p.owner p.nonce) p.bump _ h4 in
    let (at_program, h6) =
      address-eq-ok ctx.delegation_program magicblock_delegation_program_id _ _ h5 in
    let (unit, allowed, h7) = >>=-eq-ok (can_undelegate p) _ h6 in
    let (l, called, h8) = >>=-eq-ok (rt.invoke_signed (undelegate_ix ctx) _ _ bank) _ h7 in
    let left = sym (ok-injective h8) in
    let keeps = laws.invoke_signed-keeps _ _ _ bank l called in
    BankStep-write rt env bank bank' ctx.position (position (record p { er_delegated = 0 }))
      (λ k. ap (λ (b : Bank). b.accounts k) left)
      (λ k _ held. rw (ap (λ (b : Bank). b.lamports) left) (keeps k held))
      (λ k here after.
        AccountStep.position_undelegated ctx p (rw (← at_owner) signed) at_program (rw here hp)
          allowed after
          (rw (ap (λ (b : Bank). b.lamports) left) (keeps k (ground (arith, hp, here)))))
