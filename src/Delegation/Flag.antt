-- ===== src/Delegation/Flag.antt =====
-- The delegation flag: what the two instructions make of it, and a position that closes with it.
use hwal.Prelude.{◌≡◌, ◌≢◌, ◌==◌, ==_iff, refl, ap, ◌∙◌, some, List, arith}
use hwal.Constants.{status_open, status_cancelled, magicblock_delegation_program_id}
use hwal.Errors.{ok, >>=-eq-ok, guard-eq-ok}
use hwal.State.{position, Position}
use hwal.Runtime.{Bank, Env, Runtime, IsRuntime}
use hwal.Accounts.{position_seeds}
use hwal.Accounts.Inversion.{load_position-eq-ok, address-eq-ok, seeds_match-eq-ok}
use hwal.Cancel.{CancelPosition, close_cancelled, cancel_position}
use hwal.Cancel.Inversion.{cancel_handler-Refunded, cancel_position-Cancels}
use hwal.Delegation.{UndelegatePosition, can_undelegate, undelegate_position}
use hwal.Call.{Call}
use hwal.Program.{run}
use hwal.Chain.Lifecycle.{settled_frozen}

-- Only an open position that is delegated can be undelegated.
undelegate-open :
    (rt : Runtime) (env : Env) (ctx : UndelegatePosition) (bank bank' : Bank) (p : Position)
    → bank.accounts ctx.position ≡ some (position p)
    → undelegate_position rt env ctx bank ≡ ok bank'
    → p.status ≡ status_open
unfolding undelegate_position
undelegate-open rt env ctx bank bank' p held h =
    let (signed, h1) = guard-eq-ok (env.is_signer ctx.owner) _ _ h in
    let (q, hq, h2) = load_position-eq-ok bank ctx.position _ h1 in
    let (_, h3) = guard-eq-ok (ctx.system_program == rt.system_program_id) _ _ h2 in
    let (at_owner, h4) = address-eq-ok ctx.owner q.owner _ _ h3 in
    let (_, h5) = seeds_match-eq-ok rt ctx.position (position_seeds q.owner q.nonce) q.bump _ h4 in
    let (_, h6) = address-eq-ok ctx.delegation_program magicblock_delegation_program_id _ _ h5 in
    let (unit, allowed, h7) = >>=-eq-ok (can_undelegate q) _ h6 in
    let was_open = (==_iff _ _).0 (guard-eq-ok (q.status == status_open) _ _ allowed).0 in
    ground (arith, held, hq)

-- A cancelled position keeps its flag.
cancel-flag :
    (rt : Runtime) (env : Env) (ctx : CancelPosition) (bank bank' : Bank) (p : Position)
    → bank.accounts ctx.position ≡ some (position p)
    → cancel_position rt env ctx bank ≡ ok bank'
    → bank'.accounts ctx.position ≡ some (position (close_cancelled env.unix_timestamp p))
cancel-flag rt env ctx bank bank' p held h =
    let t = cancel_position-Cancels rt env ctx bank bank' h in
    let r = cancel_handler-Refunded env.unix_timestamp ctx t.c t.p bank.lamports t.out t.handled in
    ground (
      arith,
      ap (λ (b : Bank). b.accounts ctx.position) t.left,
      t.has_config,
      t.has_position,
      r.closed,
    )

closed_fields :
    (now : _) (p : Position)
    → ((close_cancelled now p).status ≡ status_cancelled)
      × ((close_cancelled now p).er_delegated ≡ p.er_delegated)
unfolding close_cancelled
closed_fields now p = (refl, refl)

-- A position that is cancelled while it is delegated keeps the flag for ever: after any history
-- its account still says delegated, and an `undelegate_position` of it does not succeed.
pub cancelled_stays_delegated :
    (rt : Runtime) (laws : IsRuntime rt) (env : Env) (ctx : CancelPosition) (bank bank' : Bank)
    (p : Position) (calls : List (Env × Call)) (env' : Env) (ctx' : UndelegatePosition)
    (bank'' : Bank)
    → bank.accounts ctx.position ≡ some (position p)
    → p.er_delegated ≡ 1
    → cancel_position rt env ctx bank ≡ ok bank'
    → ctx'.position ≡ ctx.position
    → ((p' : Position) × ((run rt calls bank').accounts ctx.position ≡ some (position p'))
        × (p'.er_delegated ≡ 1))
      × (undelegate_position rt env' ctx' (run rt calls bank') ≢ ok bank'')
cancelled_stays_delegated rt laws env ctx bank bank' p calls env' ctx' bank'' held delegated h
      here =
    let q = close_cancelled env.unix_timestamp p in
    let (status, flag) = closed_fields env.unix_timestamp p in
    let settled : q.status ≢ status_open = omega arith in
    let frozen =
      settled_frozen rt laws calls bank' ctx.position q settled
        (cancel-flag rt env ctx bank bank' p held h) in
    (
      (q, frozen, flag ∙ delegated),
      (λ ran.
          settled
            (undelegate-open rt env' ctx' (run rt calls bank') bank'' q (rw here frozen) ran)),
    )
