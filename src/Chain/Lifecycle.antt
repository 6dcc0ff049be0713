-- ===== src/Chain/Lifecycle.antt =====
-- The life of a position as a state machine, and the refinement: opened once, then triggered for a
-- reason or cancelled, and nothing after that.
use hwal.Prelude.{
  ==_iff, ℕ, ◌≡◌, ◌≢◌, inl, inr, Option, none, some, List, arith, ◌==◌, if◌then◌else◌, refl, ap,
  sym, ◌∙◌,
}
use hwal.Constants.{Pubkey, status_open, status_triggered, trigger_none}
use hwal.Errors.{ok, guard-eq-ok}
use hwal.State.{Account, config, price_feed, position, Position}
use hwal.Runtime.{Bank, Env, Runtime, IsRuntime}
use hwal.Triggers.{set_triggers}
use hwal.Open.{OpenPosition, OpenArgs, opened_position}
use hwal.Tick.Effect.{ticked_status, tick_handler-TickEffect}
use hwal.Cancel.{close_cancelled}
use hwal.Cancel.Inversion.{cancel_handler-Refunded}
use hwal.Positions.Kept.{update_triggers_handler-Retriggered}
use hwal.Call.{Call}
use hwal.Program.{execute, run}
use hwal.Program.Runs.{run_induction}
use hwal.Chain.{AccountStep}
use hwal.Chain.Steps.{execute-BankStep}

-- What an account is for the life of a position: none yet, some other account of the program, or a
-- position in one of its three states.
pub data Stage : Type 0 where
  absent other live cancelled : Stage
  triggered : (reason : ℕ) → Stage

pub stage : Option Account → Stage
stage none = absent
stage (some (config c)) = other
stage (some (price_feed f)) = other
stage (some (position p)) =
    if p.status == status_open
    then live
    else if p.status == status_triggered
    then triggered p.trigger_reason
    else cancelled

pub data StageStep (s t : Stage) : Type 0 where
  stay : t ≡ s → StageStep s t
  create : s ≡ absent → t ≡ other → StageStep s t
  start : s ≡ absent → t ≡ live → StageStep s t
  fire : (reason : ℕ) → s ≡ live → t ≡ triggered reason → reason ≢ trigger_none → StageStep s t
  cancel : s ≡ live → t ≡ cancelled → StageStep s t

stage-open : (p : Position) → p.status ≡ status_open → stage (some (position p)) ≡ live
unfolding stage
stage-open p h = ground arith

stage-triggered :
    (p : Position)
    → p.status ≡ status_triggered
    → stage (some (position p)) ≡ triggered p.trigger_reason
unfolding stage
stage-triggered p h = ground arith

opened_status :
    (now : _) (ctx : OpenPosition) (bump : ℕ) (args : OpenArgs) (entry : ℕ)
    → (opened_position now ctx bump args entry).status ≡ status_open
unfolding opened_position
opened_status now ctx bump args entry = refl

set_triggers_status :
    (stop take offset : ℕ) (p : Position) → (set_triggers stop take offset p).status ≡ p.status
unfolding set_triggers
set_triggers_status stop take offset p = ground arith

-- The account holds one position only, so one that is open is not one that is settled.
not_both :
    {a : Option Account} (p q : Position)
    → a ≡ some (position q)
    → a ≡ some (position p)
    → q.status ≡ status_open
    → ¬ (p.status ≢ status_open)
not_both p q e h opened closed = ground arith

module _ (rt : Runtime) (env : Env) (bank : Bank) (k : Pubkey) where
  pub AccountStep-StageStep :
      {a : Option Account} {n : ℕ} {a' : Option Account} {n' : ℕ}
      → AccountStep rt env bank k a n a' n'
      → StageStep (stage a) (stage a')
  unfolding stage
  AccountStep-StageStep (AccountStep.kept e _) = StageStep.stay (ap stage e)
  AccountStep-StageStep (AccountStep.config_created ctx fee reward bump c _ e _ _ e') =
      StageStep.create (ap stage e) (ap stage e')
  AccountStep-StageStep (AccountStep.config_updated args c c' _ e _ e' _) =
      StageStep.stay (ap stage e' ∙ sym (ap stage e))
  AccountStep-StageStep (AccountStep.config_counted c c' e _ e' _) =
      StageStep.stay (ap stage e' ∙ sym (ap stage e))
  AccountStep-StageStep (AccountStep.feed_created ctx _ bump symbol decimals price f _ _ e _ _ e') =
      StageStep.create (ap stage e) (ap stage e')
  AccountStep-StageStep (AccountStep.feed_priced price f f' _ e _ e' _) =
      StageStep.stay (ap stage e' ∙ sym (ap stage e))
  AccountStep-StageStep (AccountStep.feed_verified _ payload f w _ _ e _ e' _) =
      StageStep.stay (ap stage e' ∙ sym (ap stage e))
  AccountStep-StageStep (AccountStep.feed_registered id channel key c f f' has signed e _ e' _) =
      StageStep.stay (ap stage e' ∙ sym (ap stage e))
  AccountStep-StageStep (AccountStep.position_opened ctx args f bump entry _ _ _ e _ _ e' _) =
      StageStep.start (ap stage e) (
        ap stage e'
        ∙ stage-open (opened_position env.unix_timestamp ctx bump args entry)
            (opened_status env.unix_timestamp ctx bump args entry))
  AccountStep-StageStep (AccountStep.position_retriggered stop take offset p p' _ e h e' _) =
      let r = update_triggers_handler-Retriggered stop take offset p p' h in
      StageStep.stay (
        ap stage e'
        ∙ stage-open p' (rw r.changed (set_triggers_status stop take offset p ∙ r.was_open))
        ∙ sym (ap stage e ∙ stage-open p r.was_open))
  AccountStep-StageStep (AccountStep.position_ticked ctx c f p out _ _ _ _ _ e h e' _) =
      let t = tick_handler-TickEffect env.unix_timestamp ctx c f p bank.lamports out h in
      elim t.result [
        | inl (_, left) ↦ StageStep.stay (
            ap stage e'
            ∙ stage-open out.position (
                ap (λ (o : Position). o.status) left
                ∙ (ticked_status env.unix_timestamp t.price p).0
                ∙ t.was_open)
            ∙ sym (ap stage e ∙ stage-open p t.was_open))
        | inr (_, fired, status, _, _) ↦
            StageStep.fire out.position.trigger_reason (ap stage e ∙ stage-open p t.was_open)
              (ap stage e' ∙ stage-triggered out.position status) fired
      ]
  AccountStep-StageStep (AccountStep.position_cancelled ctx c p out _ e h e' _) =
      let r = cancel_handler-Refunded env.unix_timestamp ctx c p bank.lamports out h in
      StageStep.cancel (ap stage e ∙ stage-open p r.was_open)
        (ap stage e' ∙ rw r.closed (unfold close_cancelled in refl))
  AccountStep-StageStep (AccountStep.position_delegated _ p _ _ e _ e' _) =
      StageStep.stay (ap stage e' ∙ sym (ap stage e))
  AccountStep-StageStep (AccountStep.position_undelegated _ p _ _ e _ e' _) =
      StageStep.stay (ap stage e' ∙ sym (ap stage e))

  -- A settled position is not written any more.
  settled-kept :
      {a : Option Account} {n : ℕ} {a' : Option Account} {n' : ℕ} (p : Position)
      → p.status ≢ status_open
      → AccountStep rt env bank k a n a' n'
      → a ≡ some (position p)
      → a' ≡ some (position p)
  settled-kept p closed (AccountStep.kept e _) h = e ∙ h
  settled-kept p closed (AccountStep.config_created ctx fee reward bump c _ e _ _ e') h = cc
  settled-kept p closed (AccountStep.config_updated args c c' _ e _ e' _) h = cc
  settled-kept p closed (AccountStep.config_counted c c' e _ e' _) h = cc
  settled-kept p closed (AccountStep.feed_created ctx _ bump symbol decimals price f _ _ e _ _ e')
        h =
      cc
  settled-kept p closed (AccountStep.feed_priced price f f' _ e _ e' _) h = cc
  settled-kept p closed (AccountStep.feed_verified _ payload f w _ _ e _ e' _) h = cc
  settled-kept p closed (AccountStep.feed_registered id channel key c f f' has signed e _ e' _) h =
      cc
  settled-kept p closed (AccountStep.position_opened ctx args f bump entry _ _ _ e _ _ e' _) h = cc
  settled-kept p closed (AccountStep.position_retriggered s t o q q' _ e r e' _) h =
      absurd (not_both p q e h (update_triggers_handler-Retriggered s t o q q' r).was_open closed)
  settled-kept p closed (AccountStep.position_ticked ctx c f q out _ _ _ _ _ e r e' _) h = absurd (
      not_both p q e h
        (tick_handler-TickEffect env.unix_timestamp ctx c f q bank.lamports out r).was_open closed)
  settled-kept p closed (AccountStep.position_cancelled ctx c q out _ e r e' _) h = absurd (
      not_both p q e h
        (cancel_handler-Refunded env.unix_timestamp ctx c q bank.lamports out r).was_open closed)
  settled-kept p closed (AccountStep.position_delegated _ q _ _ e r e' _) h =
      absurd
        (not_both p q e h ((==_iff _ _).0 (guard-eq-ok (q.status == status_open) _ _ r).0) closed)
  settled-kept p closed (AccountStep.position_undelegated _ q _ _ e r e' _) h =
      absurd
        (not_both p q e h ((==_iff _ _).0 (guard-eq-ok (q.status == status_open) _ _ r).0) closed)

-- Whatever instruction succeeds, every account takes a step of the state machine or stays where it
-- is: it becomes another account of the program, or a position is started where no account was;
-- a live position is triggered, for a reason, or cancelled.
pub execute-StageStep :
    (rt : Runtime) (laws : IsRuntime rt) (env : Env) (call : Call) (bank bank' : Bank) (k : Pubkey)
    → execute rt env call bank ≡ ok bank'
    → StageStep (stage (bank.accounts k)) (stage (bank'.accounts k))
execute-StageStep rt laws env call bank bank' k h =
    AccountStep-StageStep rt env bank k (execute-BankStep rt laws env call bank bank' h k)

-- Once a position is triggered or cancelled, no history changes any field of it.
pub settled_frozen :
    (rt : Runtime) (laws : IsRuntime rt) (calls : List (Env × Call)) (bank : Bank) (k : Pubkey)
    (p : Position)
    → p.status ≢ status_open
    → bank.accounts k ≡ some (position p)
    → (run rt calls bank).accounts k ≡ some (position p)
settled_frozen rt laws calls bank k p closed =
    run_induction rt (λ b. b.accounts k ≡ some (position p))
      (λ env call b b' h held.
        settled-kept rt env b k p closed (execute-BankStep rt laws env call b b' h k) held)
      calls bank
