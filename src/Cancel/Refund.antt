-- ===== src/Cancel/Refund.antt =====
-- The refund of a cancelled position, and that its owner can always get it.
use hwal.Prelude.{refl, true, ◌+◌, ◌≤◌, ◌≡◌, sym, ap, subst, ==_iff, some, arith}
use hwal.Prelude.Int.{ℤ}
use hwal.Prelude.Word.{u64_max}
use hwal.Constants.{status_open, status_cancelled}
use hwal.Errors.{ok}
use hwal.Events.{position_cancelled}
use hwal.State.{position, Config, Position}
use hwal.Runtime.{Bank, Env, Lamports, Moves, Runtime}
use hwal.Tick.{Outcome}
use hwal.Tick.Split.{pay-Moves, pay_succeeds}
use hwal.Cancel.{CancelPosition, close_cancelled, count_cancelled, cancel_handler, cancel_position}
use hwal.Cancel.Inversion.{cancel_handler-Refunded, cancel_position-Cancels}

-- What a cancellation leaves of the position, and where its collateral goes.
pub record Refunds (env : Env) (ctx : CancelPosition) (bank bank' : Bank) : Type 0 where
  pub p : Position
  pub has_position : bank.accounts ctx.position ≡ some (position p)
  pub was_open : p.status ≡ status_open
  pub owner : ctx.owner ≡ p.owner
  pub signed : env.is_signer ctx.owner ≡ true
  pub moved : Moves ctx.position ctx.owner p.collateral bank.lamports bank'.lamports
  pub closed :
      bank'.accounts ctx.position
      ≡ some (
          position (record p {
            collateral = 0;
            status = status_cancelled;
            settled_at = env.unix_timestamp;
          }))

-- A cancellation that succeeds was of an open position and signed by its owner; it moves the whole collateral,
-- with no fee, from the position's account to the owner and changes no other balance, and leaves
-- the position cancelled and empty, with the time, and otherwise as it was.
pub cancel_position-Refunds :
    (rt : Runtime) (env : Env) (ctx : CancelPosition) (bank bank' : Bank)
    → cancel_position rt env ctx bank ≡ ok bank'
    → Refunds env ctx bank bank'
unfolding close_cancelled
cancel_position-Refunds rt env ctx bank bank' h =
    let t = cancel_position-Cancels rt env ctx bank bank' h in
    let r = cancel_handler-Refunded env.unix_timestamp ctx t.c t.p bank.lamports t.out t.handled in
    let same_l = ap (λ (b : Bank). b.lamports) t.left in
    record {
      p = t.p;
      has_position = t.has_position;
      was_open = r.was_open;
      owner = t.owner_matches;
      signed = t.owner_signed;
      moved =
          subst (Moves ctx.position ctx.owner t.p.collateral bank.lamports) (sym same_l)
            (pay-Moves ctx.position ctx.owner t.p.collateral bank.lamports t.out.lamports r.paid);
      closed = ground (
        arith,
        ap (λ (b : Bank). b.accounts ctx.position) t.left,
        t.has_config,
        t.has_position,
        r.closed,
      );
    }

-- The handler succeeds on every open position whose account holds the collateral, if the owner's
-- balance stays a `u64`: no price, feed or staleness is asked for. It then has moved the whole
-- collateral to the owner and no other balance, and the position is cancelled and empty.
pub cancel_handler_succeeds :
    (now : ℤ) (ctx : CancelPosition) (c : Config) (p : Position) (l : Lamports)
    → p.status ≡ status_open
    → p.collateral ≤ l ctx.position
    → l ctx.owner + p.collateral ≤ u64_max
    → (out : Outcome) × (cancel_handler now ctx c p l ≡ ok out)
      × Moves ctx.position ctx.owner p.collateral l out.lamports
      × (out.position.status ≡ status_cancelled)
      × (out.position.collateral ≡ 0)
unfolding cancel_handler close_cancelled
cancel_handler_succeeds now ctx c p l opened covered room =
    let (paid, done) = pay_succeeds ctx.position ctx.owner p.collateral l covered room in
    (
      record {
        config = count_cancelled c;
        position = close_cancelled now p;
        lamports = paid;
        event = position_cancelled ctx.position p.owner p.collateral now;
      },
      rw ((==_iff p.status status_open).1 opened, done),
      pay-Moves ctx.position ctx.owner p.collateral l paid done,
      refl,
      refl,
    )
