-- ===== src/Chain/Steps/Exit.antt =====
-- `tick_position` and `cancel_position` as account steps.
use hwal.Chain.Steps.Writes.{BankStep-write_two}
use hwal.Prelude.{ap, sym, ℕ, ◌+◌, ◌≤◌, ◌≡◌, ◌≢◌, inl, inr, some, arith}
use hwal.Prelude.Int.{ℤ}
use hwal.Constants.{Pubkey}
use hwal.Errors.{ok}
use hwal.State.{config, position, Config, PriceFeed, Position}
use hwal.Runtime.{Bank, Env, Lamports, Runtime}
use hwal.Tick.{
  TickPosition, Outcome, tick_handler, tick_position, count_tick, advance_extreme, close_triggered,
  count_triggered,
}
use hwal.Tick.Inversion.{tick_position-Ticks, tick_handler-Handled, Settled, finish_tick-cases}
use hwal.Cancel.{CancelPosition, cancel_handler, cancel_position, close_cancelled, count_cancelled}
use hwal.Cancel.Inversion.{cancel_handler-Refunded, cancel_position-Cancels}
use hwal.Tick.Split.{pay-Moves, compute_payout_sum, pay_out-PaysOut}
use hwal.Chain.{Counts, AccountStep, BankStep}

-- A tick takes from the position's account what it takes from the position's collateral, and from
-- no other account.
pub record Drains (position_key : Pubkey) (c : Config) (p : Position) (l : Lamports) (out : Outcome)
    : Type 0 where
  pub counts : Counts c out.config
  pub others : (k : Pubkey) → k ≢ position_key → l k ≤ out.lamports k
  pub own : l position_key + out.position.collateral ≤ out.lamports position_key + p.collateral

Settled-Drains :
    (now : ℤ) (ctx : TickPosition) (trigger price : ℕ) (c : Config) (p : Position) (l : Lamports)
    (out : Outcome)
    → Settled now ctx trigger price c p l out
    → Drains ctx.position c p l out
unfolding close_triggered count_triggered
Settled-Drains now ctx trigger price c p l out s =
    let moved = pay_out-PaysOut ctx s.payout l out.lamports s.paid in
    let total = compute_payout_sum c p.collateral s.payout s.computed in
    record {
      counts = Counts.counts_triggered s.payout.fee s.payout.keeper_reward s.counted;
      others = λ k h. ground (arith, moved k);
      own = ground (arith, moved ctx.position);
    }

ticked_collateral :
    (now : ℤ) (price : ℕ) (p : Position)
    → (advance_extreme price (count_tick now p)).collateral ≡ p.collateral
unfolding advance_extreme count_tick
ticked_collateral now price p = ground arith

tick_handler-Drains :
    (now : ℤ) (ctx : TickPosition) (c : Config) (f : PriceFeed) (p : Position) (l : Lamports)
    (out : Outcome)
    → tick_handler now ctx c f p l ≡ ok out
    → Drains ctx.position c p l out
tick_handler-Drains now ctx c f p l out h =
    let run = tick_handler-Handled now ctx c f p l out h in
    let ticked = advance_extreme run.price (count_tick now p) in
    let same = ticked_collateral now run.price p in
    elim (finish_tick-cases now ctx run.trigger run.price c ticked l out run.finished) [
      | inl (_, same_c, same_p, same_l, _) ↦ record {
        counts = Counts.counts_nothing same_c;
        others = λ k ne. rw same_l (omega arith);
        own = rw (same_l, same_p, same) (omega arith);
      }
      | inr (_, s) ↦
          let d = Settled-Drains now ctx run.trigger run.price c ticked l out s in
          record { counts = d.counts; others = d.others; own = rw (← same) d.own }
    ]

-- Neither a configuration nor an absent account is a position.
not_position :
    (bank : Bank) (i j : Pubkey) {c : Config} {p : Position}
    → bank.accounts i ≡ some (config c)
    → bank.accounts j ≡ some (position p)
    → i ≢ j
not_position bank i j hi hj e = cc

pub tick_position-BankStep :
    (rt : Runtime) (env : Env) (ctx : TickPosition) (bank bank' : Bank)
    → tick_position rt env ctx bank ≡ ok bank'
    → BankStep rt env bank bank'
tick_position-BankStep rt env ctx bank bank' h =
    let t = tick_position-Ticks rt env ctx bank bank' h in
    let d = tick_handler-Drains env.unix_timestamp ctx t.c t.f t.p bank.lamports t.out t.handled in
    let apart = not_position bank ctx.config ctx.position t.has_config t.has_position in
    let same_l = ap (λ (b : Bank). b.lamports) t.left in
    BankStep-write_two rt env bank bank' ctx.position ctx.config (position t.out.position)
      (config t.out.config) (λ k. ap (λ (b : Bank). b.accounts k) t.left) (λ e. apart (sym e))
      (λ k ne _ _. rw same_l (d.others k ne))
      (λ k here after.
        AccountStep.position_ticked ctx t.c t.f t.p t.out t.keeper_signed t.has_config
          (rw (← t.feed_matches) t.has_feed) t.owner_matches t.receiver_matches
          (rw here t.has_position) t.handled after (rw (same_l, here) d.own))
      (λ k here after.
        AccountStep.config_counted t.c t.out.config (rw here t.has_config) d.counts after
          (rw (same_l, here) (d.others ctx.config apart)))

cancel_handler-Drains :
    (now : ℤ) (ctx : CancelPosition) (c : Config) (p : Position) (l : Lamports) (out : Outcome)
    → cancel_handler now ctx c p l ≡ ok out
    → Drains ctx.position c p l out
unfolding close_cancelled count_cancelled
cancel_handler-Drains now ctx c p l out h =
    let r = cancel_handler-Refunded now ctx c p l out h in
    let moved = pay-Moves ctx.position ctx.owner p.collateral l out.lamports r.paid in
    record {
      counts = Counts.counts_cancelled r.counted;
      others = λ k ne. ground (arith, moved k);
      own = ground (arith, moved ctx.position);
    }

pub cancel_position-BankStep :
    (rt : Runtime) (env : Env) (ctx : CancelPosition) (bank bank' : Bank)
    → cancel_position rt env ctx bank ≡ ok bank'
    → BankStep rt env bank bank'
cancel_position-BankStep rt env ctx bank bank' h =
    let t = cancel_position-Cancels rt env ctx bank bank' h in
    let d = cancel_handler-Drains env.unix_timestamp ctx t.c t.p bank.lamports t.out t.handled in
    let apart = not_position bank ctx.config ctx.position t.has_config t.has_position in
    let same_l = ap (λ (b : Bank). b.lamports) t.left in
    BankStep-write_two rt env bank bank' ctx.position ctx.config (position t.out.position)
      (config t.out.config) (λ k. ap (λ (b : Bank). b.accounts k) t.left) (λ e. apart (sym e))
      (λ k ne _ _. rw same_l (d.others k ne))
      (λ k here after.
        AccountStep.position_cancelled ctx t.c t.p t.out (rw (← t.owner_matches) t.owner_signed)
          (rw here t.has_position) t.handled after (rw (same_l, here) d.own))
      (λ k here after.
        AccountStep.config_counted t.c t.out.config (rw here t.has_config) d.counts after
          (rw (same_l, here) (d.others ctx.config apart)))
