-- ===== src/Cancel/Inversion.antt =====
-- What a successful `cancel_position` went through.
use hwal.Prelude.{◌≡◌, sym, ap, true, some, ◌==◌, ==_iff, ◌∙◌}
use hwal.Prelude.Int.{ℤ}
use hwal.Constants.{status_open}
use hwal.Errors.{ok, ok-injective, >>=-eq-ok, guard-eq-ok}
use hwal.Events.{position_cancelled}
use hwal.State.{config, position, Config, Position}
use hwal.Runtime.{Bank, Env, Lamports, Runtime}
use hwal.Accounts.{store, emit, config_seeds, position_seeds}
use hwal.Accounts.Inversion.{
  load_config-eq-ok, load_position-eq-ok, address-eq-ok, seeds_match-eq-ok,
}
use hwal.Tick.{Outcome, pay}
use hwal.Cancel.{CancelPosition, close_cancelled, count_cancelled, cancel_handler, cancel_position}

pub record Refunded (now : ℤ) (ctx : CancelPosition) (c : Config) (p : Position) (l : Lamports)
    (out : Outcome) : Type 0 where
  pub was_open : p.status ≡ status_open
  pub paid : pay ctx.position ctx.owner p.collateral l ≡ ok out.lamports
  pub counted : out.config ≡ count_cancelled c
  pub closed : out.position ≡ close_cancelled now p
  pub announced : out.event ≡ position_cancelled ctx.position p.owner p.collateral now

pub cancel_handler-Refunded :
    (now : ℤ) (ctx : CancelPosition) (c : Config) (p : Position) (l : Lamports) (out : Outcome)
    → cancel_handler now ctx c p l ≡ ok out
    → Refunded now ctx c p l out
unfolding cancel_handler
cancel_handler-Refunded now ctx c p l out h =
    let (opened, h1) = guard-eq-ok (p.status == status_open) _ _ h in
    let (paid, transfer, h2) = >>=-eq-ok (pay ctx.position ctx.owner p.collateral l) _ h1 in
    let e = ok-injective h2 in
    record {
      was_open = (==_iff _ _).0 opened;
      paid = transfer ∙ ap (λ (o : Outcome). ok o.lamports) e;
      counted = ap (λ (o : Outcome). o.config) (sym e);
      closed = ap (λ (o : Outcome). o.position) (sym e);
      announced = ap (λ (o : Outcome). o.event) (sym e);
    }

pub record Cancels (rt : Runtime) (env : Env) (ctx : CancelPosition) (bank bank' : Bank)
    : Type 0 where
  pub c : Config
  pub p : Position
  pub out : Outcome
  pub has_config : bank.accounts ctx.config ≡ some (config c)
  pub has_position : bank.accounts ctx.position ≡ some (position p)
  pub owner_signed : env.is_signer ctx.owner ≡ true
  pub owner_matches : ctx.owner ≡ p.owner
  pub handled : cancel_handler env.unix_timestamp ctx c p bank.lamports ≡ ok out
  pub left :
      bank'
      ≡ emit out.event (
          store ctx.config
            (config out.config)
            (store ctx.position (position out.position) (record bank { lamports = out.lamports })))

pub cancel_position-Cancels :
    (rt : Runtime) (env : Env) (ctx : CancelPosition) (bank bank' : Bank)
    → cancel_position rt env ctx bank ≡ ok bank'
    → Cancels rt env ctx bank bank'
unfolding cancel_position
cancel_position-Cancels rt env ctx bank bank' h =
    let (signed, h1) = guard-eq-ok (env.is_signer ctx.owner) _ _ h in
    let (c, hc, h2) = load_config-eq-ok bank ctx.config _ h1 in
    let (p, hp, h3) = load_position-eq-ok bank ctx.position _ h2 in
    let (at_owner, h4) = address-eq-ok ctx.owner p.owner _ _ h3 in
    let (at_config, h5) = seeds_match-eq-ok rt ctx.config config_seeds c.bump _ h4 in
    let (at_position, h6) =
      seeds_match-eq-ok rt ctx.position (position_seeds ctx.owner p.nonce) p.bump _ h5 in
    let (out, handled, h7) =
      >>=-eq-ok (cancel_handler env.unix_timestamp ctx c p bank.lamports) _ h6 in
    record {
      c = c;
      p = p;
      out = out;
      has_config = hc;
      has_position = hp;
      owner_signed = signed;
      owner_matches = at_owner;
      handled = handled;
      left = sym (ok-injective h7);
    }
