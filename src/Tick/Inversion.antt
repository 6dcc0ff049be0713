-- ===== src/Tick/Inversion.antt =====
-- What a successful `tick_position` went through.
use hwal.Prelude.{
  ◌∙◌, ap, ◌≢◌, ◌⊎◌, inl, inr, Bool-cases, ℕ, ◌≡◌, sym, true, some, arith, ◌==◌, ==_iff,
}
use hwal.Prelude.Int.{ℤ}
use hwal.Constants.{status_open, trigger_none}
use hwal.Errors.{ok, ok-injective, >>=-eq-ok, guard-eq-ok}
use hwal.State.{config, position, price_feed, Config, PriceFeed, Position}
use hwal.Runtime.{Bank, Env, Lamports, Runtime}
use hwal.Accounts.{store, emit, config_seeds, position_seeds}
use hwal.Accounts.Inversion.{
  load_config-eq-ok, load_price_feed-eq-ok, load_position-eq-ok, address-eq-ok, seeds_match-eq-ok,
}
use hwal.Events.{position_ticked, position_triggered}
use hwal.Open.{fresh_price}
use hwal.Tick.{
  TickPosition, Outcome, Payout, count_tick, advance_extreme, evaluate_trigger, compute_payout,
  pay_out, close_triggered, count_triggered, settle, finish_tick, tick_handler, tick_position,
}

pub record Ticks (env : Env) (ctx : TickPosition) (bank bank' : Bank) : Type 0 where
  pub c : Config
  pub f : PriceFeed
  pub p : Position
  pub out : Outcome
  pub has_config : bank.accounts ctx.config ≡ some (config c)
  pub has_feed : bank.accounts ctx.feed ≡ some (price_feed f)
  pub has_position : bank.accounts ctx.position ≡ some (position p)
  pub keeper_signed : env.is_signer ctx.keeper ≡ true
  pub feed_matches : ctx.feed ≡ p.feed
  pub owner_matches : ctx.owner ≡ p.owner
  pub receiver_matches : ctx.fee_receiver ≡ c.fee_receiver
  pub handled : tick_handler env.unix_timestamp ctx c f p bank.lamports ≡ ok out
  pub left :
      bank'
      ≡ emit out.event (
          store ctx.config
            (config out.config)
            (store ctx.position (position out.position) (record bank { lamports = out.lamports })))

pub tick_position-Ticks :
    (rt : Runtime) (env : Env) (ctx : TickPosition) (bank bank' : Bank)
    → tick_position rt env ctx bank ≡ ok bank'
    → Ticks env ctx bank bank'
unfolding tick_position
tick_position-Ticks rt env ctx bank bank' h =
    let (signed, h1) = guard-eq-ok (env.is_signer ctx.keeper) _ _ h in
    let (c, hc, h2) = load_config-eq-ok bank ctx.config _ h1 in
    let (f, hf, h3) = load_price_feed-eq-ok bank ctx.feed _ h2 in
    let (p, hp, h4) = load_position-eq-ok bank ctx.position _ h3 in
    let (at_config, h5) = seeds_match-eq-ok rt ctx.config config_seeds c.bump _ h4 in
    let (at_feed, h6) = address-eq-ok ctx.feed p.feed _ _ h5 in
    let (at_position, h7) =
      seeds_match-eq-ok rt ctx.position (position_seeds p.owner p.nonce) p.bump _ h6 in
    let (at_owner, h8) = address-eq-ok ctx.owner p.owner _ _ h7 in
    let (at_receiver, h9) = address-eq-ok ctx.fee_receiver c.fee_receiver _ _ h8 in
    let (out, handled, h10) =
      >>=-eq-ok (tick_handler env.unix_timestamp ctx c f p bank.lamports) _ h9 in
    record {
      c = c;
      f = f;
      p = p;
      out = out;
      has_config = hc;
      has_feed = hf;
      has_position = hp;
      keeper_signed = signed;
      feed_matches = at_feed;
      owner_matches = at_owner;
      receiver_matches = at_receiver;
      handled = handled;
      left = sym (ok-injective h10);
    }

-- What a successful run of the handler went through, up to the evaluation of the triggers.
pub record Handled (now : ℤ) (ctx : TickPosition) (c : Config) (f : PriceFeed) (p : Position)
    (l : Lamports) (out : Outcome) : Type 0 where
  pub was_open : p.status ≡ status_open
  pub price : ℕ
  pub fresh : fresh_price now f ≡ ok price
  pub trigger : ℕ
  pub evaluated : evaluate_trigger price (advance_extreme price (count_tick now p)) ≡ ok trigger
  pub finished :
      finish_tick now ctx trigger price c (advance_extreme price (count_tick now p)) l ≡ ok out

pub tick_handler-Handled :
    (now : ℤ) (ctx : TickPosition) (c : Config) (f : PriceFeed) (p : Position) (l : Lamports)
    (out : Outcome)
    → tick_handler now ctx c f p l ≡ ok out
    → Handled now ctx c f p l out
unfolding tick_handler
tick_handler-Handled now ctx c f p l out h =
    let (opened, h1) = guard-eq-ok (p.status == status_open) _ _ h in
    let (price, fresh, h2) = >>=-eq-ok (fresh_price now f) _ h1 in
    let (trigger, evaluated, h3) =
      >>=-eq-ok (evaluate_trigger price (advance_extreme price (count_tick now p))) _ h2 in
    record {
      was_open = (==_iff _ _).0 opened;
      price = price;
      fresh = fresh;
      trigger = trigger;
      evaluated = evaluated;
      finished = h3;
    }

-- What a successful settlement paid and wrote.
pub record Settled (now : ℤ) (ctx : TickPosition) (trigger : ℕ) (price : ℕ) (c : Config)
    (p : Position) (l : Lamports) (out : Outcome) : Type 0 where
  pub payout : Payout
  pub computed : compute_payout c p.collateral ≡ ok payout
  pub paid : pay_out ctx payout l ≡ ok out.lamports
  pub counted : out.config ≡ count_triggered payout c
  pub closed : out.position ≡ close_triggered now trigger p
  pub announced :
      out.event
      ≡ position_triggered ctx.position p.owner trigger price payout.net_to_owner payout.fee
          payout.keeper_reward ctx.keeper now

pub settle-Settled :
    (now : ℤ) (ctx : TickPosition) (trigger : ℕ) (price : ℕ) (c : Config) (p : Position)
    (l : Lamports) (out : Outcome)
    → settle now ctx trigger price c p l ≡ ok out
    → Settled now ctx trigger price c p l out
unfolding settle
settle-Settled now ctx trigger price c p l out h =
    let (payout, computed, h1) = >>=-eq-ok (compute_payout c p.collateral) _ h in
    let (paid, transfers, h2) = >>=-eq-ok (pay_out ctx payout l) _ h1 in
    let e = ok-injective h2 in
    record {
      payout = payout;
      computed = computed;
      paid = transfers ∙ ap (λ (o : Outcome). ok o.lamports) e;
      counted = ap (λ (o : Outcome). o.config) (sym e);
      closed = ap (λ (o : Outcome). o.position) (sym e);
      announced = ap (λ (o : Outcome). o.event) (sym e);
    }

-- A tick ends quietly, or settles.
pub finish_tick-cases :
    (now : ℤ) (ctx : TickPosition) (trigger : ℕ) (price : ℕ) (c : Config) (p : Position)
    (l : Lamports) (out : Outcome)
    → finish_tick now ctx trigger price c p l ≡ ok out
    → ((trigger ≡ trigger_none)
        × (out.config ≡ c)
        × (out.position ≡ p)
        × (out.lamports ≡ l)
        × (out.event ≡ position_ticked ctx.position price p.trailing_extreme p.last_tick_at))
      ⊎ ((trigger ≢ trigger_none) × Settled now ctx trigger price c p l out)
unfolding finish_tick
finish_tick-cases now ctx trigger price c p l out h = elim (Bool-cases (trigger == trigger_none)) [
  | inl quiet ↦
      let e = ok-injective (rw (quiet) at h) in
      inl (
        (==_iff _ _).0 quiet,
        ap (λ (o : Outcome). o.config) (sym e),
        ap (λ (o : Outcome). o.position) (sym e),
        ap (λ (o : Outcome). o.lamports) (sym e),
        ap (λ (o : Outcome). o.event) (sym e),
      )
  | inr fired ↦ inr (ground arith, settle-Settled now ctx trigger price c p l out (rw (fired) at h))
]
