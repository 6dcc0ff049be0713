-- ===== src/Tick/Settlement.antt =====
-- Where the lamports of a settled position go.
use hwal.Prelude.{
  true, ℕ, ◌+◌, ◌*◌, ◌≤◌, ◌<◌, ◌≡◌, ◌⊎◌, inl, inr, sym, ap, ◌∙◌, subst, List, [], ◌∷◌, some, arith,
}
use hwal.Prelude.Map.{at_key, sum_over, count, sum_over-at_key}
use hwal.Constants.{Pubkey, bps_denominator}
use hwal.Errors.{ok, ok-injective, >>=-eq-ok}
use hwal.State.{config, position, price_feed, Config, PriceFeed, Position}
use hwal.Runtime.{Bank, Env, Lamports, Runtime}
use hwal.Utils.{bps_of, checked_sub}
use hwal.Utils.Bps.{bps_of-floor}
use hwal.Tick.{TickPosition, Payout, compute_payout, tick_position}
use hwal.Tick.Split.{IsPolicy, compute_payout_sum, PaysOut, pay_out-PaysOut}
use hwal.Tick.Inversion.{tick_position-Ticks, tick_handler-Handled, finish_tick-cases}
use hwal.Tick.Effect.{ticked, ticked_status, Quiet, Fired, Fired-closed}
use hwal.Tick.Trigger.{Fires, evaluate_trigger-Fires}
use hwal.Open.{fresh_price}

-- The three parts of the collateral: the two shares rounded down, and the rest.
pub record Splits (c : Config) (collateral : ℕ) (out : Payout) : Type 0 where
  pub fee_low : out.fee * bps_denominator ≤ collateral * c.fee_bps
  pub fee_high : collateral * c.fee_bps < (out.fee + 1) * bps_denominator
  pub reward_low : out.keeper_reward * bps_denominator ≤ collateral * c.keeper_reward_bps
  pub reward_high : collateral * c.keeper_reward_bps < (out.keeper_reward + 1) * bps_denominator
  pub whole : out.fee + out.keeper_reward + out.net_to_owner ≡ collateral

mul_mono : (n : ℕ) {a b : ℕ} → a ≤ b → n * a ≤ n * b
mul_mono n h = grind arith

pub compute_payout-Splits :
    (c : Config) (collateral : ℕ) (out : Payout)
    → compute_payout c collateral ≡ ok out
    → Splits c collateral out
unfolding compute_payout
compute_payout-Splits c collateral out h =
    let whole = compute_payout_sum c collateral out h in
    let (fee, is_fee, h1) = >>=-eq-ok (bps_of collateral c.fee_bps) _ h in
    let (reward, is_reward, h2) = >>=-eq-ok (bps_of collateral c.keeper_reward_bps) _ h1 in
    let (after_fee, _, h3) = >>=-eq-ok (checked_sub collateral fee) _ h2 in
    let (net, _, h4) = >>=-eq-ok (checked_sub after_fee reward) _ h3 in
    let e = ok-injective h4 in
    let (fl, fh) = bps_of-floor collateral c.fee_bps fee is_fee in
    let (rl, rh) = bps_of-floor collateral c.keeper_reward_bps reward is_reward in
    subst (Splits c collateral) e (record {
      fee_low = fl;
      fee_high = fh;
      reward_low = rl;
      reward_high = rh;
      whole =
          subst (λ (o : Payout). o.fee + o.keeper_reward + o.net_to_owner ≡ collateral) (sym e)
            whole;
    })

-- Under an accepted policy the owner's part of a computed payout is at least 93 % of the collateral,
-- and the three parts are the whole collateral.
pub compute_payout_net :
    (c : Config) (collateral : ℕ) (out : Payout)
    → IsPolicy c
    → compute_payout c collateral ≡ ok out
    → (collateral * 9300 ≤ out.net_to_owner * bps_denominator)
      × (out.fee + out.keeper_reward + out.net_to_owner ≡ collateral)
compute_payout_net c collateral out policy h =
    let v = compute_payout-Splits c collateral out h in
    let fee : collateral * c.fee_bps ≤ collateral * 500 = mul_mono collateral policy.fee_fits in
    let reward : collateral * c.keeper_reward_bps ≤ collateral * 200 =
      mul_mono collateral policy.reward_fits in
    (omega (arith, v.whole, v.fee_low, v.reward_low), v.whole)

-- A tick found no trigger and moved nothing, or closed the position for a trigger that holds at the
-- feed's price and paid out the whole collateral.
pub record Pays (env : Env) (ctx : TickPosition) (bank bank' : Bank) : Type 0 where
  pub c : Config
  pub f : PriceFeed
  pub p : Position
  pub p' : Position
  pub price : ℕ
  pub signed : env.is_signer ctx.keeper ≡ true
  pub has_config : bank.accounts ctx.config ≡ some (config c)
  pub has_feed : bank.accounts p.feed ≡ some (price_feed f)
  pub fresh : fresh_price env.unix_timestamp f ≡ ok price
  pub has_position : bank.accounts ctx.position ≡ some (position p)
  pub left : bank'.accounts ctx.position ≡ some (position p')
  pub receiver : ctx.fee_receiver ≡ c.fee_receiver
  pub owner : ctx.owner ≡ p.owner
  pub payment :
      (Quiet env.unix_timestamp price p p' × (bank'.lamports ≡ bank.lamports))
      ⊎ (Fired env.unix_timestamp price p p'
          × (out : Payout) × Splits c p.collateral out
          × PaysOut ctx out bank.lamports bank'.lamports)

-- A tick that succeeds is signed by its keeper, and has one of two results. If no trigger holds at
-- the fresh price of the position's feed, every balance and all but the tick in the position is as
-- it was. If one holds, the position is closed for it and emptied, and the whole collateral is paid
-- out: the fee's share, rounded down, to the configured receiver; the reward's, rounded down, to
-- the keeper; and all that is left to the position's owner. Every other balance is unchanged, and
-- this holds also where some of these accounts are one.
pub tick_position-Pays :
    (rt : Runtime) (env : Env) (ctx : TickPosition) (bank bank' : Bank)
    → tick_position rt env ctx bank ≡ ok bank'
    → Pays env ctx bank bank'
tick_position-Pays rt env ctx bank bank' h =
    let t = tick_position-Ticks rt env ctx bank bank' h in
    let same_l = ap (λ (b : Bank). b.lamports) t.left in
    let now = env.unix_timestamp in
    let r = tick_handler-Handled now ctx t.c t.f t.p bank.lamports t.out t.handled in
    let q = ticked now r.price t.p in
    let fires = evaluate_trigger-Fires q r.price r.trigger r.evaluated in
    let kept = (ticked_status now r.price t.p).1 in
    record {
      c = t.c;
      f = t.f;
      p = t.p;
      p' = t.out.position;
      price = r.price;
      signed = t.keeper_signed;
      has_config = t.has_config;
      has_feed = rw (← t.feed_matches) t.has_feed;
      fresh = r.fresh;
      has_position = t.has_position;
      left =
          ground (
            arith,
            ap (λ (b : Bank). b.accounts ctx.position) t.left,
            t.has_config,
            t.has_position,
          );
      receiver = t.receiver_matches;
      owner = t.owner_matches;
      payment =
          elim (finish_tick-cases now ctx r.trigger r.price t.c q bank.lamports t.out r.finished) [
            | inl (quiet, _, left, same, _) ↦
                inl ((subst (λ (n : ℕ). Fires q r.price n) quiet fires, left), same_l ∙ same)
            | inr (fired, s) ↦ inr (
              Fired-closed now r.trigger r.price t.p t.out.position s.closed fires fired,
              s.payout,
              subst (λ (n : ℕ). Splits t.c n s.payout) kept
                  (compute_payout-Splits t.c q.collateral s.payout s.computed),
              subst (PaysOut ctx s.payout bank.lamports) (sym same_l)
                  (pay_out-PaysOut ctx s.payout bank.lamports t.out.lamports s.paid),
            )
          ];
    }

sum_over-PaysOut :
    (ctx : TickPosition) (out : Payout) (l l' : Lamports) (ks : List Pubkey)
    → PaysOut ctx out l l'
    → sum_over ks l'
        + sum_over ks (at_key ctx.position (out.fee + out.keeper_reward + out.net_to_owner))
      ≡ sum_over ks l
        + sum_over ks (at_key ctx.fee_receiver out.fee)
        + sum_over ks (at_key ctx.keeper out.keeper_reward)
        + sum_over ks (at_key ctx.owner out.net_to_owner)
unfolding sum_over
sum_over-PaysOut ctx out l l' [] moved = omega arith
sum_over-PaysOut ctx out l l' (k ∷ ks) moved =
    omega (arith, moved k, sum_over-PaysOut ctx out l l' ks moved)

-- Over any list of accounts that names the position, the fee receiver, the keeper and the owner
-- equally often (once each, say), a tick that succeeds conserves the sum of the balances.
pub tick_position_conserves :
    (rt : Runtime) (env : Env) (ctx : TickPosition) (bank bank' : Bank) (ks : List Pubkey)
    → count ctx.fee_receiver ks ≡ count ctx.position ks
    → count ctx.keeper ks ≡ count ctx.position ks
    → count ctx.owner ks ≡ count ctx.position ks
    → tick_position rt env ctx bank ≡ ok bank'
    → sum_over ks bank'.lamports ≡ sum_over ks bank.lamports
tick_position_conserves rt env ctx bank bank' ks receiver keeper owner h =
    let t = tick_position-Pays rt env ctx bank bank' h in
    elim t.payment [
      | inl (_, same) ↦ ap (sum_over ks) same
      | inr (_, out, _, moved) ↦
          let total = sum_over-PaysOut ctx out bank.lamports bank'.lamports ks moved in
          let n = count ctx.position ks in
          let a =
            sum_over-at_key ks ctx.position (out.fee + out.keeper_reward + out.net_to_owner) in
          let b = sum_over-at_key ks ctx.fee_receiver out.fee in
          let d = sum_over-at_key ks ctx.keeper out.keeper_reward in
          let e = sum_over-at_key ks ctx.owner out.net_to_owner in
          omega (
            arith,
            total,
            a,
            b ∙ ap (λ (m : ℕ). m * out.fee) receiver,
            d ∙ ap (λ (m : ℕ). m * out.keeper_reward) keeper,
            e ∙ ap (λ (m : ℕ). m * out.net_to_owner) owner,
          )
    ]
