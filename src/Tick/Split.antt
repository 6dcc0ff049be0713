-- ===== src/Tick/Split.antt =====
-- The split of a settled collateral, and the transfers that pay it out.
use hwal.Prelude.{ℕ, ◌+◌, ◌-◌, ◌*◌, ◌/◌, ◌≤◌, ◌≡◌, arith, Bool-cases, inl, inr, ltb}
use hwal.Prelude.Word.{u64_max}
use hwal.Prelude.Map.{at_key}
use hwal.Constants.{Pubkey, bps_denominator, max_fee_bps, max_keeper_reward_bps}
use hwal.Errors.{ok, >>=-eq-ok}
use hwal.State.{Config}
use hwal.Runtime.{Lamports, Moves}
use hwal.Utils.{checked_sub, transfer_lamports_from_pda}
use hwal.Utils.Bps.{bps_of-div}
use hwal.Utils.Transfer.{transfer_succeeds}
use hwal.Tick.{Payout, TickPosition, compute_payout, pay, pay_out}

-- The rates stay below the largest ones that the program accepts.
pub record IsPolicy (c : Config) : Type 0 where
  pub fee_fits : c.fee_bps ≤ max_fee_bps
  pub reward_fits : c.keeper_reward_bps ≤ max_keeper_reward_bps

-- The split that the two rates stand for.
abbrev pub share : ℕ → ℕ → ℕ
share amount bps = amount * bps / bps_denominator

abbrev pub payout_of : Config → ℕ → Payout
payout_of c collateral = record {
  fee = share collateral c.fee_bps;
  keeper_reward = share collateral c.keeper_reward_bps;
  net_to_owner = collateral - share collateral c.fee_bps - share collateral c.keeper_reward_bps;
}

-- Both shares together are at most 7 %.
shares_fit :
    (collateral fee reward : ℕ)
    → fee ≤ max_fee_bps
    → reward ≤ max_keeper_reward_bps
    → (share collateral fee + share collateral reward) * bps_denominator ≤ collateral * 700
shares_fit collateral fee reward hf hr = grind arith

-- Under an accepted policy the payout of every `u64` collateral is computed without an error: the
-- two shares rounded down, and the rest for the owner.
pub compute_payout-payout_of :
    (c : Config) (collateral : ℕ)
    → IsPolicy c
    → collateral ≤ u64_max
    → compute_payout c collateral ≡ ok (payout_of c collateral)
unfolding compute_payout checked_sub
compute_payout-payout_of c collateral v fits = ground (
  arith,
  bps_of-div collateral c.fee_bps fits,
  bps_of-div collateral c.keeper_reward_bps fits,
  shares_fit collateral c.fee_bps c.keeper_reward_bps,
)

-- However the payout came about, its three parts are the collateral.
pub compute_payout_sum :
    (c : Config) (collateral : ℕ) (out : Payout)
    → compute_payout c collateral ≡ ok out
    → out.fee + out.keeper_reward + out.net_to_owner ≡ collateral
unfolding compute_payout checked_sub
compute_payout_sum c collateral out h = ground arith

pub pay-Moves : (from to n : ℕ) (l l' : Lamports) → pay from to n l ≡ ok l' → Moves from to n l l'
unfolding pay transfer_lamports_from_pda
pay-Moves from to n l l' h k = ground arith

pub pay_succeeds :
    (from to n : ℕ) (l : Lamports)
    → n ≤ l from
    → l to + n ≤ u64_max
    → (l' : Lamports) × (pay from to n l ≡ ok l')
unfolding pay
pay_succeeds from to n l enough fits = elim (Bool-cases (ltb 0 n)) [
  | inl more ↦ rw more (transfer_succeeds l from to n enough fits)
  | inr nothing ↦ (l, rw nothing)
]

-- What the three transfers do to every balance, whichever of the accounts are one.
abbrev pub PaysOut : TickPosition → Payout → Lamports → Lamports → Type 0
PaysOut ctx out l l' =
    (k : Pubkey)
    → l' k + at_key ctx.position (out.fee + out.keeper_reward + out.net_to_owner) k
      ≡ l k
        + at_key ctx.fee_receiver out.fee k
        + at_key ctx.keeper out.keeper_reward k
        + at_key ctx.owner out.net_to_owner k

pub pay_out-PaysOut :
    (ctx : TickPosition) (out : Payout) (l l' : Lamports)
    → pay_out ctx out l ≡ ok l'
    → PaysOut ctx out l l'
unfolding pay_out
pay_out-PaysOut ctx out l l' h k =
    let (l1, h1, r1) = >>=-eq-ok (pay ctx.position ctx.fee_receiver out.fee l) _ h in
    let (l2, h2, h3) = >>=-eq-ok (pay ctx.position ctx.keeper out.keeper_reward l1) _ r1 in
    ground (
      arith,
      pay-Moves ctx.position ctx.fee_receiver out.fee l l1 h1 k,
      pay-Moves ctx.position ctx.keeper out.keeper_reward l1 l2 h2 k,
      pay-Moves ctx.position ctx.owner out.net_to_owner l2 l' h3 k,
    )

-- With enough lamports in the position's account, and no balance near the end of the range, the
-- three transfers go through.
pub pay_out_succeeds :
    (ctx : TickPosition) (out : Payout) (l : Lamports)
    → out.fee + out.keeper_reward + out.net_to_owner ≤ l ctx.position
    → ((k : Pubkey) → l k + l ctx.position ≤ u64_max)
    → (l' : Lamports) × (pay_out ctx out l ≡ ok l')
unfolding pay_out
pay_out_succeeds ctx out l enough room =
    let (l1, h1) =
      pay_succeeds ctx.position ctx.fee_receiver out.fee l (omega arith)
        (omega (arith, room ctx.fee_receiver)) in
    let m1 = pay-Moves ctx.position ctx.fee_receiver out.fee l l1 h1 in
    let (l2, h2) =
      pay_succeeds ctx.position ctx.keeper out.keeper_reward l1 (ground (arith, m1 ctx.position))
        (ground (arith, m1 ctx.keeper, room ctx.keeper, room ctx.fee_receiver)) in
    let m2 = pay-Moves ctx.position ctx.keeper out.keeper_reward l1 l2 h2 in
    let (l3, h3) =
      pay_succeeds ctx.position ctx.owner out.net_to_owner l2
        (ground (arith, m1 ctx.position, m2 ctx.position))
        (ground (arith, m1 ctx.owner, m2 ctx.owner, room ctx.owner)) in
    (l3, rw (h1, h2, h3))
