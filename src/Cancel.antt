-- ===== src/Cancel.antt =====
-- programs/hwal/src/instructions/cancel_position.rs
pub mod Inversion
pub mod Refund
use hwal.Prelude.{◌==◌}
use hwal.Prelude.Int.{ℤ}
use hwal.Prelude.Word.{saturating_add}
use hwal.Constants.{Pubkey, status_open, status_cancelled}
use hwal.Errors.{Result, ok, program, not_position_owner, position_not_open, require, ◌>>=◌, ◌>>◌}
use hwal.Events.{position_cancelled}
use hwal.State.{Config, config, Position, position}
use hwal.Runtime.{Bank, Env, Lamports, Runtime}
use hwal.Accounts.{
  signer, load_config, load_position, address, seeds_match, config_seeds, position_seeds, store,
  emit,
}
use hwal.Tick.{Outcome, pay}

pub record CancelPosition : Type 0 where
  pub owner : Pubkey
  pub config : Pubkey
  pub position : Pubkey

unfoldable pub close_cancelled : ℤ → Position → Position
close_cancelled now p = record p { collateral = 0; status = status_cancelled; settled_at = now }

unfoldable pub count_cancelled : Config → Config
count_cancelled c = record c {
  total_positions_cancelled = saturating_add c.total_positions_cancelled 1;
}

unfoldable pub cancel_handler : ℤ → CancelPosition → Config → Position → Lamports → Result Outcome
cancel_handler now ctx c p l = do
  require (p.status == status_open) position_not_open
  paid ← pay ctx.position ctx.owner p.collateral l
  ok (record {
    config = count_cancelled c;
    position = close_cancelled now p;
    lamports = paid;
    event = position_cancelled ctx.position p.owner p.collateral now;
  })

unfoldable pub cancel_position : Runtime → Env → CancelPosition → Bank → Result Bank
cancel_position rt env ctx bank = do
  signer env ctx.owner
  c ← load_config bank ctx.config
  p ← load_position bank ctx.position
  address ctx.owner p.owner (program not_position_owner)
  seeds_match rt ctx.config config_seeds c.bump
  seeds_match rt ctx.position (position_seeds ctx.owner p.nonce) p.bump
  out ← cancel_handler env.unix_timestamp ctx c p bank.lamports
  ok (
      emit out.event (
        store ctx.config (config out.config)
          (store ctx.position (position out.position) (record bank { lamports = out.lamports }))))
