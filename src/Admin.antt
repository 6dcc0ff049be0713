-- ===== src/Admin.antt =====
-- programs/hwal/src/instructions/initialize_config.rs and update_config.rs: the program-wide
-- policy. Each instruction is its account checks, then its handler, then the writing back.
pub mod Update
use hwal.Prelude.{ℕ, Option, none, some, leb}
use hwal.Constants.{Pubkey, max_fee_bps, max_keeper_reward_bps}
use hwal.Errors.{
  Result, ok, program, fee_bps_too_high, keeper_reward_too_high, not_admin, require, ◌>>=◌, ◌>>◌,
}
use hwal.Events.{config_initialized}
use hwal.State.{Config, config, zero_config, config_space}
use hwal.Runtime.{Bank, Env, Runtime}
use hwal.Accounts.{
  signer, load_config, system_program, address, seeds_match, config_seeds, init, store, emit,
}

pub record InitializeConfig : Type 0 where
  pub admin : Pubkey
  pub fee_receiver : Pubkey
  pub config : Pubkey
  pub system_program : Pubkey

-- The handler on the zeroed account; `bump` is `ctx.bumps.config`.
unfoldable pub initialize_config_handler : InitializeConfig → ℕ → ℕ → ℕ → Config → Result Config
initialize_config_handler ctx bump fee_bps keeper_reward_bps zeroed = do
  require (leb fee_bps max_fee_bps) fee_bps_too_high
  require (leb keeper_reward_bps max_keeper_reward_bps) keeper_reward_too_high
  ok (record zeroed {
    admin = ctx.admin;
    fee_receiver = ctx.fee_receiver;
    fee_bps = fee_bps;
    keeper_reward_bps = keeper_reward_bps;
    total_positions_opened = 0;
    total_positions_triggered = 0;
    total_positions_cancelled = 0;
    total_fees_collected = 0;
    total_keeper_rewards_paid = 0;
    bump = bump;
  })

unfoldable pub initialize_config : Runtime → Env → InitializeConfig → ℕ → ℕ → Bank → Result Bank
initialize_config rt env ctx fee_bps keeper_reward_bps bank = do
  signer env ctx.admin
  system_program rt ctx.system_program
  created ← init rt ctx.admin ctx.config config_space config_seeds bank
  c ← initialize_config_handler ctx created.0 fee_bps keeper_reward_bps zero_config
  ok (
      emit (config_initialized c.admin fee_bps keeper_reward_bps)
        (store ctx.config (config c) (record bank { lamports = created.1 })))

pub record UpdateConfig : Type 0 where
  pub admin : Pubkey
  pub config : Pubkey

pub record UpdateConfigArgs : Type 0 where
  pub new_admin : Option Pubkey
  pub new_fee_receiver : Option Pubkey
  pub new_fee_bps : Option ℕ
  pub new_keeper_reward_bps : Option ℕ

set_admin : Option Pubkey → Config → Config
set_admin none c = c
set_admin (some admin) c = record c { admin = admin }

set_fee_receiver : Option Pubkey → Config → Config
set_fee_receiver none c = c
set_fee_receiver (some receiver) c = record c { fee_receiver = receiver }

set_fee_bps : Option ℕ → Config → Result Config
set_fee_bps none c = ok c
set_fee_bps (some fee_bps) c = do
  require (leb fee_bps max_fee_bps) fee_bps_too_high
  ok (record c { fee_bps = fee_bps })

set_keeper_reward_bps : Option ℕ → Config → Result Config
set_keeper_reward_bps none c = ok c
set_keeper_reward_bps (some reward_bps) c = do
  require (leb reward_bps max_keeper_reward_bps) keeper_reward_too_high
  ok (record c { keeper_reward_bps = reward_bps })

-- Each argument that is given replaces its field, in the order of the source.
unfoldable pub update_config_handler : UpdateConfigArgs → Config → Result Config
unfolding set_admin set_fee_receiver set_fee_bps set_keeper_reward_bps
update_config_handler args c = do
  let named = set_fee_receiver args.new_fee_receiver (set_admin args.new_admin c)
  priced ← set_fee_bps args.new_fee_bps named
  set_keeper_reward_bps args.new_keeper_reward_bps priced

unfoldable pub update_config : Runtime → Env → UpdateConfig → UpdateConfigArgs → Bank → Result Bank
update_config rt env ctx args bank = do
  signer env ctx.admin
  c ← load_config bank ctx.config
  address ctx.admin c.admin (program not_admin)
  seeds_match rt ctx.config config_seeds c.bump
  c' ← update_config_handler args c
  ok (store ctx.config (config c') bank)
