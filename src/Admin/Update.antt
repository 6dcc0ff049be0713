-- ===== src/Admin/Update.antt =====
-- What an update of the configuration accepts and writes.
use hwal.Prelude.{ℕ, ◌≤◌, ◌≡◌, ◌↔◌, Option, none, some, arith}
use hwal.Constants.{max_fee_bps, max_keeper_reward_bps}
use hwal.Errors.{ok, err, program, fee_bps_too_high, keeper_reward_too_high}
use hwal.State.{Config}
use hwal.Admin.{UpdateConfigArgs, update_config_handler}

-- The argument if one is given, and the old value if not.
abbrev pub given : Option ℕ → ℕ → ℕ
given none old = old
given (some new) old = new

-- A rate that is given is within its limit.
abbrev pub WithinLimit : Option ℕ → ℕ → Type 0
WithinLimit none limit = Unit
WithinLimit (some rate) limit = rate ≤ limit

-- The configuration with the given arguments in place.
abbrev pub applied : UpdateConfigArgs → Config → Config
applied args c = record c {
  admin = given args.new_admin c.admin;
  fee_receiver = given args.new_fee_receiver c.fee_receiver;
  fee_bps = given args.new_fee_bps c.fee_bps;
  keeper_reward_bps = given args.new_keeper_reward_bps c.keeper_reward_bps;
}

-- An update succeeds exactly if each rate that is given is within its limit, and then it replaces
-- just the fields that are given; it is refused for the fee rate exactly if that is above its limit,
-- and for the keeper reward exactly if only that is.
pub update_config_cases :
    (args : UpdateConfigArgs) (c c' : Config)
    → ((update_config_handler args c ≡ ok c') ↔ (
        WithinLimit args.new_fee_bps max_fee_bps
        × WithinLimit args.new_keeper_reward_bps max_keeper_reward_bps
        × (c' ≡ applied args c)))
      × ((update_config_handler args c ≡ err (program fee_bps_too_high))
          ↔ (¬ WithinLimit args.new_fee_bps max_fee_bps))
      × ((update_config_handler args c ≡ err (program keeper_reward_too_high)) ↔ (
          WithinLimit args.new_fee_bps max_fee_bps
          × (¬ WithinLimit args.new_keeper_reward_bps max_keeper_reward_bps)))
unfolding update_config_handler
update_config_cases args c c' = ground arith
