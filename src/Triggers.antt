-- ===== src/Triggers.antt =====
-- The trigger levels of a position: the checks that open_position.rs and update_triggers.rs both
-- make, and programs/hwal/src/instructions/update_triggers.rs.
pub mod Update
use hwal.Prelude.{ℕ, Bool, not, ltb, ◌==◌, if◌then◌else◌}
use hwal.Constants.{Pubkey, side_long, status_open}
use hwal.Errors.{
  Result, ok, program, HwalError, not_position_owner, position_not_open, invalid_stop_price,
  invalid_take_profit_price, invalid_trailing_offset, require, ◌>>=◌, ◌>>◌,
}
use hwal.Events.{triggers_updated}
use hwal.State.{Position, position}
use hwal.Runtime.{Bank, Env, Runtime}
use hwal.Accounts.{signer, load_position, address, seeds_match, position_seeds, store, emit}

-- `if level > 0 { require!(test, error) }`: a level of 0 is switched off.
abbrev pub require_if_set : ℕ → Bool → HwalError → Result (Unit {0})
require_if_set level test e = if ltb 0 level then require test e else ok tt

-- The levels of a long position, and of a short one.
unfoldable pub check_long : ℕ → ℕ → ℕ → Result (Unit {0})
check_long entry_price stop_price take_profit_price = do
  require_if_set stop_price (ltb stop_price entry_price) invalid_stop_price
  require_if_set take_profit_price (ltb entry_price take_profit_price) invalid_take_profit_price

unfoldable pub check_short : ℕ → ℕ → ℕ → Result (Unit {0})
check_short entry_price stop_price take_profit_price = do
  require_if_set stop_price (ltb entry_price stop_price) invalid_stop_price
  require_if_set take_profit_price (ltb take_profit_price entry_price) invalid_take_profit_price

unfoldable pub check_triggers : ℕ → ℕ → ℕ → ℕ → ℕ → Result (Unit {0})
unfolding check_long check_short
check_triggers side entry_price stop_price take_profit_price trailing_offset = do
  if side == side_long
      then check_long entry_price stop_price take_profit_price
      else check_short entry_price stop_price take_profit_price
  require_if_set trailing_offset (ltb trailing_offset entry_price) invalid_trailing_offset

pub record UpdateTriggers : Type 0 where
  pub owner : Pubkey
  pub position : Pubkey

-- The new levels; a new trailing offset starts the extreme again at the entry price.
unfoldable pub set_triggers : ℕ → ℕ → ℕ → Position → Position
set_triggers stop_price take_profit_price trailing_offset p =
    let levels = record p { stop_price = stop_price; take_profit_price = take_profit_price } in
    if not (trailing_offset == p.trailing_offset)
    then record levels { trailing_offset = trailing_offset; trailing_extreme = p.entry_price }
    else levels

unfoldable pub update_triggers_handler : ℕ → ℕ → ℕ → Position → Result Position
update_triggers_handler stop_price take_profit_price trailing_offset p = do
  require (p.status == status_open) position_not_open
  check_triggers p.side p.entry_price stop_price take_profit_price trailing_offset
  ok (set_triggers stop_price take_profit_price trailing_offset p)

unfoldable pub update_triggers : Runtime → Env → UpdateTriggers → ℕ → ℕ → ℕ → Bank → Result Bank
update_triggers rt env ctx stop_price take_profit_price trailing_offset bank = do
  signer env ctx.owner
  p ← load_position bank ctx.position
  address ctx.owner p.owner (program not_position_owner)
  seeds_match rt ctx.position (position_seeds ctx.owner p.nonce) p.bump
  p' ← update_triggers_handler stop_price take_profit_price trailing_offset p
  ok (
      emit (triggers_updated ctx.position stop_price take_profit_price trailing_offset)
        (store ctx.position (position p') bank))
