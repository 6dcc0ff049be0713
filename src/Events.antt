-- ===== src/Events.antt =====
-- programs/hwal/src/events.rs: what `emit!` writes to the log. The fields stand in the order of
-- the source.
use hwal.Prelude.{ℕ, List}
use hwal.Prelude.Int.{ℤ}
use hwal.Constants.{Pubkey}

pub data Event : Type 0 where
  config_initialized : (admin : Pubkey) (fee_bps keeper_reward_bps : ℕ) → Event
  price_feed_initialized :
      (feed authority : Pubkey) (symbol : List ℕ) (decimals initial_price : ℕ) → Event
  price_feed_updated :
      (feed : Pubkey) (old_price new_price : ℕ) (timestamp : ℤ) (update_count : ℕ) → Event
  position_opened :
      (position owner feed : Pubkey)
      (side collateral entry_price stop_price take_profit_price trailing_offset : ℕ) (opened_at : ℤ)
      → Event
  triggers_updated : (position : Pubkey) (stop_price take_profit_price trailing_offset : ℕ) → Event
  position_ticked : (position : Pubkey) (price trailing_extreme : ℕ) (tick_at : ℤ) → Event
  position_triggered :
      (position owner : Pubkey)
      (trigger_reason trigger_price collateral_returned fee_paid keeper_reward : ℕ)
      (keeper : Pubkey) (triggered_at : ℤ)
      → Event
  position_cancelled :
      (position owner : Pubkey) (collateral_returned : ℕ) (cancelled_at : ℤ) → Event
  lazer_feed_registered : (feed : Pubkey) (lazer_feed_id channel : ℕ) → Event
  lazer_price_verified :
      (feed : Pubkey) (lazer_feed_id channel price : ℕ) (payload_timestamp on_chain_timestamp : ℤ)
      → Event
  position_delegated : (position owner : Pubkey) (delegated_at : ℤ) → Event
  position_undelegated : (position owner : Pubkey) (undelegated_at : ℤ) → Event
