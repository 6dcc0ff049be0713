-- ===== src/Call.antt =====
-- programs/hwal/src/lib.rs: the twelve instructions of the program, each with its accounts and its
-- arguments.
use hwal.Prelude.{ℕ, List}
use hwal.Admin.{InitializeConfig, UpdateConfig, UpdateConfigArgs}
use hwal.Feed.{InitializePriceFeed, UpdatePriceFeed, RegisterLazerFeed}
use hwal.Lazer.{UpdatePriceFeedFromLazer}
use hwal.Triggers.{UpdateTriggers}
use hwal.Open.{OpenPosition, OpenArgs}
use hwal.Tick.{TickPosition}
use hwal.Cancel.{CancelPosition}
use hwal.Delegation.{DelegatePosition, UndelegatePosition}

pub data Call : Type 0 where
  initialize_config : (ctx : InitializeConfig) (fee_bps keeper_reward_bps : ℕ) → Call
  update_config : (ctx : UpdateConfig) (args : UpdateConfigArgs) → Call
  initialize_price_feed :
      (ctx : InitializePriceFeed) (symbol : List ℕ) (decimals initial_price : ℕ) → Call
  update_price_feed : (ctx : UpdatePriceFeed) (new_price : ℕ) → Call
  open_position : (ctx : OpenPosition) (args : OpenArgs) → Call
  update_triggers : (ctx : UpdateTriggers) (stop_price take_profit_price trailing_offset : ℕ) → Call
  tick_position : (ctx : TickPosition) → Call
  cancel_position : (ctx : CancelPosition) → Call
  register_lazer_feed : (ctx : RegisterLazerFeed) (lazer_feed_id channel : ℕ) → Call
  update_price_feed_from_lazer : (ctx : UpdatePriceFeedFromLazer) (payload : List ℕ) → Call
  delegate_position : (ctx : DelegatePosition) → Call
  undelegate_position : (ctx : UndelegatePosition) → Call
