-- ===== src/State.antt =====
-- programs/hwal/src/state/: the three account types, the zeroed value that a fresh account of
-- each type holds, and its size. A field `_pad` or `_reserved` of the source is `pad` or
-- `reserved`.
use hwal.Prelude.{ℕ, zero, suc, ◌+◌, ◌*◌, List, [], ◌∷◌}
use hwal.Prelude.Int.{ℤ, pos}
use hwal.Constants.{Pubkey}

pub record Config : Type 0 where
  pub admin : Pubkey
  pub fee_receiver : Pubkey
  pub fee_bps : ℕ
  pub keeper_reward_bps : ℕ
  pub total_positions_opened : ℕ
  pub total_positions_triggered : ℕ
  pub total_positions_cancelled : ℕ
  pub total_fees_collected : ℕ
  pub total_keeper_rewards_paid : ℕ
  pub bump : ℕ
  pub reserved : List ℕ

pub record PriceFeed : Type 0 where
  pub authority : Pubkey
  pub symbol : List ℕ
  pub decimals : ℕ
  pub price : ℕ
  pub last_updated : ℤ
  pub update_count : ℕ
  pub bump : ℕ
  pub source : ℕ
  pub lazer_channel : ℕ
  pub lazer_feed_id : ℕ
  pub reserved : List ℕ

pub record Position : Type 0 where
  pub owner : Pubkey
  pub feed : Pubkey
  pub vault : Pubkey
  pub nonce : ℕ
  pub side : ℕ
  pub status : ℕ
  pub trigger_reason : ℕ
  pub pad : ℕ
  pub collateral : ℕ
  pub entry_price : ℕ
  pub stop_price : ℕ
  pub take_profit_price : ℕ
  pub trailing_offset : ℕ
  pub trailing_extreme : ℕ
  pub opened_at : ℤ
  pub last_tick_at : ℤ
  pub settled_at : ℤ
  pub tick_count : ℕ
  pub bump : ℕ
  pub vault_bump : ℕ
  pub er_delegated : ℕ
  pub reserved : List ℕ

-- What an account of the program holds: the discriminator tells the three types apart.
pub data Account : Type 0 where
  config : Config → Account
  price_feed : PriceFeed → Account
  position : Position → Account

abbrev zeros : ℕ → List ℕ
zeros zero = []
zeros (suc n) = 0 ∷ zeros n

abbrev pub zero_config : Config
zero_config = record {
  admin = 0;
  fee_receiver = 0;
  fee_bps = 0;
  keeper_reward_bps = 0;
  total_positions_opened = 0;
  total_positions_triggered = 0;
  total_positions_cancelled = 0;
  total_fees_collected = 0;
  total_keeper_rewards_paid = 0;
  bump = 0;
  reserved = zeros 64;
}

abbrev pub zero_price_feed : PriceFeed
zero_price_feed = record {
  authority = 0;
  symbol = zeros 16;
  decimals = 0;
  price = 0;
  last_updated = pos 0;
  update_count = 0;
  bump = 0;
  source = 0;
  lazer_channel = 0;
  lazer_feed_id = 0;
  reserved = zeros 22;
}

abbrev pub zero_position : Position
zero_position = record {
  owner = 0;
  feed = 0;
  vault = 0;
  nonce = 0;
  side = 0;
  status = 0;
  trigger_reason = 0;
  pad = 0;
  collateral = 0;
  entry_price = 0;
  stop_price = 0;
  take_profit_price = 0;
  trailing_offset = 0;
  trailing_extreme = 0;
  opened_at = pos 0;
  last_tick_at = pos 0;
  settled_at = pos 0;
  tick_count = 0;
  bump = 0;
  vault_bump = 0;
  er_delegated = 0;
  reserved = zeros 31;
}

-- `8 + Config::INIT_SPACE`, and so on: the sum of the sizes of the fields.
abbrev pub config_space : ℕ
config_space = 8 + (2 * 32 + 2 * 2 + 5 * 8 + 1 + 64)

abbrev pub price_feed_space : ℕ
price_feed_space = 8 + (32 + 16 + 1 + 3 * 8 + 3 * 1 + 8 + 22)

abbrev pub position_space : ℕ
position_space = 8 + (3 * 32 + 8 + 4 * 1 + 6 * 8 + 3 * 8 + 8 + 3 * 1 + 31)
