-- ===== src/Constants.antt =====
-- programs/hwal/src/constants.rs, and the constants of programs/hwal/src/state/price_feed.rs.
-- A byte string is the list of its bytes; a `Pubkey` is the number that its 32 bytes spell in
-- little-endian order.
use hwal.Prelude.{ℕ, List, [], ◌∷◌}
use hwal.Prelude.Int.{ℤ, pos}

abbrev pub Pubkey : Type 0
Pubkey = ℕ

-- b"config"
abbrev pub config_seed : List ℕ
config_seed = b'c' ∷ b'o' ∷ b'n' ∷ b'f' ∷ b'i' ∷ b'g' ∷ []

-- b"feed"
abbrev pub feed_seed : List ℕ
feed_seed = b'f' ∷ b'e' ∷ b'e' ∷ b'd' ∷ []

-- b"position"
abbrev pub position_seed : List ℕ
position_seed = b'p' ∷ b'o' ∷ b's' ∷ b'i' ∷ b't' ∷ b'i' ∷ b'o' ∷ b'n' ∷ []

abbrev pub bps_denominator : ℕ
bps_denominator = 10_000

abbrev pub max_fee_bps : ℕ
max_fee_bps = 500

abbrev pub max_keeper_reward_bps : ℕ
max_keeper_reward_bps = 200

abbrev pub min_collateral_lamports : ℕ
min_collateral_lamports = 1_000_000

abbrev pub max_feed_staleness_secs : ℤ
max_feed_staleness_secs = pos 120

abbrev pub side_long : ℕ
side_long = 0

abbrev pub side_short : ℕ
side_short = 1

abbrev pub status_open : ℕ
status_open = 0

abbrev pub status_triggered : ℕ
status_triggered = 1

abbrev pub status_cancelled : ℕ
status_cancelled = 2

abbrev pub trigger_none : ℕ
trigger_none = 0

abbrev pub trigger_stop_loss : ℕ
trigger_stop_loss = 1

abbrev pub trigger_take_profit : ℕ
trigger_take_profit = 2

abbrev pub trigger_trailing : ℕ
trigger_trailing = 3

abbrev pub max_lazer_payload_age_secs : ℤ
max_lazer_payload_age_secs = pos 5

-- DELeGGvXpWV2fqJUhqcF5ZSYMS4JTLjteaAMARRSaeSh
abbrev pub magicblock_delegation_program_id : Pubkey
magicblock_delegation_program_id =
    0x3ea78093187e62cc9819e58ceb0635b897cf4a34012206ccc03a57f2e100b7b5

abbrev pub feed_source_authority : ℕ
feed_source_authority = 0

abbrev pub feed_source_lazer : ℕ
feed_source_lazer = 1

abbrev pub lazer_channel_200ms : ℕ
lazer_channel_200ms = 2
