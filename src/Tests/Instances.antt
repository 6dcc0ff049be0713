-- ===== src/Tests/Instances.antt =====
-- The theorems on single operations at concrete accounts.
use hwal.Prelude.{
  ◌/◌, List, ◌==◌, ℕ, ◌+◌, ◌*◌, ◌<◌, ◌≤◌, ◌≡◌, ◌↔◌, refl, none, some, [], ◌∷◌, length, arith,
}
use hwal.Prelude.Int.{◌-ℤ◌, ℤ, pos}
use hwal.Prelude.Word.{saturating_sub, u64_max}
use hwal.Constants.{bps_denominator}
use hwal.Prelude.Map.{update}
use hwal.Errors.{ok, err, program, math_overflow, fee_bps_too_high, keeper_reward_too_high}
use hwal.State.{PriceFeed, zero_config, zero_price_feed}
use hwal.Accounts.{to_le_bytes}
use hwal.Utils.{bps_of, transfer_lamports_from_pda}
use hwal.Utils.Bps.{bps_of-eq-err, bps_of-floor}
use hwal.Utils.Transfer.{transfer-Moves, transfer_succeeds}
use hwal.Runtime.{Lamports, Moves}
use hwal.Open.{OpenArgs, fresh_price, check_open}
use hwal.Open.Fresh.{IsFresh, fresh_price_iff, check_open_iff}
use hwal.Positions.{HasLevels}
use hwal.Positions.Kept.{Opens}
use hwal.Triggers.{update_triggers_handler}
use hwal.Triggers.Update.{with_levels, update_triggers_iff}
use hwal.Admin.{UpdateConfigArgs, update_config_handler}
use hwal.Admin.Update.{update_config_cases, applied}
use hwal.Delegation.{build_delegate_instruction_data}
use hwal.Delegation.Wire.{wire_roundtrip}
use hwal.Lazer.{
  Payload, Verified, parse_payload, slice, from_le_bytes, bytes_eq, any_window, to_i64,
  check_payload, verify_lazer_signature_present, update_from_lazer_handler,
}
use hwal.Lazer.Acceptance.{Accepts, update_from_lazer_iff}
use hwal.Feed.{write_price}
use hwal.Runtime.{Env}
use hwal.Tests.Sample.{sample}
use hwal.Lazer.Layout.{parse-encode, encode_payload}
use hwal.Tests.Scene.{alice, keeper, held}

share_example : bps_of 2_000_000 50 ≡ ok 10_000
unfolding bps_of
share_example = refl

bps_of-floor_example :
    (10_000 * bps_denominator ≤ 2_000_000 * 50) × (2_000_000 * 50 < (10_000 + 1) * bps_denominator)
bps_of-floor_example = bps_of-floor 2_000_000 50 10_000 share_example

bps_of-eq-err_example :
    ((bps_of u64_max 20_000 ≡ ok (u64_max * 20_000 / bps_denominator))
      ↔ (u64_max * 20_000 < (u64_max + 1) * bps_denominator))
    × ((bps_of u64_max 20_000 ≡ err (program math_overflow)) ↔ (
        (program math_overflow ≡ program math_overflow)
        × ((u64_max + 1) * bps_denominator ≤ u64_max * 20_000)))
bps_of-eq-err_example =
    bps_of-eq-err u64_max 20_000 (program math_overflow) (omega arith) (omega arith)

abbrev purse : Lamports
purse k = 100

abbrev after : Lamports
after = update (update purse alice 70) keeper 130

transfer-Moves_example : Moves alice keeper 30 purse after
unfolding transfer_lamports_from_pda
transfer-Moves_example = transfer-Moves purse alice keeper 30 after refl

transfer_succeeds_example :
    (l' : Lamports) × (transfer_lamports_from_pda purse alice keeper 30 ≡ ok l')
transfer_succeeds_example = transfer_succeeds purse alice keeper 30 (omega arith) (omega arith)

abbrev feed_at : ℕ → ℕ → PriceFeed
feed_at price time = record zero_price_feed { price = price; last_updated = pos time }

fresh_price_iff_example :
    (fresh_price (pos 1010) (feed_at 150_000 1000) ≡ ok 150_000)
    ↔ (IsFresh (pos 1010) (feed_at 150_000 1000) × (150_000 ≡ (feed_at 150_000 1000).price))
fresh_price_iff_example = fresh_price_iff (pos 1010) (feed_at 150_000 1000) 150_000

abbrev short_args : OpenArgs
short_args = record {
  nonce = 7;
  side = 1;
  collateral = 2_000_000;
  stop_price = 160_000;
  take_profit_price = 140_000;
  trailing_offset = 0;
}

check_open_iff_example :
    (check_open (pos 1010) (feed_at 150_000 1000) short_args ≡ ok 150_000)
    ↔ Opens (pos 1010) (feed_at 150_000 1000) short_args 150_000
check_open_iff_example = check_open_iff (pos 1010) (feed_at 150_000 1000) short_args 150_000

update_triggers_iff_example :
    (update_triggers_handler 145_000 0 4_000 held ≡ ok (with_levels 145_000 0 4_000 held)) ↔ (
      (held.status ≡ 0)
      × HasLevels held.side held.entry_price 145_000 0 4_000
      × (with_levels 145_000 0 4_000 held ≡ with_levels 145_000 0 4_000 held))
update_triggers_iff_example =
    update_triggers_iff 145_000 0 4_000 held (with_levels 145_000 0 4_000 held)

abbrev greedy : UpdateConfigArgs
greedy = record {
  new_admin = none;
  new_fee_receiver = some alice;
  new_fee_bps = some 501;
  new_keeper_reward_bps = some 201;
}

update_config_cases_example :
    ((update_config_handler greedy zero_config ≡ ok (applied greedy zero_config))
      ↔ ((501 ≤ 500) × (201 ≤ 200) × (applied greedy zero_config ≡ applied greedy zero_config)))
    × ((update_config_handler greedy zero_config ≡ err (program fee_bps_too_high))
        ↔ (¬ (501 ≤ 500)))
    × ((update_config_handler greedy zero_config ≡ err (program keeper_reward_too_high))
        ↔ ((501 ≤ 500) × (¬ (201 ≤ 200))))
update_config_cases_example = update_config_cases greedy zero_config (applied greedy zero_config)

abbrev report : Payload
report = record { feed_id = 2; payload_timestamp = ℤ.negsuc 4; new_price = 151_000; channel = 1 }

parse-encode_example : parse_payload (encode_payload report (9 ∷ [])) ≡ ok report
parse-encode_example =
    parse-encode report (9 ∷ [])
      (record { feed_id = omega arith; payload_timestamp = omega arith; new_price = omega arith })

wire_roundtrip_example :
    (length (build_delegate_instruction_data alice (to_le_bytes 8 1)) ≡ 41)
    × (from_le_bytes (slice 1 32 (build_delegate_instruction_data alice (to_le_bytes 8 1))) ≡ alice)
    × (from_le_bytes (slice 33 8 (build_delegate_instruction_data alice (to_le_bytes 8 1))) ≡ 1)
wire_roundtrip_example = wire_roundtrip alice 1 (omega arith) (omega arith)

-- The instruction before is any ed25519 instruction with the payload behind two other bytes.
abbrev message : List ℕ
message =
    encode_payload
      (record { feed_id = 2; payload_timestamp = pos 1008; new_price = 151_000; channel = 1 }) []

abbrev attested : Env
attested = record {
  unix_timestamp = pos 1010;
  is_signer = λ k. k == alice;
  load_current_index = some 1;
  load_instruction_at = λ i. some (record { program_id = 77; metas = []; input = 7 ∷ 8 ∷ message });
}

abbrev lazer_feed : PriceFeed
lazer_feed = record zero_price_feed {
  source = 1;
  lazer_feed_id = 2;
  lazer_channel = 1;
  price = 150_000;
  last_updated = pos 900;
}

abbrev accepted : Verified
accepted = record {
  feed = record lazer_feed { price = 151_000; last_updated = pos 1010; update_count = 1 };
  payload = record { feed_id = 2; payload_timestamp = pos 1008; new_price = 151_000; channel = 1 };
}

accepts : update_from_lazer_handler sample attested message lazer_feed ≡ ok accepted
unfolding update_from_lazer_handler parse_payload check_payload verify_lazer_signature_present
    any_window bytes_eq from_le_bytes to_i64 slice to_le_bytes write_price saturating_sub ◌-ℤ◌
accepts = refl

update_from_lazer_iff_example :
    (update_from_lazer_handler sample attested message lazer_feed ≡ ok accepted)
    ↔ Accepts sample attested message lazer_feed accepted
update_from_lazer_iff_example = update_from_lazer_iff sample attested message lazer_feed accepted
