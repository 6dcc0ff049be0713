-- ===== src/Tests/Opening.antt =====
-- A second position of the same owner on the chain of the scene.
use hwal.Prelude.{◌≡◌, refl}
use hwal.Prelude.Int.{◌-ℤ◌}
use hwal.Prelude.Word.{saturating_sub}
use hwal.Runtime.{Bank}
use hwal.Accounts.{to_le_bytes, key_bytes}
use hwal.Triggers.{check_triggers}
use hwal.Open.{
  OpenPosition, OpenArgs, fresh_price, check_open, opened_position, count_opened, open_position,
}
use hwal.Open.Funding.{IsFunded, open_position-IsFunded}
use hwal.Program.{settled_or}
use hwal.Tests.Sample.{sample, sample-IsRuntime}
use hwal.Tests.Scene.{alice, config_key, feed_key, signed_by, scene}

abbrev second_ctx : OpenPosition
second_ctx = record {
  owner = alice;
  config = config_key;
  feed = feed_key;
  position = 1152;
  system_program = 0;
}

abbrev second_args : OpenArgs
second_args = record {
  nonce = 2;
  side = 1;
  collateral = 3_000_000;
  stop_price = 160_000;
  take_profit_price = 0;
  trailing_offset = 1_000;
}

unfoldable opened : Bank
unfolding scene open_position check_open fresh_price check_triggers opened_position count_opened
    to_le_bytes key_bytes saturating_sub ◌-ℤ◌
opened = settled_or scene (open_position sample (signed_by alice 1030) second_ctx second_args scene)

deposited : opened.lamports 1152 ≡ 103_000_230
unfolding opened
deposited = refl

open_position-IsFunded_example :
    IsFunded sample (signed_by alice 1030) second_ctx second_args scene opened
unfolding opened
open_position-IsFunded_example =
    open_position-IsFunded sample sample-IsRuntime (signed_by alice 1030) second_ctx second_args
      scene opened refl
