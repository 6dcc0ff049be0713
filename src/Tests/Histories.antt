-- ===== src/Tests/Histories.antt =====
-- Runs of the whole program, and the theorems on histories at them.
use hwal.Prelude.{ℕ, ◌≡◌, ◌≢◌, refl, some, List, [], ◌∷◌, arith}
use hwal.Prelude.Int.{pos}
use hwal.Prelude.Map.{sum_over, count}
use hwal.Errors.{ok}
use hwal.State.{zero_config, zero_price_feed, position, Config, PriceFeed, Position}
use hwal.Call.{Call}
use hwal.Program.{run}
use hwal.Tick.Settlement.{Pays, tick_position-Pays, tick_position_conserves}
use hwal.Cancel.Refund.{Refunds, cancel_position-Refunds}
use hwal.Chain.{BankStep}
use hwal.Chain.Steps.{execute-BankStep}
use hwal.Chain.Invariant.{IsBank, run-IsBank}
use hwal.Chain.Unique.{HasOneConfig, run-HasOneConfig}
use hwal.Chain.Lifecycle.{stage, StageStep, execute-StageStep, settled_frozen}
use hwal.Chain.Authority.{
  OnlyTicked, unsigned_position, OnlyVerified, unsigned_feed, OnlyCounted, unsigned_config,
}
use hwal.Constants.{magicblock_delegation_program_id}
use hwal.Delegation.{UndelegatePosition, undelegate_position}
use hwal.Delegation.Flag.{cancelled_stays_delegated}
use hwal.Tests.Sample.{sample, sample-IsRuntime}
use hwal.Tests.Scene.{
  alice, admin, keeper, treasury, delegate, pusher, config_key, feed_key, position_key, signed_by,
  empty, setup, scene, held, tick_ctx, cancel_ctx, fallen, ticked, delegated, cancelled,
}

-- The stop-loss pays 0.5 % to the treasury and 0.25 % to the keeper.
paid : ((ticked).lamports treasury ≡ 100_010_000) × (ticked.lamports keeper ≡ 100_005_000)
unfolding ticked
paid = (refl, refl)

run-IsBank_example : IsBank (run sample setup empty)
run-IsBank_example = run-IsBank sample sample-IsRuntime setup empty (record { accounts = λ k. tt })

execute-BankStep_example : BankStep sample (signed_by keeper 1021) fallen ticked
unfolding ticked
execute-BankStep_example =
    execute-BankStep sample sample-IsRuntime (signed_by keeper 1021) (Call.tick_position tick_ctx)
      fallen ticked refl

unsigned_position_example :
    OnlyTicked (signed_by keeper 1021) fallen held (ticked.accounts position_key)
unfolding ticked held
unsigned_position_example =
    unsigned_position sample sample-IsRuntime (signed_by keeper 1021) (Call.tick_position tick_ctx)
      fallen ticked position_key held refl refl refl

tick_position-Pays_example : Pays (signed_by keeper 1021) tick_ctx fallen ticked
unfolding ticked
tick_position-Pays_example =
    tick_position-Pays sample (signed_by keeper 1021) tick_ctx fallen ticked refl

abbrev parties : List ℕ
parties = position_key ∷ treasury ∷ keeper ∷ alice ∷ []

tick_position_conserves_example :
    sum_over parties ticked.lamports ≡ sum_over parties fallen.lamports
unfolding ticked count
tick_position_conserves_example =
    tick_position_conserves sample (signed_by keeper 1021) tick_ctx fallen ticked parties refl refl
      refl refl

abbrev closed : Position
closed = record held { collateral = 0; status = 2; er_delegated = 1; settled_at = pos 1025 }

settled_frozen_example :
    (run sample ((signed_by keeper 1030, Call.tick_position tick_ctx) ∷ []) cancelled).accounts
      position_key
    ≡ some (position closed)
unfolding cancelled held
settled_frozen_example =
    settled_frozen sample sample-IsRuntime
      ((signed_by keeper 1030, Call.tick_position tick_ctx) ∷ []) cancelled position_key closed
      (omega arith) refl

execute-StageStep_example :
    StageStep (stage (fallen.accounts position_key)) (stage (ticked.accounts position_key))
unfolding ticked
execute-StageStep_example =
    execute-StageStep sample sample-IsRuntime (signed_by keeper 1021) (Call.tick_position tick_ctx)
      fallen ticked position_key refl

cancel_position-Refunds_example : Refunds (signed_by alice 1025) cancel_ctx delegated cancelled
unfolding cancelled
cancel_position-Refunds_example =
    cancel_position-Refunds sample (signed_by alice 1025) cancel_ctx delegated cancelled refl

abbrev delegated_position : Position
delegated_position = record held { er_delegated = 1 }

abbrev undelegate_ctx : UndelegatePosition
undelegate_ctx = record {
  owner = alice;
  position = position_key;
  delegation_program = magicblock_delegation_program_id;
  delegation_record = 62;
  delegation_metadata = 63;
  system_program = 0;
}

cancelled_stays_delegated_example :
    ((p' : Position) × ((run sample [] cancelled).accounts position_key ≡ some (position p'))
      × (p'.er_delegated ≡ 1))
    × (undelegate_position sample (signed_by alice 1040) undelegate_ctx (run sample [] cancelled)
        ≢ ok cancelled)
unfolding cancelled held
cancelled_stays_delegated_example =
    cancelled_stays_delegated sample sample-IsRuntime (signed_by alice 1025) cancel_ctx delegated
      cancelled delegated_position [] (signed_by alice 1040) undelegate_ctx cancelled refl refl refl
      refl

abbrev feed_150 : PriceFeed
feed_150 = record zero_price_feed {
  authority = pusher;
  symbol = 1 ∷ [];
  decimals = 6;
  price = 150_000;
  last_updated = pos 1000;
  bump = 255;
}

unsigned_feed_example :
    OnlyVerified sample (signed_by alice 1015) scene feed_150 (delegated.accounts feed_key)
unfolding delegated scene
unsigned_feed_example =
    unsigned_feed sample sample-IsRuntime (signed_by alice 1015) delegate scene delegated feed_key
      feed_150 refl refl refl

abbrev config_150 : Config
config_150 = record zero_config {
  admin = admin;
  fee_receiver = treasury;
  fee_bps = 50;
  keeper_reward_bps = 25;
  bump = 255;
  total_positions_opened = 1;
}

unsigned_config_example : OnlyCounted config_150 (ticked.accounts config_key)
unfolding ticked
unsigned_config_example =
    unsigned_config sample sample-IsRuntime (signed_by keeper 1021) (Call.tick_position tick_ctx)
      fallen ticked config_key config_150 refl refl refl

empty-HasOneConfig : HasOneConfig sample empty
empty-HasOneConfig = record { at_derived = λ k c held. cc }

run-HasOneConfig_example : HasOneConfig sample (run sample setup empty)
run-HasOneConfig_example = run-HasOneConfig sample sample-IsRuntime setup empty empty-HasOneConfig
