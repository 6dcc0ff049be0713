-- ===== src/Tests/Scene.antt =====
-- A chain with a configuration, a feed and an open position, made by the program itself.
use hwal.Prelude.{ℕ, none, List, [], ◌∷◌, ◌==◌}
use hwal.Prelude.Int.{pos, ◌-ℤ◌}
use hwal.Prelude.Word.{saturating_sub}
use hwal.Constants.{Pubkey, magicblock_delegation_program_id}
use hwal.Runtime.{Bank, Env}
use hwal.Accounts.{to_le_bytes, key_bytes}
use hwal.Admin.{initialize_config_handler, initialize_config}
use hwal.Feed.{
  initialize_price_feed_handler, initialize_price_feed, write_price, update_price_feed_handler,
  update_price_feed,
}
use hwal.Triggers.{check_triggers}
use hwal.Open.{fresh_price, check_open, opened_position, count_opened, open_position}
use hwal.State.{Position}
use hwal.Utils.{bps_of, checked_sub, transfer_lamports_from_pda}
use hwal.Tick.{
  TickPosition, count_tick, advance_extreme, evaluate_trigger, compute_payout, pay, pay_out,
  close_triggered, count_triggered, settle, finish_tick, tick_handler, tick_position,
}
use hwal.Cancel.{CancelPosition, close_cancelled, count_cancelled, cancel_handler, cancel_position}
use hwal.Delegation.{DelegatePosition, delegate_ix, signer_seeds, delegate_position}
use hwal.Call.{Call}
use hwal.Program.{execute, run, settled_or}
use hwal.Tests.Sample.{sample}

abbrev pub alice : Pubkey
alice = 10

abbrev pub admin : Pubkey
admin = 20

abbrev pub keeper : Pubkey
keeper = 30

abbrev pub treasury : Pubkey
treasury = 40

abbrev pub pusher : Pubkey
pusher = 50

-- The derived addresses of the sample runtime.
abbrev pub config_key : Pubkey
config_key = 885

abbrev pub feed_key : Pubkey
feed_key = 660

abbrev pub position_key : Pubkey
position_key = 1151

-- A transaction at a time, with one signer.
abbrev pub signed_by : Pubkey → ℕ → Env
signed_by key now = record {
  unix_timestamp = pos now;
  is_signer = λ k. k == key;
  load_current_index = none;
  load_instruction_at = λ i. none;
}

abbrev pub empty : Bank
empty = record { lamports = λ k. 100_000_000; accounts = λ k. none; log = [] }

abbrev pub setup : List (Env × Call)
setup =
    (
      signed_by admin 1000,
      Call.initialize_config
          (record {
            admin = admin;
            fee_receiver = treasury;
            config = config_key;
            system_program = 0;
          })
          50 25,
    )
    ∷ (
      signed_by admin 1000,
      Call.initialize_price_feed
          (record {
            admin = admin;
            config = config_key;
            authority = pusher;
            feed = feed_key;
            system_program = 0;
          })
          (1 ∷ []) 6 150_000,
    )
    ∷ (
      signed_by alice 1010,
      Call.open_position
          (record {
            owner = alice;
            config = config_key;
            feed = feed_key;
            position = position_key;
            system_program = 0;
          })
          (record {
            nonce = 1;
            side = 0;
            collateral = 2_000_000;
            stop_price = 140_000;
            take_profit_price = 0;
            trailing_offset = 5_000;
          }),
    )
    ∷ []

-- The chain after the set-up.
unfoldable pub scene : Bank
unfolding run execute initialize_config initialize_config_handler initialize_price_feed
    initialize_price_feed_handler open_position check_open fresh_price check_triggers
    opened_position count_opened to_le_bytes key_bytes saturating_sub ◌-ℤ◌
scene = run sample setup empty

-- The position as the set-up opens it.
unfoldable pub held : Position
unfolding opened_position
held =
    opened_position (pos 1010)
      (record {
        owner = alice;
        config = config_key;
        feed = feed_key;
        position = position_key;
        system_program = 0;
      })
      255
      (record {
        nonce = 1;
        side = 0;
        collateral = 2_000_000;
        stop_price = 140_000;
        take_profit_price = 0;
        trailing_offset = 5_000;
      })
      150_000

abbrev pub push : ℕ → Call
push price = Call.update_price_feed (record { authority = pusher; feed = feed_key }) price

abbrev pub tick_ctx : TickPosition
tick_ctx = record {
  keeper = keeper;
  config = config_key;
  feed = feed_key;
  position = position_key;
  owner = alice;
  fee_receiver = treasury;
}

abbrev pub cancel_ctx : CancelPosition
cancel_ctx = record { owner = alice; config = config_key; position = position_key }

-- The price falls below the stop, and the keeper ticks.
unfoldable pub fallen : Bank
unfolding scene execute update_price_feed update_price_feed_handler write_price
fallen = settled_or scene (execute sample (signed_by pusher 1020) (push 139_000) scene)

unfoldable pub ticked : Bank
unfolding fallen execute tick_position tick_handler fresh_price count_tick advance_extreme
    evaluate_trigger finish_tick settle compute_payout bps_of checked_sub pay_out pay
    transfer_lamports_from_pda close_triggered count_triggered saturating_sub ◌-ℤ◌ to_le_bytes
    key_bytes
ticked =
    settled_or fallen (execute sample (signed_by keeper 1021) (Call.tick_position tick_ctx) fallen)

abbrev pub delegate_ctx : DelegatePosition
delegate_ctx = record {
  owner = alice;
  position = position_key;
  delegation_program = magicblock_delegation_program_id;
  delegation_buffer = 61;
  delegation_record = 62;
  delegation_metadata = 63;
  system_program = 0;
}

abbrev pub delegate : Call
delegate = Call.delegate_position delegate_ctx

-- The owner delegates the position, and cancels it.
unfoldable pub delegated : Bank
unfolding scene execute delegate_position delegate_ix signer_seeds to_le_bytes key_bytes
delegated = settled_or scene (execute sample (signed_by alice 1015) delegate scene)

unfoldable pub cancelled : Bank
unfolding delegated execute cancel_position cancel_handler pay transfer_lamports_from_pda
    close_cancelled count_cancelled to_le_bytes key_bytes
cancelled =
    settled_or delegated
      (execute sample (signed_by alice 1025) (Call.cancel_position cancel_ctx) delegated)
