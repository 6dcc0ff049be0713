-- ===== src/Chain/Steps.antt =====
-- Every instruction that succeeds makes a step at every account: the program refines the abstract
-- view of `AccountStep`.
mod Writes
mod Policy
mod Feeds
mod Entry
mod Exit
mod Terms
use hwal.Prelude.{◌≡◌}
use hwal.Errors.{ok}
use hwal.Runtime.{Bank, Env, Runtime, IsRuntime}
use hwal.Call.{Call}
use hwal.Program.{execute}
use hwal.Chain.{BankStep}
use Policy.{initialize_config-BankStep, update_config-BankStep}
use Feeds.{
  initialize_price_feed-BankStep, update_price_feed-BankStep, register_lazer_feed-BankStep,
  update_price_feed_from_lazer-BankStep,
}
use Entry.{open_position-BankStep}
use Exit.{tick_position-BankStep, cancel_position-BankStep}
use Terms.{update_triggers-BankStep, delegate_position-BankStep, undelegate_position-BankStep}

-- Over a runtime that behaves as documented, an instruction that succeeds changes every account of
-- the chain, its contents and its balance, by an `AccountStep`: with the signature that the step
-- names, a new account at its derived address, an opening at the fresh price of the feed that the
-- position names, and the counters of the configuration one event further or as they were.
pub execute-BankStep :
    (rt : Runtime) (laws : IsRuntime rt) (env : Env) (call : Call) (bank bank' : Bank)
    → execute rt env call bank ≡ ok bank'
    → BankStep rt env bank bank'
unfolding execute
execute-BankStep rt laws env (Call.initialize_config ctx f k) b b' h =
    initialize_config-BankStep rt laws env ctx f k b b' h
execute-BankStep rt laws env (Call.update_config ctx args) b b' h =
    update_config-BankStep rt env ctx args b b' h
execute-BankStep rt laws env (Call.initialize_price_feed ctx s d p) b b' h =
    initialize_price_feed-BankStep rt laws env ctx s d p b b' h
execute-BankStep rt laws env (Call.update_price_feed ctx p) b b' h =
    update_price_feed-BankStep rt env ctx p b b' h
execute-BankStep rt laws env (Call.open_position ctx args) b b' h =
    open_position-BankStep rt laws env ctx args b b' h
execute-BankStep rt laws env (Call.update_triggers ctx s t o) b b' h =
    update_triggers-BankStep rt env ctx s t o b b' h
execute-BankStep rt laws env (Call.tick_position ctx) b b' h =
    tick_position-BankStep rt env ctx b b' h
execute-BankStep rt laws env (Call.cancel_position ctx) b b' h =
    cancel_position-BankStep rt env ctx b b' h
execute-BankStep rt laws env (Call.register_lazer_feed ctx i c) b b' h =
    register_lazer_feed-BankStep rt env ctx i c b b' h
execute-BankStep rt laws env (Call.update_price_feed_from_lazer ctx p) b b' h =
    update_price_feed_from_lazer-BankStep rt env ctx p b b' h
execute-BankStep rt laws env (Call.delegate_position ctx) b b' h =
    delegate_position-BankStep rt laws env ctx b b' h
execute-BankStep rt laws env (Call.undelegate_position ctx) b b' h =
    undelegate_position-BankStep rt laws env ctx b b' h
