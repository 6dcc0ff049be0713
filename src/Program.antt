-- ===== src/Program.antt =====
-- programs/hwal/src/lib.rs: the dispatch of an instruction to its handler, and the history of a
-- chain. A transaction that fails leaves every account as it was.
pub mod Runs
use hwal.Prelude.{List, [], ◌∷◌}
use hwal.Errors.{Result, ok, err}
use hwal.Runtime.{Bank, Env, Runtime}
use hwal.Call.{Call}
use hwal.Admin.{initialize_config, update_config}
use hwal.Feed.{initialize_price_feed, update_price_feed, register_lazer_feed}
use hwal.Lazer.{update_price_feed_from_lazer}
use hwal.Triggers.{update_triggers}
use hwal.Open.{open_position}
use hwal.Tick.{tick_position}
use hwal.Cancel.{cancel_position}
use hwal.Delegation.{delegate_position, undelegate_position}

unfoldable pub execute : Runtime → Env → Call → Bank → Result Bank
execute rt env (Call.initialize_config ctx f k) = initialize_config rt env ctx f k
execute rt env (Call.update_config ctx args) = update_config rt env ctx args
execute rt env (Call.initialize_price_feed ctx s d p) = initialize_price_feed rt env ctx s d p
execute rt env (Call.update_price_feed ctx p) = update_price_feed env ctx p
execute rt env (Call.open_position ctx args) = open_position rt env ctx args
execute rt env (Call.update_triggers ctx s t o) = update_triggers rt env ctx s t o
execute rt env (Call.tick_position ctx) = tick_position rt env ctx
execute rt env (Call.cancel_position ctx) = cancel_position rt env ctx
execute rt env (Call.register_lazer_feed ctx i c) = register_lazer_feed rt env ctx i c
execute rt env (Call.update_price_feed_from_lazer ctx p) = update_price_feed_from_lazer rt env ctx p
execute rt env (Call.delegate_position ctx) = delegate_position rt env ctx
execute rt env (Call.undelegate_position ctx) = undelegate_position rt env ctx

-- What a transaction leaves: the new bank, or the old one after an error.
abbrev pub settled_or : Bank → Result Bank → Bank
settled_or bank (ok bank') = bank'
settled_or bank (err e) = bank

-- A history: transactions in the order in which the chain ran them.
unfoldable pub run : Runtime → List (Env × Call) → Bank → Bank
run rt [] bank = bank
run rt ((env, call) ∷ rest) bank = run rt rest (settled_or bank (execute rt env call bank))
