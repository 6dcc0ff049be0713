-- ===== src/Lib.antt =====
-- Hwal: a Solana program that holds SOL in positions and pays them out when a price trigger fires.
--
-- An admin writes one configuration (who receives fees, and two rates in basis points) and creates
-- price feeds. A feed gets its price from its authority or, once it is registered for Lazer, from a
-- payload that an ed25519 instruction of the same transaction carries. An owner opens a position on a
-- feed with a collateral, a stop-loss, a take-profit and a trailing offset, may change these levels,
-- may hand the position to the MagicBlock rollup and take it back, and may cancel it. Anyone may tick
-- a position: the tick reads the feed, moves the trailing extreme and, if a trigger fires, pays the
-- fee, the keeper's reward and the rest to the owner. The instructions interact through the accounts
-- of the chain only: feed and configuration are read by ticks, positions name their feed.
--
-- Which file models what (paths below programs/hwal/src):
--   Constants        constants.rs, and the constants of state/price_feed.rs
--   Errors           errors.rs, with Anchor's own errors, and `Result` with `require!`
--   Events           events.rs; `emit!` appends to the log of the chain
--   State            state/: `Config`, `PriceFeed`, `Position`, and their zeroed accounts
--   Runtime          what the program runs on, as a parameter (see below)
--   Utils            utils.rs: `bps_of`, checked arithmetic, `transfer_lamports_from_pda`
--   Accounts         the constraints of `#[derive(Accounts)]`, and the writing back of accounts
--   Admin            instructions/initialize_config.rs, update_config.rs
--   Feed             instructions/initialize_price_feed.rs, update_price_feed.rs,
--                    register_lazer_feed.rs
--   Lazer            instructions/update_price_feed_from_lazer.rs
--   Triggers         instructions/update_triggers.rs
--   Open             instructions/open_position.rs
--   Tick             instructions/tick_position.rs
--   Cancel           instructions/cancel_position.rs
--   Delegation       instructions/delegate_position.rs, undelegate_position.rs
--   Call, Program    lib.rs: the entry points, `execute`, and `run` for a history of transactions
--   Positions        the well-formedness of a position
--   Chain            what an instruction can do to an account (`AccountStep`), and what follows
--   Prelude          numbers, integers, words, lists and maps
--   Tests            a runtime, a chain made by the program, and the theorems at them
-- The child modules of a component hold its proofs, named for what they prove.
--
-- An instruction is a function of the runtime, the transaction (`Env`: clock, signers and the
-- instructions sysvar), the account keys of its context, its arguments and the chain (`Bank`: every
-- balance, what every account of the program holds, and the log), and returns the new chain or an
-- error. Its account constraints come first, in the order of Anchor's generated code: the
-- accounts that exist are read one by one, then a new account is created, and the remaining
-- constraints follow. The part of a handler that touches no key of the context is a function of its
-- own, `..._handler`, on the accounts' contents. Where a handler assigns to fields it is a record
-- update, in the order of the code where that order shows. A failed transaction leaves the chain as it was.
--
-- Numbers: a `u64`, `u16` or `u8` is a natural number and an `i64` an integer. Checked and saturating
-- operations are written out with the bounds of their types (`u64_max`, `u128_max`, `i64_min`,
-- `i64_max`); a theorem that needs an argument to be in range says so. A key is a number below
-- 2 ^ 256, which its bytes give in little-endian order. Every loop (windows of bytes, histories) is
-- structural recursion, so there is no fuel.
--
-- Not modelled: Solana, Anchor, the system program, the ed25519 program and the delegation program
-- are not code of this repository. What the code calls of them is the record `Runtime`, an argument
-- of the definitions, and `IsRuntime` states what is documented of it: a found address is derived
-- from its bump, an account is created only where none is, lamports leave only an account that the
-- system program owns, and a called program takes none from an account of this program.
-- `Clock::get` is taken to succeed. The `mut` flags, rent, the serialised bytes of accounts and a
-- change of an account's owner by the delegation program are left out. The interface description in
-- programs/hwal/idl is generated, and the TypeScript files in scripts, examples, tests and migrations
-- are clients. VAULT_SEED and MAGICBLOCK_OWNER_PROGRAM_ID have no use in the program.
pub mod Prelude
pub mod Constants
pub mod Errors
pub mod Events
pub mod State
pub mod Runtime
pub mod Utils
pub mod Accounts
pub mod Admin
pub mod Feed
pub mod Lazer
pub mod Triggers
pub mod Open
pub mod Tick
pub mod Cancel
pub mod Delegation
pub mod Positions
pub mod Chain
pub mod Call
pub mod Program
pub mod Tests
