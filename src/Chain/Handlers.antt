-- ===== src/Chain/Handlers.antt =====
-- Each handler keeps the account that it writes well formed.
use hwal.Prelude.{ℕ, ◌≤◌, ◌<◌, ◌≡◌, ◌⊎◌, inl, inr, List, arith}
use hwal.Constants.{feed_source_authority, feed_source_lazer, lazer_channel_200ms}
use hwal.Errors.{ok}
use hwal.State.{Config, PriceFeed, Position}
use hwal.Runtime.{Env, Runtime, Lamports}
use hwal.Admin.{
  InitializeConfig, UpdateConfigArgs, initialize_config_handler, update_config_handler,
}
use hwal.Feed.{
  write_price, initialize_price_feed_handler, update_price_feed_handler,
  register_lazer_feed_handler,
}
use hwal.Lazer.{Verified, check_payload, update_from_lazer_handler}
use hwal.Triggers.{set_triggers, update_triggers_handler}
use hwal.Tick.{TickPosition, Outcome, tick_handler, count_tick, advance_extreme}
use hwal.Tick.Split.{IsPolicy}
use hwal.Tick.Inversion.{tick_handler-Handled, finish_tick-cases}
use hwal.Cancel.{CancelPosition, cancel_handler}
use hwal.Cancel.Inversion.{cancel_handler-Refunded}
use hwal.Positions.{IsPosition}
use hwal.Positions.Kept.{
  update_triggers_handler-Retriggered, fresh_price-pos, set_triggers-IsPosition,
  count_tick-IsPosition, advance_extreme-IsPosition, evaluate_trigger-le,
  close_triggered-IsPosition, close_cancelled-IsPosition,
}

-- A feed has a price, and a source that is known.
pub record IsFeed (f : PriceFeed) : Type 0 where
  pub priced : 0 < f.price
  pub source_known : (f.source ≡ feed_source_authority) ⊎ (f.source ≡ feed_source_lazer)
  pub channel_known : f.lazer_channel ≤ lazer_channel_200ms

-- A position is well formed, and its account holds its collateral.
pub record IsCovered (p : Position) (balance : ℕ) : Type 0 where
  pub formed : IsPosition p
  pub covered : p.collateral ≤ balance

pub initialize_config-IsPolicy :
    (ctx : InitializeConfig) (bump fee reward : ℕ) (z c : Config)
    → initialize_config_handler ctx bump fee reward z ≡ ok c
    → IsPolicy c
unfolding initialize_config_handler
initialize_config-IsPolicy ctx bump fee reward z c h = ground arith

pub update_config-IsPolicy :
    (args : UpdateConfigArgs) (c c' : Config)
    → update_config_handler args c ≡ ok c'
    → IsPolicy c
    → IsPolicy c'
unfolding update_config_handler
update_config-IsPolicy args c c' h v = ground arith

pub initialize_price_feed-IsFeed :
    (now authority bump symbol decimals price : _) (z f : PriceFeed)
    → initialize_price_feed_handler now authority bump symbol decimals price z ≡ ok f
    → IsFeed f
unfolding initialize_price_feed_handler
initialize_price_feed-IsFeed now authority bump symbol decimals price z f h = ground arith

pub update_price_feed-IsFeed :
    (now price : _) (f f' : PriceFeed)
    → update_price_feed_handler now price f ≡ ok f'
    → IsFeed f
    → IsFeed f'
unfolding update_price_feed_handler write_price
update_price_feed-IsFeed now price f f' h v = ground arith

pub registration-IsFeed :
    (id channel : ℕ) (f f' : PriceFeed)
    → register_lazer_feed_handler id channel f ≡ ok f'
    → IsFeed f
    → IsFeed f'
unfolding register_lazer_feed_handler
registration-IsFeed id channel f f' h v = ground arith

pub update_from_lazer-IsFeed :
    (rt : Runtime) (env : Env) (payload : List ℕ) (f : PriceFeed) (v : Verified)
    → update_from_lazer_handler rt env payload f ≡ ok v
    → IsFeed f
    → IsFeed v.feed
unfolding update_from_lazer_handler write_price check_payload
update_from_lazer-IsFeed rt env payload f v h valid = ground arith

pub tick_handler-IsPosition :
    (now : _) (ctx : TickPosition) (c : Config) (f : PriceFeed) (p : Position) (l : Lamports)
    (out : Outcome)
    → tick_handler now ctx c f p l ≡ ok out
    → IsPosition p
    → IsPosition out.position
tick_handler-IsPosition now ctx c f p l out h v =
    let r = tick_handler-Handled now ctx c f p l out h in
    let ticked = advance_extreme r.price (count_tick now p) in
    let formed =
      advance_extreme-IsPosition r.price (count_tick now p)
        (fresh_price-pos now f r.price r.fresh).1 (count_tick-IsPosition now p v) in
    elim (finish_tick-cases now ctx r.trigger r.price c ticked l out r.finished) [
      | inl (_, _, same, _, _) ↦ rw same formed
      | inr (fired, s) ↦ rw s.closed (
          close_triggered-IsPosition now r.trigger ticked fired
            (evaluate_trigger-le r.price ticked r.trigger r.evaluated) formed)
    ]

pub update_triggers-IsPosition :
    (stop take offset : ℕ) (p p' : Position)
    → update_triggers_handler stop take offset p ≡ ok p'
    → IsPosition p
    → IsPosition p' × (p'.collateral ≡ p.collateral)
unfolding update_triggers_handler
update_triggers-IsPosition stop take offset p p' h v =
    let r = update_triggers_handler-Retriggered stop take offset p p' h in
    rw r.changed
      (set_triggers-IsPosition p stop take offset v r.levels, (unfold set_triggers in ground arith))

pub cancel_handler-IsPosition :
    (now : _) (ctx : CancelPosition) (c : Config) (p : Position) (l : Lamports) (out : Outcome)
    → cancel_handler now ctx c p l ≡ ok out
    → IsPosition p
    → IsPosition out.position
cancel_handler-IsPosition now ctx c p l out h v =
    let r = cancel_handler-Refunded now ctx c p l out h in
    rw r.closed (close_cancelled-IsPosition now p r.was_open v)
