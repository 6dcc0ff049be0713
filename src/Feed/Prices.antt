-- ===== src/Feed/Prices.antt =====
-- When an authority's price is accepted, and all that it changes.
use hwal.Prelude.{ℕ, ◌<◌, ◌≡◌, ◌↔◌, true, some, [], ◌∷◌, ◌++◌, ==_iff, ltb, sym, arith}
use hwal.Prelude.Map.{update}
use hwal.Prelude.Word.{saturating_add}
use hwal.Errors.{ok, ok-injective, >>=-eq-ok, guard-eq-ok}
use hwal.Events.{price_feed_updated}
use hwal.State.{PriceFeed, price_feed}
use hwal.Runtime.{Bank, Env}
use hwal.Accounts.Inversion.{load_price_feed-eq-ok, address-eq-ok}
use hwal.Feed.{UpdatePriceFeed, write_price, update_price_feed_handler, update_price_feed}

-- The feed with a price of the given time: one more update, and otherwise as it was.
abbrev pub priced : Env → ℕ → PriceFeed → PriceFeed
priced env new_price f = record f {
  price = new_price;
  last_updated = env.unix_timestamp;
  update_count = saturating_add f.update_count 1;
}

-- The feed's own authority signs, the price is above zero, and of the chain only the feed and the
-- log change.
pub record Updates (env : Env) (ctx : UpdatePriceFeed) (new_price : ℕ) (bank bank' : Bank)
    : Type 0 where
  pub f : PriceFeed
  pub has_feed : bank.accounts ctx.feed ≡ some (price_feed f)
  pub signed : env.is_signer ctx.authority ≡ true
  pub authority : ctx.authority ≡ f.authority
  pub price_pos : 0 < new_price
  pub left : bank' ≡ record bank {
    accounts = update bank.accounts ctx.feed (some (price_feed (priced env new_price f)));
    log =
        bank.log
        ++ price_feed_updated ctx.feed f.price new_price env.unix_timestamp
            (saturating_add f.update_count 1)
          ∷ [];
  }

update_price_feed-Updates :
    (env : Env) (ctx : UpdatePriceFeed) (new_price : ℕ) (bank bank' : Bank)
    → update_price_feed env ctx new_price bank ≡ ok bank'
    → Updates env ctx new_price bank bank'
unfolding update_price_feed update_price_feed_handler write_price
update_price_feed-Updates env ctx new_price bank bank' h =
    let (signed, h1) = guard-eq-ok (env.is_signer ctx.authority) _ _ h in
    let (f, hf, h2) = load_price_feed-eq-ok bank ctx.feed _ h1 in
    let (at_authority, h3) = address-eq-ok ctx.authority f.authority _ _ h2 in
    let (f', handled, h4) =
      >>=-eq-ok (update_price_feed_handler env.unix_timestamp new_price f) _ h3 in
    let (positive, h5) = guard-eq-ok (ltb 0 new_price) _ _ handled in
    let same = ok-injective h5 in
    record {
      f = f;
      has_feed = hf;
      signed = signed;
      authority = at_authority;
      price_pos = ground arith;
      left = rw (← same) at (sym (ok-injective h4));
    }

Updates-update_price_feed :
    (env : Env) (ctx : UpdatePriceFeed) (new_price : ℕ) (bank bank' : Bank)
    → Updates env ctx new_price bank bank'
    → update_price_feed env ctx new_price bank ≡ ok bank'
unfolding update_price_feed update_price_feed_handler write_price
Updates-update_price_feed env ctx new_price bank bank' v =
    let positive : ltb 0 new_price ≡ true = ground (arith, v.price_pos) in
    rw (v.signed, v.has_feed, (==_iff ctx.authority v.f.authority).1 v.authority, positive, v.left)

-- An update of a price succeeds exactly if it is signed by the authority of the feed and the price
-- is above zero; the feed then has that price at the time of the clock with one more update counted
-- (up to the end of a `u64`), the log has the old and the new price, and no other account, no other
-- field and no balance changes.
pub update_price_feed_iff :
    (env : Env) (ctx : UpdatePriceFeed) (new_price : ℕ) (bank bank' : Bank)
    → (update_price_feed env ctx new_price bank ≡ ok bank') ↔ Updates env ctx new_price bank bank'
update_price_feed_iff env ctx new_price bank bank' = (
  update_price_feed-Updates env ctx new_price bank bank',
  Updates-update_price_feed env ctx new_price bank bank',
)
