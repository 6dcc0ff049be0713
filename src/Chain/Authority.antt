-- ===== src/Chain/Authority.antt =====
-- Who may change what: without the signature of an account's authority an instruction changes the
-- account only in the ways that need none.
use hwal.Prelude.{subst, ℕ, ◌≡◌, ◌⊎◌, inl, inr, refl, ◌∙◌, ap, true, false, Option, some, List}
use hwal.Constants.{Pubkey}
use hwal.Errors.{ok}
use hwal.State.{Account, config, price_feed, position, Config, PriceFeed, Position}
use hwal.Runtime.{Bank, Env, Runtime, IsRuntime}
use hwal.Feed.{register_lazer_feed_handler}
use hwal.Lazer.{Verified, update_from_lazer_handler}
use hwal.Tick.Effect.{TickEffect, tick_handler-TickEffect}
use hwal.Call.{Call}
use hwal.Program.{execute}
use hwal.Chain.{Counts-SamePolicy, SamePolicy, AccountStep}
use hwal.Chain.Steps.{execute-BankStep}

-- The position is as it was, or a tick at the feed that it names has had its effect.
abbrev pub OnlyTicked : Env → Bank → Position → Option Account → Type 0
OnlyTicked env bank p a' =
    (a' ≡ some (position p))
    ⊎ ((f : PriceFeed) × (p' : Position) × (bank.accounts p.feed ≡ some (price_feed f))
        × TickEffect env.unix_timestamp f p p'
        × (a' ≡ some (position p')))

-- The feed is as it was, or a Lazer payload was accepted, or an admin registered the feed.
abbrev pub OnlyVerified : Runtime → Env → Bank → PriceFeed → Option Account → Type 0
OnlyVerified rt env bank f a' =
    (a' ≡ some (price_feed f))
    ⊎ ((payload : List ℕ) × (v : Verified) × (update_from_lazer_handler rt env payload f ≡ ok v)
        × (a' ≡ some (price_feed v.feed)))
    ⊎ ((id : ℕ) × (channel : ℕ) × (key : Pubkey) × (c : Config) × (f' : PriceFeed) × (bank.accounts
            key
          ≡ some (config c))
        × (env.is_signer c.admin ≡ true)
        × (register_lazer_feed_handler id channel f ≡ ok f')
        × (a' ≡ some (price_feed f')))

abbrev pub OnlyCounted : Config → Option Account → Type 0
OnlyCounted c a' = (c' : Config) × (a' ≡ some (config c')) × SamePolicy c c'

-- The account holds one position, feed or configuration only.
same_position :
    {a : Option Account} {p q : Position} → a ≡ some (position q) → a ≡ some (position p) → q ≡ p
same_position e h = cc

same_feed :
    {a : Option Account} {f g : PriceFeed}
    → a ≡ some (price_feed g)
    → a ≡ some (price_feed f)
    → g ≡ f
same_feed e h = cc

same_config :
    {a : Option Account} {c d : Config} → a ≡ some (config d) → a ≡ some (config c) → d ≡ c
same_config e h = cc

module _ (rt : Runtime) (env : Env) (bank : Bank) (k : Pubkey) where
  unsigned :
      (p q : Position) → env.is_signer q.owner ≡ true → env.is_signer p.owner ≡ false → ¬ (q ≡ p)
  unsigned p q signed no_sign same = let e = ap (λ (r : Position). env.is_signer r.owner) same in cc

  unsigned-position :
      {a : Option Account} {n : ℕ} {a' : Option Account} {n' : ℕ} (p : Position)
      → env.is_signer p.owner ≡ false
      → AccountStep rt env bank k a n a' n'
      → a ≡ some (position p)
      → OnlyTicked env bank p a'
  unsigned-position p no_sign (AccountStep.kept e _) h = inl (e ∙ h)
  unsigned-position p no_sign (AccountStep.position_ticked ctx c f q out _ _ at_feed _ _ e r e' _)
        h =
      let same = same_position e h in
      inr (
        f,
        out.position,
        rw (← same) at_feed,
        subst (λ (r : Position). TickEffect env.unix_timestamp f r out.position) same
            (tick_handler-TickEffect env.unix_timestamp ctx c f q bank.lamports out r),
        e',
      )
  unsigned-position p no_sign (AccountStep.position_retriggered s t o q q' signed e _ _ _) h =
      absurd (unsigned p q signed no_sign (same_position e h))
  unsigned-position p no_sign (AccountStep.position_cancelled ctx c q out signed e _ _ _) h =
      absurd (unsigned p q signed no_sign (same_position e h))
  unsigned-position p no_sign (AccountStep.position_delegated _ q signed _ e _ _ _) h =
      absurd (unsigned p q signed no_sign (same_position e h))
  unsigned-position p no_sign (AccountStep.position_undelegated _ q signed _ e _ _ _) h =
      absurd (unsigned p q signed no_sign (same_position e h))
  unsigned-position p no_sign (AccountStep.config_created _ _ _ _ _ _ e _ _ _) h = cc
  unsigned-position p no_sign (AccountStep.config_updated _ _ _ _ e _ _ _) h = cc
  unsigned-position p no_sign (AccountStep.config_counted _ _ e _ _ _) h = cc
  unsigned-position p no_sign (AccountStep.feed_created _ _ _ _ _ _ _ _ _ e _ _ _) h = cc
  unsigned-position p no_sign (AccountStep.feed_priced _ _ _ _ e _ _ _) h = cc
  unsigned-position p no_sign (AccountStep.feed_verified _ _ _ _ _ _ e _ _ _) h = cc
  unsigned-position p no_sign (AccountStep.feed_registered _ _ _ _ _ _ _ _ e _ _ _) h = cc
  unsigned-position p no_sign (AccountStep.position_opened _ _ _ _ _ _ _ _ e _ _ _ _) h = cc

  unsigned-feed :
      {a : Option Account} {n : ℕ} {a' : Option Account} {n' : ℕ} (f : PriceFeed)
      → env.is_signer f.authority ≡ false
      → AccountStep rt env bank k a n a' n'
      → a ≡ some (price_feed f)
      → OnlyVerified rt env bank f a'
  unsigned-feed f no_sign (AccountStep.kept e _) h = inl (e ∙ h)
  unsigned-feed f no_sign (AccountStep.feed_verified _ payload g v _ _ e r e' _) h =
      inr (inl (payload, v, rw (← same_feed e h) r, e'))
  unsigned-feed f no_sign (AccountStep.feed_registered id channel key c g f' has signed e r e' _)
        h =
      inr (inr (id, channel, key, c, f', has, signed, rw (← same_feed e h) r, e'))
  unsigned-feed f no_sign (AccountStep.feed_priced _ g _ signed e _ _ _) h =
      let same = ap (λ (r : PriceFeed). env.is_signer r.authority) (same_feed e h) in cc
  unsigned-feed f no_sign (AccountStep.config_created _ _ _ _ _ _ e _ _ _) h = cc
  unsigned-feed f no_sign (AccountStep.config_updated _ _ _ _ e _ _ _) h = cc
  unsigned-feed f no_sign (AccountStep.config_counted _ _ e _ _ _) h = cc
  unsigned-feed f no_sign (AccountStep.feed_created _ _ _ _ _ _ _ _ _ e _ _ _) h = cc
  unsigned-feed f no_sign (AccountStep.position_opened _ _ _ _ _ _ _ _ e _ _ _ _) h = cc
  unsigned-feed f no_sign (AccountStep.position_retriggered _ _ _ _ _ _ e _ _ _) h = cc
  unsigned-feed f no_sign (AccountStep.position_ticked _ _ _ _ _ _ _ _ _ _ e _ _ _) h = cc
  unsigned-feed f no_sign (AccountStep.position_cancelled _ _ _ _ _ e _ _ _) h = cc
  unsigned-feed f no_sign (AccountStep.position_delegated _ _ _ _ e _ _ _) h = cc
  unsigned-feed f no_sign (AccountStep.position_undelegated _ _ _ _ e _ _ _) h = cc

  unsigned-config :
      {a : Option Account} {n : ℕ} {a' : Option Account} {n' : ℕ} (c : Config)
      → env.is_signer c.admin ≡ false
      → AccountStep rt env bank k a n a' n'
      → a ≡ some (config c)
      → OnlyCounted c a'
  unsigned-config c no_sign (AccountStep.kept e _) h = (
    c,
    e ∙ h,
    record {
      admin = refl;
      fee_receiver = refl;
      fee_bps = refl;
      keeper_reward_bps = refl;
      bump = refl;
    },
  )
  unsigned-config c no_sign (AccountStep.config_counted d c' e same e' _) h = (
    c',
    e',
    subst (λ (r : Config). SamePolicy r c') (same_config e h) (Counts-SamePolicy d c' same),
  )
  unsigned-config c no_sign (AccountStep.config_updated _ d _ signed e _ _ _) h =
      let same = ap (λ (r : Config). env.is_signer r.admin) (same_config e h) in cc
  unsigned-config c no_sign (AccountStep.config_created _ _ _ _ _ _ e _ _ _) h = cc
  unsigned-config c no_sign (AccountStep.feed_priced _ _ _ _ e _ _ _) h = cc
  unsigned-config c no_sign (AccountStep.feed_verified _ _ _ _ _ _ e _ _ _) h = cc
  unsigned-config c no_sign (AccountStep.feed_registered _ _ _ _ _ _ _ _ e _ _ _) h = cc
  unsigned-config c no_sign (AccountStep.feed_created _ _ _ _ _ _ _ _ _ e _ _ _) h = cc
  unsigned-config c no_sign (AccountStep.position_opened _ _ _ _ _ _ _ _ e _ _ _ _) h = cc
  unsigned-config c no_sign (AccountStep.position_retriggered _ _ _ _ _ _ e _ _ _) h = cc
  unsigned-config c no_sign (AccountStep.position_ticked _ _ _ _ _ _ _ _ _ _ e _ _ _) h = cc
  unsigned-config c no_sign (AccountStep.position_cancelled _ _ _ _ _ e _ _ _) h = cc
  unsigned-config c no_sign (AccountStep.position_delegated _ _ _ _ e _ _ _) h = cc
  unsigned-config c no_sign (AccountStep.position_undelegated _ _ _ _ e _ _ _) h = cc

-- An instruction that the owner of a position has not signed leaves the position as it was, or is
-- a tick at the very feed that the position names, with the effect of `TickEffect`: no terms
-- change, and the position closes only if a trigger condition holds at that feed's fresh price.
pub unsigned_position :
    (rt : Runtime) (laws : IsRuntime rt) (env : Env) (call : Call) (bank bank' : Bank) (k : Pubkey)
    (p : Position)
    → bank.accounts k ≡ some (position p)
    → env.is_signer p.owner ≡ false
    → execute rt env call bank ≡ ok bank'
    → OnlyTicked env bank p (bank'.accounts k)
unsigned_position rt laws env call bank bank' k p held no_sign h =
    unsigned-position rt env bank k p no_sign (execute-BankStep rt laws env call bank bank' h k)
      held

-- An instruction that the authority of a feed has not signed leaves the feed as it was, or is a
-- Lazer update that its handler accepts, or registers the feed for Lazer, signed by the admin of a
-- configuration of the program.
pub unsigned_feed :
    (rt : Runtime) (laws : IsRuntime rt) (env : Env) (call : Call) (bank bank' : Bank) (k : Pubkey)
    (f : PriceFeed)
    → bank.accounts k ≡ some (price_feed f)
    → env.is_signer f.authority ≡ false
    → execute rt env call bank ≡ ok bank'
    → OnlyVerified rt env bank f (bank'.accounts k)
unsigned_feed rt laws env call bank bank' k f held no_sign h =
    unsigned-feed rt env bank k f no_sign (execute-BankStep rt laws env call bank bank' h k) held

-- An instruction that the admin has not signed leaves the admin, the fee receiver, both rates and
-- the bump of the configuration as they were.
pub unsigned_config :
    (rt : Runtime) (laws : IsRuntime rt) (env : Env) (call : Call) (bank bank' : Bank) (k : Pubkey)
    (c : Config)
    → bank.accounts k ≡ some (config c)
    → env.is_signer c.admin ≡ false
    → execute rt env call bank ≡ ok bank'
    → OnlyCounted c (bank'.accounts k)
unsigned_config rt laws env call bank bank' k c held no_sign h =
    unsigned-config rt env bank k c no_sign (execute-BankStep rt laws env call bank bank' h k) held
