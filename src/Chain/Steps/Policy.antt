-- ===== src/Chain/Steps/Policy.antt =====
-- `initialize_config` and `update_config` as account steps.
use hwal.Prelude.{ℕ, ◌≤◌, ◌≡◌, ◌≢◌, ◌==◌, sym, ap, none, arith}
use hwal.Constants.{Pubkey}
use hwal.Errors.{ok, ok-injective, >>=-eq-ok, guard-eq-ok}
use hwal.State.{config, zero_config, config_space}
use hwal.Runtime.{Bank, Env, Lamports, Runtime, IsRuntime}
use hwal.Accounts.{config_seeds, init}
use hwal.Accounts.Inversion.{load_config-eq-ok, address-eq-ok, seeds_match-eq-ok, init-eq-ok}
use hwal.Admin.{
  InitializeConfig, initialize_config_handler, initialize_config, UpdateConfig, UpdateConfigArgs,
  update_config_handler, update_config,
}
use hwal.Chain.{AccountStep, BankStep}
use hwal.Chain.Steps.Writes.{BankStep-write}

-- The creation of an account takes nothing from an account of the program.
pub init_account-keeps :
    (rt : Runtime) (laws : IsRuntime rt) (payer new space : ℕ) (bank : Bank) (l : Lamports)
    → rt.init_account payer new space bank ≡ ok l
    → (k : Pubkey) → bank.accounts k ≢ none
    → bank.lamports k ≤ l k
init_account-keeps rt laws payer new space bank l made k held =
    let (rent, creation) = laws.init_account-Moves payer new space bank l made in
    let free = laws.init_account-payer payer new space bank l made in
    let apart : k ≢ payer = λ e. held (rw e free) in ground (arith, creation k, apart)

pub initialize_config-BankStep :
    (rt : Runtime) (laws : IsRuntime rt) (env : Env) (ctx : InitializeConfig)
    (fee_bps keeper_reward_bps : ℕ) (bank bank' : Bank)
    → initialize_config rt env ctx fee_bps keeper_reward_bps bank ≡ ok bank'
    → BankStep rt env bank bank'
unfolding initialize_config
initialize_config-BankStep rt laws env ctx fee_bps keeper_reward_bps bank bank' h =
    let (signed, h1) = guard-eq-ok (env.is_signer ctx.admin) _ _ h in
    let (_, h2) = guard-eq-ok (ctx.system_program == rt.system_program_id) _ _ h1 in
    let (created, inited, h3) =
      >>=-eq-ok (init rt ctx.admin ctx.config config_space config_seeds bank) _ h2 in
    let (derived, _, made) =
      init-eq-ok rt ctx.admin ctx.config config_space config_seeds bank inited in
    let (c, handled, h4) =
      >>=-eq-ok (initialize_config_handler ctx created.0 fee_bps keeper_reward_bps zero_config) _
        h3 in
    let left = sym (ok-injective h4) in
    BankStep-write rt env bank bank' ctx.config (config c)
      (λ k. ap (λ (b : Bank). b.accounts k) left)
      (λ k _ held.
        rw (ap (λ (b : Bank). b.lamports) left)
          (init_account-keeps rt laws ctx.admin ctx.config config_space bank created.1 made k held))
      (λ k here after.
        AccountStep.config_created ctx fee_bps keeper_reward_bps created.0 c signed
          (rw here (laws.init_account-fresh ctx.admin ctx.config config_space bank created.1 made))
          (rw here derived) handled after)

pub update_config-BankStep :
    (rt : Runtime) (env : Env) (ctx : UpdateConfig) (args : UpdateConfigArgs) (bank bank' : Bank)
    → update_config rt env ctx args bank ≡ ok bank'
    → BankStep rt env bank bank'
unfolding update_config
update_config-BankStep rt env ctx args bank bank' h =
    let (signed, h1) = guard-eq-ok (env.is_signer ctx.admin) _ _ h in
    let (c, hc, h2) = load_config-eq-ok bank ctx.config _ h1 in
    let (at_admin, h3) = address-eq-ok ctx.admin c.admin _ _ h2 in
    let (_, h4) = seeds_match-eq-ok rt ctx.config config_seeds c.bump _ h3 in
    let (c', handled, h5) = >>=-eq-ok (update_config_handler args c) _ h4 in
    let left = sym (ok-injective h5) in
    BankStep-write rt env bank bank' ctx.config (config c')
      (λ k. ap (λ (b : Bank). b.accounts k) left)
      (λ k _ _. ground (arith, ap (λ (b : Bank). b.lamports k) left))
      (λ k here after.
        AccountStep.config_updated args c c' (rw (← at_admin) signed) (rw here hc) handled after
          (ground (arith, ap (λ (b : Bank). b.lamports k) left)))
