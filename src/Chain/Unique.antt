-- ===== src/Chain/Unique.antt =====
-- There is one configuration: every account that holds one is at the address derived from the seed.
use hwal.Prelude.{ℕ, ◌≡◌, Option, some, List}
use hwal.Constants.{Pubkey}
use hwal.Errors.{ok}
use hwal.State.{Account, config, Config}
use hwal.Runtime.{Bank, Env, Runtime, IsRuntime}
use hwal.Accounts.{config_seeds}
use hwal.Call.{Call}
use hwal.Program.{execute, run}
use hwal.Program.Runs.{run_induction}
use hwal.Chain.{AccountStep}
use hwal.Chain.Steps.{execute-BankStep}

-- The address that `initialize_config` derives.
abbrev pub config_address : Runtime → Pubkey
config_address rt = (rt.find_program_address config_seeds).0

pub record HasOneConfig (rt : Runtime) (bank : Bank) : Type 0 where
  pub at_derived :
      (k : Pubkey) (c : Config) → bank.accounts k ≡ some (config c) → k ≡ config_address rt

module _ (rt : Runtime) (env : Env) (bank : Bank) (k : Pubkey) where
  step-at_derived :
      {a : Option Account} {n : ℕ} {a' : Option Account} {n' : ℕ} (d : Config)
      → AccountStep rt env bank k a n a' n'
      → ((c : Config) → a ≡ some (config c) → k ≡ config_address rt)
      → a' ≡ some (config d)
      → k ≡ config_address rt
  step-at_derived d (AccountStep.kept e _) before h = before d (cc)
  step-at_derived d (AccountStep.config_created _ _ _ _ _ _ _ here _ _) before h = here
  step-at_derived d (AccountStep.config_updated _ c _ _ e _ _ _) before h = before c e
  step-at_derived d (AccountStep.config_counted c _ e _ _ _) before h = before c e
  step-at_derived d (AccountStep.feed_created _ _ _ _ _ _ _ _ _ _ _ _ e') before h = cc
  step-at_derived d (AccountStep.feed_priced _ _ _ _ _ _ e' _) before h = cc
  step-at_derived d (AccountStep.feed_verified _ _ _ _ _ _ _ _ e' _) before h = cc
  step-at_derived d (AccountStep.feed_registered _ _ _ _ _ _ _ _ _ _ e' _) before h = cc
  step-at_derived d (AccountStep.position_opened _ _ _ _ _ _ _ _ _ _ _ e' _) before h = cc
  step-at_derived d (AccountStep.position_retriggered _ _ _ _ _ _ _ _ e' _) before h = cc
  step-at_derived d (AccountStep.position_ticked _ _ _ _ _ _ _ _ _ _ _ _ e' _) before h = cc
  step-at_derived d (AccountStep.position_cancelled _ _ _ _ _ _ _ e' _) before h = cc
  step-at_derived d (AccountStep.position_delegated _ _ _ _ _ _ e' _) before h = cc
  step-at_derived d (AccountStep.position_undelegated _ _ _ _ _ _ e' _) before h = cc

execute-HasOneConfig :
    (rt : Runtime) (laws : IsRuntime rt) (env : Env) (call : Call) (bank bank' : Bank)
    → execute rt env call bank ≡ ok bank'
    → HasOneConfig rt bank
    → HasOneConfig rt bank'
execute-HasOneConfig rt laws env call bank bank' h v = record {
  at_derived = λ k d held.
      step-at_derived rt env bank k d (execute-BankStep rt laws env call bank bank' h k)
        (v.at_derived k) held;
}

-- After any history over a runtime that behaves as documented, from a chain where it is so (an
-- empty one, say), an account holds a configuration only at the address derived from the seed
-- "config": there is never a second one, with an admin or rates of its own.
pub run-HasOneConfig :
    (rt : Runtime) (laws : IsRuntime rt) (calls : List (Env × Call)) (bank : Bank)
    → HasOneConfig rt bank
    → HasOneConfig rt (run rt calls bank)
run-HasOneConfig rt laws =
    run_induction rt (HasOneConfig rt)
      (λ env call bank bank' h v. execute-HasOneConfig rt laws env call bank bank' h v)
