-- ===== src/Program/Runs.antt =====
-- Induction over histories.
use hwal.Prelude.{◌≡◌, List, [], ◌∷◌, refl}
use hwal.Errors.{Result, ok, err}
use hwal.Runtime.{Bank, Env, Runtime}
use hwal.Call.{Call}
use hwal.Program.{execute, run, settled_or}

-- What every successful instruction keeps, every history keeps.
module _ {ℓ} (rt : Runtime) (P : Bank → Type ℓ)
    (step : (env : Env) (call : Call) (bank bank' : Bank)
      → execute rt env call bank ≡ ok bank'
      → P bank
      → P bank') where
  keeps :
      (env : Env) (call : Call) (bank : Bank) (r : Result Bank)
      → execute rt env call bank ≡ r
      → P bank
      → P (settled_or bank r)
  keeps env call bank (ok bank') h v = step env call bank bank' h v
  keeps env call bank (err e) h v = v

  pub run_induction : (calls : List (Env × Call)) (bank : Bank) → P bank → P (run rt calls bank)
  unfolding run
  run_induction [] bank v = v
  run_induction ((env, call) ∷ rest) bank v =
      run_induction rest (settled_or bank (execute rt env call bank))
        (keeps env call bank (execute rt env call bank) refl v)
