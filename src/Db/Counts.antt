-- ===== src/Db/Counts.antt =====
-- Computations make calls, or none: the number of calls does not go down.
use geo_notifications_servic.Prelude.{◌≡◌, refl, ℕ, suc, ◌≤◌, false, arith}
use geo_notifications_servic.Errs.{GoError}
use geo_notifications_servic.World.{World, Env, Reply, fine, failed, Sequences, Tables}
use geo_notifications_servic.World.Exec.{
  Result, ok, err, panicked, M, pure, raise, map_error, continue, ◌>>=◌,
}
use geo_notifications_servic.Db.{
  Statement, SqlResult, done, refused, Scope, pool, tx, run_statement, settle_reply, settle,
  settle_failed, within_tx_root, begin, finish, commit,
}

pub record Counts {ℓ} {A : Type ℓ} (m : M A) : Type ℓ where
  pub at : (w : World) → w.calls ≤ (m w).1.calls

le_trans : {a b c : ℕ} → a ≤ b → b ≤ c → a ≤ c
le_trans h k = omega arith

module _ {ℓ} {A : Type ℓ} where
  pub Counts-pure : (a : A) → Counts (pure a)
  Counts-pure a = record { at = λ w. omega arith }

  pub Counts-raise : (e : GoError) → Counts (raise {A = A} e)
  Counts-raise e = record { at = λ w. omega arith }

  pub Counts-map_error : (f : GoError → GoError) (m : M A) → Counts m → Counts (map_error f m)
  Counts-map_error f m k = record { at = k.at }

  settle-calls :
      (scope : Scope) (reply : Reply) (w : World) (r : SqlResult A × Sequences)
      → (settle_reply scope reply w r).1.calls ≡ w.calls
  unfolding settle_reply settle settle_failed
  settle-calls scope fine w (done a t, s) = refl
  settle-calls pool fine w (refused e, s) = refl
  settle-calls tx fine w (refused e, s) = refl
  settle-calls pool (failed n e) w (done a t, s) = ground arith
  settle-calls pool (failed n e) w (refused e', s) = ground arith
  settle-calls tx (failed n e) w r = refl

  commit-calls : (r : Reply) (t : Tables) (a : A) (w : World) → (commit r t a w).1.calls ≡ w.calls
  unfolding commit
  commit-calls r t a w = ground arith

  pub Counts-run_statement :
      (env : Env) (scope : Scope) (st : Statement A) → Counts (run_statement env scope st)
  unfolding run_statement
  Counts-run_statement env pool st = record {
    at = λ w.
        let same =
          settle-calls pool (env.reply w.calls) (record w { calls = suc w.calls })
            (st (env.clock w.calls) w.tables w.sequences) in
        omega (arith, same);
  }
  Counts-run_statement env tx st = record {
    at = λ w.
        let same =
          settle-calls tx (env.reply w.calls) (record w { calls = suc w.calls })
            (st w.started w.tables w.sequences) in
        ground (arith, same);
  }

  finish-calls :
      (env : Env) (t : Tables) (r : Result A) (w : World) → w.calls ≤ (finish env t (r, w)).1.calls
  unfolding finish
  finish-calls env t (ok a) w =
      let same = commit-calls (env.reply w.calls) t a (record w { calls = suc w.calls }) in
      omega (arith, same)
  finish-calls env t (err e) w = omega arith
  finish-calls env t (panicked p) w = omega arith

  begin-calls :
      (env : Env) (r : Reply) (fn : Scope → M A) (w : World)
      → Counts (fn tx)
      → w.calls ≤ (begin env r fn w).1.calls
  unfolding begin
  begin-calls env (failed n e) fn w k = omega arith
  begin-calls env fine fn w k =
      let w' = record w { calls = suc w.calls; aborted = false; started = env.clock w.calls } in
      let inside = k.at w' in
      let after = finish-calls env w.tables (fn tx w').0 (fn tx w').1 in
      omega (arith, inside, after)

  pub Counts-within_tx_root :
      (env : Env) (fn : Scope → M A) → Counts (fn tx) → Counts (within_tx_root env fn)
  unfolding within_tx_root
  Counts-within_tx_root env fn k = record { at = λ w. begin-calls env (env.reply w.calls) fn w k }

module _ {ℓ κ} {A : Type ℓ} {B : Type κ} where
  continue-calls :
      (r : Result A) (f : A → M B) (w : World)
      → ((a : A) → Counts (f a))
      → w.calls ≤ (continue r f w).1.calls
  continue-calls (ok a) f w k = (k a).at w
  continue-calls (err e) f w k = omega arith
  continue-calls (panicked p) f w k = omega arith

  pub Counts-bind : (m : M A) (f : A → M B) → Counts m → ((a : A) → Counts (f a)) → Counts (m >>= f)
  Counts-bind m f h k = record { at = λ w. le_trans (h.at w) (continue-calls (m w).0 f (m w).1 k) }
