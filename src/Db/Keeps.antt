-- ===== src/Db/Keeps.antt =====
-- Computations on the database and the cache: they keep a property of the tables, whatever the calls
-- answer, and touch neither the stream nor the webhook. One rule for each way to build one.
use geo_notifications_servic.Prelude.{
  ℕ, zero, suc, ◌≡◌, refl, ◌∙◌, Bool, true, false, if◌then◌else◌,
}
use geo_notifications_servic.Errs.{GoError, prefixed}
use geo_notifications_servic.World.{World, Env, Reply, fine, failed, Tables, Sequences}
use geo_notifications_servic.World.Exec.{
  Result, ok, err, panicked, M, pure, raise, map_error, ignore_error, error_of, continue, ◌>>=◌,
}
use geo_notifications_servic.Db.{
  SqlResult, done, refused, Statement, Scope, pool, tx, run_statement, settle_reply, settle,
  settle_failed, within_tx_root, in_failed_transaction, begin, finish, commit,
}

-- The stream, its keys and what the webhook has got are as they were.
abbrev pub SameOutside : World → World → Type 0
SameOutside w v = (v.stream ≡ w.stream) × (v.processed ≡ w.processed) × (v.posts ≡ w.posts)

pub record Keeps {ℓ} {A : Type ℓ} (P : Tables → Type 0) (m : M A) : Type ℓ where
  pub at : (w : World) → P w.tables → P (m w).1.tables × SameOutside w (m w).1

SameOutside-trans : (u v w : World) → SameOutside u v → SameOutside v w → SameOutside u w
SameOutside-trans u v w (a, b, c) (a', b', c') = (a' ∙ a, b' ∙ b, c' ∙ c)

-- The tables that an accepted statement leaves have the property.
abbrev pub Leaves {ℓ} : {A : Type ℓ} → (Tables → Type 0) → SqlResult A → Type 0
Leaves P (done a t) = P t
Leaves P (refused e) = Unit

module _ {ℓ} {A : Type ℓ} (P : Tables → Type 0) where
  pub Leaves-if :
      (b : Bool) (x y : SqlResult A × Sequences)
      → Leaves P x.0
      → Leaves P y.0
      → Leaves P (if b then x else y).0
  Leaves-if true x y h k = h
  Leaves-if false x y h k = k

  branch-keeps :
      (w : World) (b : Bool) (x y : Result A × World)
      → P x.1.tables × SameOutside w x.1
      → P y.1.tables × SameOutside w y.1
      → P (if b then x else y).1.tables × SameOutside w (if b then x else y).1
  branch-keeps w true x y kx ky = kx
  branch-keeps w false x y kx ky = ky

  settle-keeps :
      (scope : Scope) (reply : Reply) (w : World) (r : SqlResult A × Sequences)
      → P w.tables
      → Leaves P r.0
      → P (settle_reply scope reply w r).1.tables × SameOutside w (settle_reply scope reply w r).1
  unfolding settle_reply settle settle_failed
  settle-keeps scope fine w (done a t, s) h k = (k, (refl, refl, refl))
  settle-keeps scope fine w (refused e, s) h k = (h, (refl, refl, refl))
  settle-keeps pool (failed zero e) w (r, s) h k = (h, (refl, refl, refl))
  settle-keeps pool (failed (suc n) e) w (done a t, s) h k = (k, (refl, refl, refl))
  settle-keeps pool (failed (suc n) e) w (refused e', s) h k = (h, (refl, refl, refl))
  settle-keeps tx (failed n e) w (r, s) h k = (h, (refl, refl, refl))

  -- A rollback returns to tables that had the property.
  commit-keeps :
      (r : Reply) (t : Tables) (a : A) (w : World)
      → P t
      → P w.tables
      → P (commit r t a w).1.tables × SameOutside w (commit r t a w).1
  unfolding commit
  commit-keeps fine t a w h k =
      branch-keeps w w.aborted _ (ok a, w) (h, (refl, refl, refl)) (k, (refl, refl, refl))
  commit-keeps (failed zero e) t a w h k = (h, (refl, refl, refl))
  commit-keeps (failed (suc n) e) t a w h k =
      let e' = prefixed "commit tx" e in
      branch-keeps w w.aborted (err e', record w { tables = t }) (err e', w) (h, (refl, refl, refl))
        (k, (refl, refl, refl))

  finish-keeps :
      (env : Env) (t : Tables) (r : Result A) (w : World)
      → P t
      → P w.tables
      → P (finish env t (r, w)).1.tables × SameOutside w (finish env t (r, w)).1
  unfolding finish
  finish-keeps env t (ok a) w h k =
      commit-keeps (env.reply w.calls) t a (record w { calls = suc w.calls }) h k
  finish-keeps env t (err e) w h k = (h, (refl, refl, refl))
  finish-keeps env t (panicked p) w h k = (h, (refl, refl, refl))

  begin-Keeps :
      (env : Env) (fn : Scope → M A)
      → Keeps P (fn tx)
      → (r : Reply) (w : World) → P w.tables
      → P (begin env r fn w).1.tables × SameOutside w (begin env r fn w).1
  unfolding begin
  begin-Keeps env fn k (failed n e) w h = (h, (refl, refl, refl))
  begin-Keeps env fn k fine w h =
      let w' = record w { calls = suc w.calls; aborted = false; started = env.clock w.calls } in
      let (kept, same) = k.at w' h in
      let (kept', same') = finish-keeps env w.tables (fn tx w').0 (fn tx w').1 h kept in
      (kept', SameOutside-trans w (fn tx w').1 (begin env fine fn w).1 same same')

module _ {ℓ} {A : Type ℓ} {P : Tables → Type 0} where
  pub Keeps-pure : (a : A) → Keeps P (pure a)
  Keeps-pure a = record { at = λ w h. (h, (refl, refl, refl)) }

  pub Keeps-raise : (e : GoError) → Keeps P (raise {A = A} e)
  Keeps-raise e = record { at = λ w h. (h, (refl, refl, refl)) }

  pub Keeps-clock : (f : World → A) → Keeps P (λ w. (ok (f w), w))
  Keeps-clock f = record { at = λ w h. (h, (refl, refl, refl)) }

  pub Keeps-map_error : (f : GoError → GoError) (m : M A) → Keeps P m → Keeps P (map_error f m)
  Keeps-map_error f m k = record { at = k.at }

  pub Keeps-ignore_error : (m : M A) → Keeps P m → Keeps P (ignore_error m)
  Keeps-ignore_error m k = record { at = k.at }

  pub Keeps-error_of : (m : M A) → Keeps P m → Keeps P (error_of m)
  Keeps-error_of m k = record { at = k.at }

  pub Keeps-if : (b : Bool) (m n : M A) → Keeps P m → Keeps P n → Keeps P (if b then m else n)
  Keeps-if true m n km kn = km
  Keeps-if false m n km kn = kn

  pub Keeps-run_statement :
      (env : Env) (scope : Scope) (st : Statement A)
      → ((now : ℕ) (t : Tables) (s : Sequences) → P t → Leaves P (st now t s).0)
      → Keeps P (run_statement env scope st)
  unfolding run_statement
  Keeps-run_statement env pool st keep = record {
    at = λ w h.
        settle-keeps P pool (env.reply w.calls) (record w { calls = suc w.calls })
          (st (env.clock w.calls) w.tables w.sequences) h
          (keep (env.clock w.calls) w.tables w.sequences h);
  }
  Keeps-run_statement env tx st keep = record {
    at = λ w h.
        branch-keeps P w w.aborted (err in_failed_transaction, record w { calls = suc w.calls })
          (settle_reply tx (env.reply w.calls) (record w { calls = suc w.calls })
            (st w.started w.tables w.sequences))
          (h, (refl, refl, refl))
          (settle-keeps P tx (env.reply w.calls) (record w { calls = suc w.calls })
            (st w.started w.tables w.sequences) h (keep w.started w.tables w.sequences h));
  }

  pub Keeps-within_tx_root :
      (env : Env) (fn : Scope → M A) → Keeps P (fn tx) → Keeps P (within_tx_root env fn)
  unfolding within_tx_root
  Keeps-within_tx_root env fn k = record {
    at = λ w h. begin-Keeps P env fn k (env.reply w.calls) w h;
  }

module _ {ℓ κ} {A : Type ℓ} {B : Type κ} {P : Tables → Type 0} where
  continue-Keeps :
      (r : Result A) (f : A → M B) (w : World)
      → ((a : A) → Keeps P (f a))
      → P w.tables
      → P (continue r f w).1.tables × SameOutside w (continue r f w).1
  continue-Keeps (ok a) f w k h = (k a).at w h
  continue-Keeps (err e) f w k h = (h, (refl, refl, refl))
  continue-Keeps (panicked p) f w k h = (h, (refl, refl, refl))

  pub Keeps-bind :
      (m : M A) (f : A → M B) → Keeps P m → ((a : A) → Keeps P (f a)) → Keeps P (m >>= f)
  Keeps-bind m f km kf = record {
    at = λ w h.
        let (kept, same) = km.at w h in
        let (kept', same') = continue-Keeps (m w).0 f (m w).1 kf kept in
        (kept', SameOutside-trans w (m w).1 ((m >>= f) w).1 same same');
  }

pub ruleset keeps_rules = (
  Keeps-pure, Keeps-raise, Keeps-clock, Keeps-map_error, Keeps-ignore_error, Keeps-if, Keeps-bind,
)
