-- ===== src/Db/Inversion.antt =====
-- What a successful result says of the parts of a computation.
use geo_notifications_servic.Prelude.{◌≡◌, refl, suc, Bool, true, false, if◌then◌else◌}
use geo_notifications_servic.Errs.{GoError}
use geo_notifications_servic.World.{World, Env, Reply, fine, failed, Sequences}
use geo_notifications_servic.World.Exec.{
  Result, ok, err, panicked, M, map_error, map_result_error, continue, ◌>>=◌,
}
use geo_notifications_servic.Db.{
  tx, Statement, SqlResult, done, refused, run_statement, settle_reply, settle,
  in_failed_transaction,
}

module _ {ℓ κ} {A : Type ℓ} {B : Type κ} where
  pub continue-eq-ok :
      (r : Result A) (f : A → M B) (w : World) {b : B}
      → (continue r f w).0 ≡ ok b
      → (a : A) × (r ≡ ok a) × ((f a w).0 ≡ ok b) × (continue r f w ≡ f a w)
  continue-eq-ok (ok a) f w h = (a, refl, h, refl)
  continue-eq-ok (err e) f w h = cc
  continue-eq-ok (panicked p) f w h = cc

  -- A block that succeeds has passed each of its steps.
  pub bind-eq-ok :
      (m : M A) (f : A → M B) (w : World) {b : B}
      → ((m >>= f) w).0 ≡ ok b
      → (a : A) × ((m w).0 ≡ ok a) × ((f a (m w).1).0 ≡ ok b) × ((m >>= f) w ≡ f a (m w).1)
  bind-eq-ok m f w h = continue-eq-ok (m w).0 f (m w).1 h

module _ {ℓ} {A : Type ℓ} where
  map_result_error-eq-ok :
      (g : GoError → GoError) (r : Result A) {a : A} → map_result_error g r ≡ ok a → r ≡ ok a
  map_result_error-eq-ok g (ok a) h = h
  map_result_error-eq-ok g (err e) h = cc
  map_result_error-eq-ok g (panicked p) h = cc

  pub map_error-eq-ok :
      (g : GoError → GoError) (m : M A) (w : World) {a : A}
      → (map_error g m w).0 ≡ ok a
      → (m w).0 ≡ ok a
  map_error-eq-ok g m w h = map_result_error-eq-ok g (m w).0 h

  settle-eq-ok :
      (reply : Reply) (w : World) (r : SqlResult A × Sequences) {a : A}
      → (settle_reply tx reply w r).0 ≡ ok a
      → (r.0 ≡ done a (settle_reply tx reply w r).1.tables)
        × ((settle_reply tx reply w r).1.started ≡ w.started)
  unfolding settle_reply settle
  settle-eq-ok fine w (done a t, s) h = (cc, refl)
  settle-eq-ok fine w (refused e, s) h = cc
  settle-eq-ok (failed n e) w r h = cc

  not_refused :
      (b : Bool) (e : GoError) (w : World) (x : Result A × World) {a : A}
      → (if b then (err e, w) else x).0 ≡ ok a
      → (if b then (err e, w) else x) ≡ x
  not_refused true e w x h = cc
  not_refused false e w x h = refl

  -- A statement that succeeds in a transaction was accepted, and left the tables that the server
  -- computed.
  pub run_statement-eq-ok :
      (env : Env) (st : Statement A) (w : World) {a : A}
      → (run_statement env tx st w).0 ≡ ok a
      → ((st w.started w.tables w.sequences).0 ≡ done a (run_statement env tx st w).1.tables)
        × ((run_statement env tx st w).1.started ≡ w.started)
  unfolding run_statement
  run_statement-eq-ok env st w h =
      let w' = record w { calls = suc w.calls } in
      let r = settle_reply tx (env.reply w.calls) w' (st w.started w.tables w.sequences) in
      let same = not_refused w.aborted in_failed_transaction w' r h in
      rw same
        (settle-eq-ok (env.reply w.calls) w' (st w.started w.tables w.sequences) (rw same at h))

  pub sql-eq-ok :
      (env : Env) (g : GoError → GoError) (st : Statement A) (w : World) {a : A}
      → (map_error g (run_statement env tx st) w).0 ≡ ok a
      → ((st w.started w.tables w.sequences).0 ≡ done a (run_statement env tx st w).1.tables)
        × ((run_statement env tx st w).1.started ≡ w.started)
  sql-eq-ok env g st w h =
      run_statement-eq-ok env st w (map_error-eq-ok g (run_statement env tx st) w h)
