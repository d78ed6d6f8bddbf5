-- ===== src/Service/Order.antt =====
-- The transaction of `CheckAndRecord` begins before it returns.
use geo_notifications_servic.Prelude.{
  ◌≡◌, ℕ, ◌≤◌, Option, none, some, String, List, [], ◌∷◌, inl, inr, Option-cases,
}
use geo_notifications_servic.Errs.{wrap_error}
use geo_notifications_servic.Domain.{Point, CheckCommand, NearbyIncident, validate_check}
use geo_notifications_servic.World.{World, Env}
use geo_notifications_servic.World.Exec.{ok, map_error}
use geo_notifications_servic.Db.{Scope, tx}
use geo_notifications_servic.Db.Counts.{
  Counts, Counts-pure, Counts-raise, Counts-map_error, Counts-bind, Counts-run_statement,
  Counts-within_tx_root,
}
use geo_notifications_servic.Db.Inversion.{bind-eq-ok}
use geo_notifications_servic.Incidents.{link_incidents, record_check}
use geo_notifications_servic.Outbox.{enqueue}
use geo_notifications_servic.TxRunner.{checker, outbox_writer}
use geo_notifications_servic.Service.{
  CheckResult, marshalled, publish, record_and_publish, check_and_record, check_valid,
}
use geo_notifications_servic.Service.Atomicity.{run, found, record_in, after_find, found_op}

module _ (env : Env) (scope : Scope) where
  Counts-link_incidents : (id : ℕ) (ids : List ℕ) → Counts (link_incidents env scope id ids)
  unfolding link_incidents
  Counts-link_incidents id [] = Counts-pure tt
  Counts-link_incidents id (i ∷ is) = Counts-map_error _ _ (Counts-run_statement env scope _)

  Counts-record_check :
      (user_id : String) (p : Point) (ids : List ℕ) → Counts (record_check env scope user_id p ids)
  unfolding record_check
  Counts-record_check user_id p ids =
      Counts-bind _ _ (Counts-map_error _ _ (Counts-run_statement env scope _))
        λ id. Counts-bind _ _ (Counts-link_incidents id ids) λ _. Counts-pure id

  Counts-enqueue : (kind text : String) → Counts (enqueue env scope kind text)
  unfolding enqueue
  Counts-enqueue kind text = Counts-map_error _ _ (Counts-run_statement env scope _)

  Counts-marshalled : (o : Option String) (name : String) → Counts (marshalled o name)
  unfolding marshalled
  Counts-marshalled none name = Counts-raise _
  Counts-marshalled (some b) name = Counts-pure b

  Counts-publish :
      (cmd : CheckCommand) (id : ℕ) (ids : List ℕ)
      → Counts (publish env cmd (outbox_writer env scope) id ids)
  unfolding publish
  Counts-publish cmd id [] = Counts-pure tt
  Counts-publish cmd id (i ∷ is) = record {
    at = λ w.
        (Counts-bind _ _ (Counts-marshalled _ _)
            (λ b. Counts-map_error _ _ (Counts-enqueue "location_check" b))).at
          w;
  }

  Counts-record_and_publish :
      (cmd : CheckCommand) (ids : List ℕ)
      → Counts (record_and_publish env cmd ids (checker env scope) (outbox_writer env scope))
  unfolding record_and_publish
  Counts-record_and_publish cmd ids =
      Counts-bind _ _ (Counts-map_error _ _ (Counts-record_check cmd.user_id cmd.point ids))
        λ id. Counts-publish cmd id ids

module _ (env : Env) (cmd : CheckCommand) where
  Counts-after_find : (inc : List NearbyIncident) → Counts (after_find env cmd inc)
  Counts-after_find inc =
      Counts-bind _ _
        (Counts-map_error _ _ (
          Counts-within_tx_root env (record_in env cmd inc)
            (Counts-record_and_publish env tx cmd _)))
        (λ _. Counts-pure _)

  -- If `CheckAndRecord` returns a result, the search, after which its transaction begins, has made
  -- no more calls than it.
  pub check_and_record-later :
      (w : World) (res : CheckResult)
      → (run env cmd w).0 ≡ ok res
      → (found env cmd w).1.calls ≤ (run env cmd w).1.calls
  unfolding check_and_record
  check_and_record-later w res h = elim (Option-cases (validate_check cmd)) [
    | inr (e, invalid) ↦ absurd (let failed = (rw (invalid, check_valid) at h) in cc)
    | inl valid ↦
        let search = map_error (wrap_error (found_op env cmd)) (found env cmd) in
        let (inc, _, _, same) =
          bind-eq-ok search (after_find env cmd) w (rw (valid, check_valid) at h) in
        rw (valid, check_valid, same) ((Counts-after_find inc).at (found env cmd w).1)
  ]
