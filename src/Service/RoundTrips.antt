-- ===== src/Service/RoundTrips.antt =====
-- Requests about one incident, one after the other, over the database.
use geo_notifications_servic.Prelude.{
  ℕ, ◌≡◌, refl, sym, ap, ◌∙◌, true, false, none, some, ℤ, pos, leb_ℤ, arith, ◌<◌, String, [],
}
use geo_notifications_servic.Errs.{GoError, not_found, no_rows, wrap_error, as_error}
use geo_notifications_servic.Errs.Laws.{report, report-wrap_error}
use geo_notifications_servic.Domain.{Incident, CreateIncident, UpdateIncident, validate_create}
use geo_notifications_servic.Domain.Validation.{IsValidCreate, validate_create_iff}
use geo_notifications_servic.World.{World, Env, fine, IncidentRow}
use geo_notifications_servic.World.Exec.{ok, err}
use geo_notifications_servic.Db.{pool}
use geo_notifications_servic.Db.Errs.{db_error}
use geo_notifications_servic.Ports.{IncidentsRepository}
use geo_notifications_servic.Incidents.Lookup.{
  lookup, description_read, Applied, get_by_id-found, update-found,
}
use geo_notifications_servic.Incidents.Lifecycle.{
  created, HasFreshIds, new_incident, create-added, lookup-create, deactivate_twice,
}
use geo_notifications_servic.Incidents.Rows.{to_domain, changed_description}
use geo_notifications_servic.Incidents
use geo_notifications_servic.TxRunner.{base_repository}
use geo_notifications_servic.Service

-- What a method that succeeds has got from the repository, whichever that is.
module _ (env : Env) (repo : IncidentsRepository) (w : World) where
  pub create-passed :
      (c : CreateIncident) (inc : Incident)
      → (Service.create env repo c w).0 ≡ ok inc
      → (validate_create c ≡ none)
        × ((repo.create c w).0 ≡ ok inc)
        × ((Service.create env repo c w).1 ≡ (repo.create c w).1)
  unfolding Service.create
  create-passed c inc h = ground arith

  update-passed :
      (id : ℤ) (u : UpdateIncident) (inc : Incident)
      → (Service.update env repo id u w).0 ≡ ok inc
      → (leb_ℤ id (pos 0) ≡ false)
        × ((repo.update id u w).0 ≡ ok inc)
        × ((Service.update env repo id u w).1 ≡ (repo.update id u w).1)
  unfolding Service.update
  update-passed id u inc h = ground arith

  pub get_by_id-passes :
      (id : ℤ) (inc : Incident)
      → leb_ℤ id (pos 0) ≡ false
      → (repo.get_by_id id w).0 ≡ ok inc
      → (Service.get_by_id env repo id w).0 ≡ ok inc
  unfolding Service.get_by_id
  get_by_id-passes id inc least h = ground arith

  deactivate-passed :
      (id : ℤ)
      → (Service.deactivate env repo id w).0 ≡ ok tt
      → (leb_ℤ id (pos 0) ≡ false)
        × ((repo.deactivate id w).0 ≡ ok tt)
        × ((Service.deactivate env repo id w).1 ≡ (repo.deactivate id w).1)
  unfolding Service.deactivate
  deactivate-passed id h = ground arith

  deactivate-fails :
      (id : ℤ) (e : GoError)
      → leb_ℤ id (pos 0) ≡ false
      → (repo.deactivate id w).0 ≡ err e
      → (Service.deactivate env repo id w).0 ≡ err (wrap_error "incidents.service.deactivate" e)
  unfolding Service.deactivate
  deactivate-fails id e least h = ground arith

report-no_rows :
    (op : String)
    → report (db_error op no_rows) ≡ record { kind = not_found; code = "NOT_FOUND"; fields = [] }
unfolding db_error as_error
report-no_rows op = refl

-- What the incident of a create command is: a new, active one with the command's fields.
pub record Created (c : CreateIncident) (inc : Incident) : Type 0 where
  pub title : inc.title ≡ c.title
  pub description : inc.description ≡ c.description
  pub center : inc.center ≡ c.center
  pub radius : inc.radius ≡ c.radius
  pub active : inc.active ≡ true
  pub updated_at : inc.updated_at ≡ inc.created_at

pub Created-created : (c : CreateIncident) (id now : ℕ) → Created c (to_domain (created c id now))
unfolding to_domain changed_description
Created-created c id now = record {
  title = refl;
  description = description_read (some c.description) none;
  center = refl;
  radius = refl;
  active = refl;
  updated_at = refl;
}

pub positive_id : (row : IncidentRow) → 0 < row.id → leb_ℤ (pos (to_domain row).id) (pos 0) ≡ false
unfolding to_domain
positive_id row h = ground arith

module _ (env : Env) (w : World) where
  -- If the ids in use are below the next one, which is positive, and creating an incident succeeds,
  -- then the command was valid, the answer is a new active incident with the command's fields, and a request for its
  -- id that follows, and that the database answers, returns the same incident.
  pub create_then_get :
      (c : CreateIncident) (inc : Incident)
      → HasFreshIds w
      → (Service.create env (base_repository env) c w).0 ≡ ok inc
      → let w' = (Service.create env (base_repository env) c w).1 in
        env.reply w'.calls ≡ fine
        → IsValidCreate c
          × Created c inc
          × ((Service.get_by_id env (base_repository env) (pos inc.id) w').0 ≡ ok inc)
  create_then_get c inc fresh h r =
      let (valid, stored, same) = create-passed env (base_repository env) w c inc h in
      let (shown, left) = create-added env c w inc stored in
      let v = (Incidents.create env pool c w).1 in
      let at_v =
        get_by_id-found env (pos inc.id) v (new_incident env c w) (rw same at r)
          (lookup-create env c w inc fresh stored) in
      (
        (validate_create_iff c).0 valid,
        rw shown (Created-created c w.sequences.incident_id (env.clock w.calls)),
        rw same (
            get_by_id-passes env (base_repository env) v (pos inc.id) inc
              (rw shown (positive_id (new_incident env c w) fresh.0)) (at_v ∙ ap ok (sym shown))),
      )

  -- If updating an incident succeeds, there was an incident with the id, the answer has the fields
  -- that the command names as the command gives them and the other ones as they were, and a request
  -- for the id that follows, and that the database answers, returns the same incident.
  pub update_then_get :
      (id : ℤ) (u : UpdateIncident) (inc : Incident)
      → (Service.update env (base_repository env) id u w).0 ≡ ok inc
      → let w' = (Service.update env (base_repository env) id u w).1 in
        env.reply w'.calls ≡ fine
        → (old : IncidentRow) × (lookup id w.tables.incidents ≡ some old)
          × Applied u (to_domain old) inc
          × ((Service.get_by_id env (base_repository env) id w').0 ≡ ok inc)
  update_then_get id u inc h r =
      let (least, stored, same) = update-passed env (base_repository env) w id u inc h in
      let (old, row, before, after, shown, applied) = update-found env id u w inc stored in
      let v = (Incidents.update env pool id u w).1 in
      let at_v = get_by_id-found env id v row (rw same at r) after in
      (
        old,
        before,
        applied,
        rw same
            (get_by_id-passes env (base_repository env) v id inc least (at_v ∙ ap ok (sym shown))),
      )

  -- If deactivating an incident succeeds, a second request to deactivate it that follows, and that
  -- the database answers, fails with an error that is reported as NOT_FOUND.
  pub deactivate_then_deactivate :
      (id : ℤ)
      → (Service.deactivate env (base_repository env) id w).0 ≡ ok tt
      → let w' = (Service.deactivate env (base_repository env) id w).1 in
        env.reply w'.calls ≡ fine
        → (e : GoError) × ((Service.deactivate env (base_repository env) id w').0 ≡ err e)
          × (report e ≡ record { kind = not_found; code = "NOT_FOUND"; fields = [] })
  deactivate_then_deactivate id h r =
      let (least, stored, same) = deactivate-passed env (base_repository env) w id h in
      let v = (Incidents.deactivate env pool id w).1 in
      let second = deactivate_twice env id w stored (rw same at r) in
      (
        wrap_error "incidents.service.deactivate" (db_error "incidents.repo.deactivate" no_rows),
        rw same (deactivate-fails env (base_repository env) v id _ least second),
        report-wrap_error _ _ ∙ report-no_rows "incidents.repo.deactivate",
      )
