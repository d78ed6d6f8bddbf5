-- ===== src/Service.antt =====
-- internal/app/incidents/service.go, over the interfaces of `Ports`.
pub mod Checks
pub mod Keeps
pub mod Atomicity
pub mod Order
pub mod RoundTrips
use geo_notifications_servic.Prelude.{
  ℕ, ◌-◌, ◌+◌, Bool, true, false, Option, none, some, String, List, [], ◌∷◌, map, length, ℤ, pos,
  pos_part, ltb_ℤ, leb_ℤ, if◌then◌else◌,
}
use geo_notifications_servic.Errs.{GoError, invalid, new_error, no_cause, wrap_error, plain}
use geo_notifications_servic.Domain.{
  Point, Incident, CreateIncident, UpdateIncident, ListFilter, NearbyIncident, CheckCommand,
  CheckCompleted, validate_create, validate_update, validate_check,
}
use geo_notifications_servic.World.{Env}
use geo_notifications_servic.World.Exec.{M, ok, pure, raise, map_error, ◌>>=◌, ◌>>◌}
use geo_notifications_servic.Ports.{IncidentsRepository, Checker, OutboxRepository, TxRunner}

-- `if err := cmd.Validate(); err != nil { return …, errs.Wrap(op, err) }`
unfoldable pub check_valid : String → Option GoError → M (Unit {0})
check_valid op none = pure tt
check_valid op (some e) = raise (wrap_error op e)

-- `if id <= 0 { … }`
unfoldable pub check_id : String → ℤ → M (Unit {0})
check_id op id =
    if leb_ℤ id (pos 0)
    then raise
        (new_error invalid "INVALID_ID" op "invalid id" (("id", "must be > 0") ∷ []) no_cause)
    else pure tt

abbrev at_least_zero : ℤ → ℤ
at_least_zero n = if ltb_ℤ n (pos 0) then pos 0 else n

pub record CheckResult : Type 0 where
  pub incidents : List NearbyIncident
  pub count : ℕ

marshalled : Option String → String → M String
marshalled none op = raise (wrap_error op (plain "json: unsupported value"))
marshalled (some b) op = pure b

abbrev pub incident_ids : List NearbyIncident → List ℕ
incident_ids = map (λ it. it.incident_id)

abbrev pub completed : CheckCommand → ℕ → List ℕ → ℕ → CheckCompleted
completed cmd check_id ids now = record {
  check_id = check_id;
  user_id = cmd.user_id;
  point = cmd.point;
  incident_ids = ids;
  occurred_at = now;
}

module _ (env : Env) where
  publish : CheckCommand → OutboxRepository → ℕ → List ℕ → M (Unit {0})
  publish cmd outbox check_id [] = pure tt
  publish cmd outbox check_id (i ∷ is) = do
    now ← λ w. (ok (env.clock w.calls), w)
    b ←
        marshalled (env.marshal_event (completed cmd check_id (i ∷ is) now))
          "incidents.app.check_and_record.marshal_event"
    map_error (wrap_error "incidents.app.check_and_record.enqueue_outbox")
        (outbox.enqueue "location_check" b)

  -- The function that `CheckAndRecord` runs within a transaction.
  unfoldable pub record_and_publish :
      CheckCommand → List ℕ → Checker → OutboxRepository → M (Unit {0})
  unfolding publish marshalled
  record_and_publish cmd ids checker outbox = do
    check_id ←
        map_error (wrap_error "incidents.app.check_and_record.record_check")
          (checker.record_check cmd.user_id cmd.point ids)
    publish cmd outbox check_id ids

  module _ (repo : IncidentsRepository) where
    unfoldable pub create : CreateIncident → M Incident
    unfolding check_valid
    create cmd = do
      check_valid "incidents.service.create" (validate_create cmd)
      map_error (wrap_error "incidents.service.create") (repo.create cmd)

    unfoldable pub get_by_id : ℤ → M Incident
    unfolding check_id
    get_by_id id = do
      check_id "incidents.service.get_by_id" id
      map_error (wrap_error "incidents.service.get_by_id") (repo.get_by_id id)

    unfoldable pub list : ListFilter → M (List Incident)
    list f =
        map_error (wrap_error "incidents.service.list")
          (repo.list (record f { limit = at_least_zero f.limit; offset = at_least_zero f.offset }))

    unfoldable pub update : ℤ → UpdateIncident → M Incident
    unfolding check_id check_valid
    update id cmd = do
      check_id "incidents.service.update" id
      check_valid "incidents.service.update" (validate_update cmd)
      map_error (wrap_error "incidents.service.update") (repo.update id cmd)

    unfoldable pub deactivate : ℤ → M (Unit {0})
    unfolding check_id
    deactivate id = do
      check_id "incidents.service.deactivate" id
      map_error (wrap_error "incidents.service.deactivate") (repo.deactivate id)

    unfoldable pub check_and_record : TxRunner → CheckCommand → M CheckResult
    unfolding check_valid record_and_publish
    check_and_record tx cmd = do
      check_valid "incidents.app.check_and_record" (validate_check cmd)
      inc ←
          map_error (wrap_error "incidents.app.check_and_record.find_nearby")
            (repo.find_nearby cmd.point cmd.limit)
      map_error (wrap_error "incidents.app.check_and_record")
          (tx.within_tx (record_and_publish cmd (incident_ids inc)))
      pure (record { incidents = inc; count = length inc })

    -- The window is in the clock's unit; a time before the clock's start is its start.
    unfoldable pub stats : ℤ → M ℕ
    stats window =
        if leb_ℤ window (pos 0)
        then raise (
            new_error invalid "INVALID_WINDOW" "incidents.service.stats" "window must be > 0"
              (("window", "must be > 0") ∷ []) no_cause)
        else (do
          since ← λ w. (ok (env.clock w.calls - pos_part window), w)
          map_error (wrap_error "incidents.service.stats") (repo.count_unique_users_since since))
