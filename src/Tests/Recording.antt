-- ===== src/Tests/Recording.antt =====
-- A location check near one incident.
use geo_notifications_servic.Prelude.{◌≡◌, refl, ◌⊎◌, List, [], ◌∷◌, length, trim_space}
use geo_notifications_servic.World.Exec.{ok, M}
use geo_notifications_servic.Domain.{validate_check, validate_point}
use geo_notifications_servic.Incidents.{find_nearby, record_check}
use geo_notifications_servic.Incidents.Rows.{
  scan_descriptions, nearest_first, has_duplicate, to_nearby,
}
use geo_notifications_servic.Outbox.{enqueue}
use geo_notifications_servic.Db.{within_tx_root}
use geo_notifications_servic.Domain.{NearbyIncident}
use geo_notifications_servic.Domain.Validation.{IsValidCheck}
use geo_notifications_servic.Db.{within_tx, pool, Scope}
use geo_notifications_servic.Db.Atomicity.{within_tx-all_or_nothing, body}
use geo_notifications_servic.Service.{CheckResult, check_and_record, incident_ids}
use geo_notifications_servic.Service.Checks.{Recorded}
use geo_notifications_servic.Service.Atomicity.{
  run, found, check_and_record_atomic, check_and_record-ok,
}
use geo_notifications_servic.Tests.Samples.{good, failing, start, ask, fire_nearby}

-- The fourth call is the first statement in the transaction.
check_and_record_atomic_example :
    ((run (failing 3) ask start).1.tables ≡ start.tables)
    ⊎ ((inc : List NearbyIncident) × ((found (failing 3) ask start).0 ≡ ok inc)
        × Recorded
            (failing 3)
            ask
            (incident_ids inc)
            ((failing 3).clock (found (failing 3) ask start).1.calls)
            start.tables
            (run (failing 3) ask start).1.tables)
check_and_record_atomic_example = check_and_record_atomic (failing 3) ask start

abbrev answer : CheckResult
answer = record { incidents = fire_nearby ∷ []; count = 1 }

answered : (run good ask start).0 ≡ ok answer
unfolding check_and_record validate_check trim_space validate_point find_nearby scan_descriptions
    nearest_first within_tx_root record_check has_duplicate to_nearby enqueue
answered = refl

check_and_record-ok_example :
    IsValidCheck ask
    × ((found good ask start).0 ≡ ok answer.incidents)
    × (answer.count ≡ length answer.incidents)
    × Recorded good ask
        (incident_ids answer.incidents)
        (good.clock (found good ask start).1.calls)
        start.tables
        (run good ask start).1.tables
check_and_record-ok_example = check_and_record-ok good ask start answer answered

-- A unit of work that empties the outbox.
abbrev clearing : Scope → M (Unit {0})
clearing scope w = (ok tt, record w { tables = record w.tables { outbox = [] } })

within_tx-all_or_nothing_example :
    ((within_tx (failing 1) pool clearing start).1.tables ≡ start.tables)
    ⊎ ((a : Unit {0}) × ((body (failing 1) clearing start).0 ≡ ok a)
        × ((within_tx (failing 1) pool clearing start).1.tables
            ≡ (body (failing 1) clearing start).1.tables))
within_tx-all_or_nothing_example = within_tx-all_or_nothing (failing 1) clearing start
