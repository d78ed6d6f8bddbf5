-- ===== src/Tests/Editing.antt =====
-- An incident that is created, updated, deactivated and searched for.
use geo_notifications_servic.Prelude.{
  ℕ, ◌++◌, ◌≡◌, ◌≤◌, refl, some, true, [], ◌∷◌, pos, pos_part, length, All, arith,
}
use geo_notifications_servic.Errs.{GoError, not_found}
use geo_notifications_servic.Errs.Laws.{report}
use geo_notifications_servic.Domain.{Incident, CreateIncident, validate_update}
use geo_notifications_servic.World.{IncidentRow, World}
use geo_notifications_servic.World.Exec.{ok, err}
use geo_notifications_servic.Db.{pool}
use geo_notifications_servic.TxRunner.{base_repository}
use geo_notifications_servic.Service
use geo_notifications_servic.Service.RoundTrips.{update_then_get, deactivate_then_deactivate}
use geo_notifications_servic.Incidents
use geo_notifications_servic.Incidents.{find_nearby, list}
use geo_notifications_servic.Incidents.Rows.{
  to_domain, null_string, scan_descriptions, newest_first, nearest_first, to_nearby, change_row,
  changes_nothing,
}
use geo_notifications_servic.Incidents.Lookup.{lookup, Applied}
use geo_notifications_servic.Incidents.Nearby.{IsHit, find_nearby-IsHit}
use geo_notifications_servic.Incidents.Order.{Reordered, same, swap}
use geo_notifications_servic.Incidents.Pages.{filter_of, list-append}
use geo_notifications_servic.Tests.Samples.{fire, good, start, spot, fire_nearby, enlarged}

abbrev flood : CreateIncident
flood = record { title = "flood"; description = ""; center = spot; radius = pos 7 }

abbrev larger : Incident
larger = record {
  id = 1;
  title = "fire";
  description = "";
  center = spot;
  radius = pos 9;
  active = true;
  created_at = 0;
  updated_at = 0;
}

edited : (Service.update good (base_repository good) (pos 1) enlarged start).0 ≡ ok larger
unfolding Service.update Incidents.update validate_update change_row changes_nothing to_domain
    null_string
edited = refl

update_then_get_example :
    (old : IncidentRow) × (lookup (pos 1) start.tables.incidents ≡ some old)
    × Applied enlarged (to_domain old) larger
    × ((Service.get_by_id good
          (base_repository good)
          (pos 1)
          (Service.update good (base_repository good) (pos 1) enlarged start).1).0
        ≡ ok larger)
update_then_get_example = update_then_get good start (pos 1) enlarged larger edited refl

closed : (Service.deactivate good (base_repository good) (pos 1) start).0 ≡ ok tt
unfolding Service.deactivate Incidents.deactivate
closed = refl

deactivate_then_deactivate_example :
    (e : GoError) × ((Service.deactivate good
        (base_repository good)
        (pos 1)
        (Service.deactivate good (base_repository good) (pos 1) start).1).0
      ≡ err e)
    × (report e ≡ record { kind = not_found; code = "NOT_FOUND"; fields = [] })
deactivate_then_deactivate_example = deactivate_then_deactivate good start (pos 1) closed refl

seen : (find_nearby good pool spot (pos 10) start).0 ≡ ok (fire_nearby ∷ [])
unfolding find_nearby scan_descriptions nearest_first to_nearby
seen = refl

find_nearby-IsHit_example :
    (length (fire_nearby ∷ []) ≤ pos_part (pos 10))
    × All (IsHit good spot start.tables.incidents) (fire_nearby ∷ [])
find_nearby-IsHit_example = find_nearby-IsHit good spot (pos 10) start (fire_nearby ∷ []) seen

abbrev crowded : World
crowded = record start {
  tables = record start.tables { incidents = fire ∷ record fire { id = 2 } ∷ [] };
}

abbrev fire_shown : ℕ → Incident
fire_shown id = record {
  id = id;
  title = "fire";
  description = "smoke";
  center = spot;
  radius = pos 50;
  active = true;
  created_at = 0;
  updated_at = 0;
}

first_page : (list good pool (filter_of true 1 0) crowded).0 ≡ ok (fire_shown 2 ∷ [])
unfolding list newest_first to_domain
first_page = refl

-- The same rows, in the other order.
abbrev shuffled : World
shuffled = record crowded {
  tables = record crowded.tables { incidents = record fire { id = 2 } ∷ fire ∷ [] };
}

reordered : Reordered shuffled.tables.incidents crowded.tables.incidents
reordered = swap (record fire { id = 2 }) fire (omega arith)

next_page : (list good pool (filter_of true 2 1) shuffled).0 ≡ ok (fire_shown 1 ∷ [])
unfolding list newest_first to_domain
next_page = refl

whole_page : (list good pool (filter_of true 3 0) crowded).0 ≡ ok (fire_shown 2 ∷ fire_shown 1 ∷ [])
unfolding list newest_first to_domain
whole_page = refl

list-append_example :
    (fire_shown 2 ∷ fire_shown 1 ∷ []) ≡ (fire_shown 2 ∷ []) ++ (fire_shown 1 ∷ [])
list-append_example =
    list-append good true 1 2 0 crowded shuffled crowded (fire_shown 2 ∷ []) (fire_shown 1 ∷ [])
      (fire_shown 2 ∷ fire_shown 1 ∷ []) reordered same first_page next_page whole_page
