-- ===== src/Incidents/Lifecycle.antt =====
-- The creation and the deactivation of an incident, and what they leave.
use geo_notifications_servic.Prelude.{
  ℕ, ◌<◌, ◌≡◌, refl, ap, ◌∙◌, Bool, true, false, ◌&&◌, some, List, [], ◌∷◌, ◌++◌, ℤ, pos, arith,
  select, All,
}
use geo_notifications_servic.Errs.{no_rows}
use geo_notifications_servic.Domain.{Incident, CreateIncident}
use geo_notifications_servic.World.{World, Env, fine, IncidentRow}
use geo_notifications_servic.World.Exec.{ok, err}
use geo_notifications_servic.Db.{pool}
use geo_notifications_servic.Db.Errs.{db_error}
use geo_notifications_servic.Incidents.{create, deactivate}
use geo_notifications_servic.Incidents.Rows.{null_string, to_domain, has_id}
use geo_notifications_servic.Incidents.Lookup.{lookup, changed}

-- The ids start at one, and those in the table are below the next value of their sequence.
abbrev pub HasFreshIds : World → Type 0
HasFreshIds w =
    (0 < w.sequences.incident_id) × All (λ r. r.id < w.sequences.incident_id) w.tables.incidents

lookup-append :
    (row : IncidentRow) (rows : List IncidentRow)
    → All (λ r. r.id < row.id) rows
    → lookup (pos row.id) (rows ++ row ∷ []) ≡ some row
lookup-append row [] h = ground arith
lookup-append row (r ∷ rows) (lt, h) = let rest = lookup-append row rows h in ground arith

-- The row that a creation adds.
abbrev pub created : CreateIncident → ℕ → ℕ → IncidentRow
created c id now = record {
  id = id;
  title = c.title;
  description = null_string c.description;
  center = c.center;
  radius = c.radius;
  active = true;
  created_at = now;
  updated_at = now;
}

module _ (env : Env) (c : CreateIncident) (w : World) where
  abbrev pub new_incident : IncidentRow
  new_incident = created c w.sequences.incident_id (env.clock w.calls)

  -- What a creation that succeeds answers and adds.
  pub create-added :
      (inc : Incident)
      → (create env pool c w).0 ≡ ok inc
      → (inc ≡ to_domain new_incident)
        × ((create env pool c w).1.tables.incidents ≡ w.tables.incidents ++ new_incident ∷ [])
  unfolding create
  create-added inc h = ground arith

module _ (id : ℤ) where
  abbrev pub is_active : IncidentRow → Bool
  is_active r = has_id id r.id && r.active

  abbrev pub deactivated : ℕ → IncidentRow → IncidentRow
  deactivated now r = record r { active = false; updated_at = now }

  none-active :
      (now : ℕ) (rows : List IncidentRow)
      → select is_active (changed is_active (deactivated now) rows) ≡ []
  none-active now [] = refl
  none-active now (r ∷ rows) = let rest = none-active now rows in ground arith

  module _ (env : Env) (w : World) where
    deactivate-left :
        (deactivate env pool id w).0 ≡ ok tt
        → (deactivate env pool id w).1.tables.incidents
          ≡ changed is_active (deactivated (env.clock w.calls)) w.tables.incidents
    unfolding deactivate
    deactivate-left h = ground arith

    deactivate-missing :
        env.reply w.calls ≡ fine
        → select is_active w.tables.incidents ≡ []
        → (deactivate env pool id w).0 ≡ err (db_error "incidents.repo.deactivate" no_rows)
    unfolding deactivate
    deactivate-missing r h = ground arith

-- The incident of a creation that succeeds is found by its id.
pub lookup-create :
    (env : Env) (c : CreateIncident) (w : World) (inc : Incident)
    → HasFreshIds w
    → (create env pool c w).0 ≡ ok inc
    → lookup (pos inc.id) (create env pool c w).1.tables.incidents ≡ some (new_incident env c w)
unfolding to_domain
lookup-create env c w inc fresh h =
    let (shown, left) = create-added env c w inc h in
    rw (shown, left) (lookup-append (new_incident env c w) w.tables.incidents fresh.1)

-- Once an incident is deactivated, a second deactivation of it finds nothing.
pub deactivate_twice :
    (env : Env) (id : ℤ) (w : World)
    → (deactivate env pool id w).0 ≡ ok tt
    → env.reply (deactivate env pool id w).1.calls ≡ fine
    → (deactivate env pool id (deactivate env pool id w).1).0
      ≡ err (db_error "incidents.repo.deactivate" no_rows)
deactivate_twice env id w h r = deactivate-missing id env (deactivate env pool id w).1 r (
    ap (select (is_active id)) (deactivate-left id env w h)
    ∙ none-active id (env.clock w.calls) w.tables.incidents)
