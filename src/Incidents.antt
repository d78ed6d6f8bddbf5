-- ===== src/Incidents.antt =====
-- internal/platform/db/incidents/incidents.go: the incidents, the location checks, and what is read
-- back of them. Each SQL text is a statement on the tables.
pub mod Rows
pub mod Lookup
pub mod Lifecycle
pub mod Nearby
pub mod Order
pub mod Pages
use geo_notifications_servic.Prelude.{
  ℕ, suc, ◌+◌, Bool, true, false, not, ◌&&◌, ◌||◌, Option, none, some, String, List, [], ◌∷◌, ◌++◌,
  map, ℤ, pos, ltb_ℤ, leb_ℤ, pos_part, ltb, leb, ◌==◌, elem, length, take, drop, select, str_eq,
  if◌then◌else◌,
}
use geo_notifications_servic.Errs.{GoError, pg_error, no_rows, plain}
use geo_notifications_servic.Domain.{
  Point, Incident, CreateIncident, UpdateIncident, ListFilter, NearbyIncident,
}
use geo_notifications_servic.Domain.Floats.{Float64, float_lt}
use geo_notifications_servic.World.{World, Env, IncidentRow, CheckRow, Tables, Sequences}
use geo_notifications_servic.World.Exec.{M, pure, raise, map_error, ◌>>=◌, ◌>>◌}
use geo_notifications_servic.Db.{SqlResult, done, refused, Statement, Scope, run_statement}
use geo_notifications_servic.Db.Errs.{db_error}
use Rows.{
  to_domain, to_nearby, null_string, has_id, newest_first, nearest_first, scan_descriptions,
  change_row, changes_nothing, distinct_users, has_duplicate,
}

-- sqlx.GetContext: no row is sql.ErrNoRows, which the server knows nothing of.
unfoldable pub the_row {ℓ} : {A : Type ℓ} → Option A → M A
the_row none = raise no_rows
the_row (some a) = pure a

abbrev pub get_context {ℓ} : {A : Type ℓ} → M (Option A) → M A
get_context m = m >>= the_row

-- The constraint CHECK (radius > 0).
unfoldable pub check_violation : GoError
check_violation = pg_error "23514" "new row violates check constraint"

abbrev pub set_incidents : Tables → List IncidentRow → Tables
set_incidents t rows = record t { incidents = rows }

unfoldable pub insert_incident : CreateIncident → Statement (Option IncidentRow)
insert_incident c now t s =
    let row : IncidentRow = record {
      id = s.incident_id;
      title = c.title;
      description = null_string c.description;
      center = c.center;
      radius = c.radius;
      active = true;
      created_at = now;
      updated_at = now;
    } in
    let s' = record s { incident_id = suc s.incident_id } in
    if leb_ℤ c.radius (pos 0)
    then (refused check_violation, s')
    else (done (some row) (set_incidents t (t.incidents ++ row ∷ [])), s')

unfoldable pub create : Env → Scope → CreateIncident → M Incident
unfolding insert_incident the_row check_violation run_statement
create env scope c =
    map_error (db_error "incidents.repo.create")
      (get_context (run_statement env scope (insert_incident c)))
    >>= λ row. pure (to_domain row)

abbrev pub first_row {ℓ} : {A : Type ℓ} → List A → Option A
first_row [] = none
first_row (x ∷ xs) = some x

unfoldable pub select_by_id : ℤ → Statement (Option IncidentRow)
select_by_id id now t s = (done (first_row (select (λ r. has_id id r.id) t.incidents)) t, s)

unfoldable pub get_by_id : Env → Scope → ℤ → M Incident
unfolding select_by_id the_row run_statement
get_by_id env scope id =
    map_error (db_error "incidents.repo.get_by_id")
      (get_context (run_statement env scope (select_by_id id)))
    >>= λ row. pure (to_domain row)

-- The server refuses a negative LIMIT or OFFSET.
unfoldable pub select_page : ListFilter → Statement (List IncidentRow)
select_page f now t s =
    if ltb_ℤ f.limit (pos 0)
    then (refused (pg_error "2201W" "LIMIT must not be negative"), s)
    else if ltb_ℤ f.offset (pos 0)
    then (refused (pg_error "2201X" "OFFSET must not be negative"), s)
    else let rows = if f.active_only then select (λ r. r.active) t.incidents else t.incidents in
      (done (take (pos_part f.limit) (drop (pos_part f.offset) (newest_first rows))) t, s)

unfoldable pub list : Env → Scope → ListFilter → M (List Incident)
unfolding select_page run_statement
list env scope f =
    map_error (db_error "incidents.repo.list") (run_statement env scope (select_page f)) >>= λ rows.
    pure (map to_domain rows)

-- UPDATE … RETURNING: the rows that `test` picks are changed; the first of them is returned.
unfoldable pub update_where :
    (IncidentRow → Bool) → (IncidentRow → IncidentRow) → Statement (Option IncidentRow)
update_where test change now t s =
    let picked = map change (select test t.incidents) in
    let bad = select (λ r. leb_ℤ r.radius (pos 0)) picked in
    if ltb 0 (length bad) then (refused check_violation, s) else (
      done (first_row picked)
          (set_incidents t (map (λ r. if test r then change r else r) t.incidents)),
      s,
    )

-- SET active = FALSE, updated_at = NOW() WHERE id = $1 AND active = TRUE RETURNING id
unfoldable pub deactivate_row : ℤ → Statement (Option IncidentRow)
deactivate_row id now =
    update_where (λ r. has_id id r.id && r.active)
      (λ r. record r { active = false; updated_at = now }) now

unfoldable pub deactivate : Env → Scope → ℤ → M (Unit {0})
unfolding deactivate_row update_where the_row check_violation run_statement
deactivate env scope id =
    map_error (db_error "incidents.repo.deactivate")
      (get_context (run_statement env scope (deactivate_row id)))
    >>= λ row. pure tt

unfoldable pub update_row : ℤ → UpdateIncident → Statement (Option IncidentRow)
update_row id u now = update_where (λ r. has_id id r.id) (change_row u now) now

unfoldable pub update : Env → Scope → ℤ → UpdateIncident → M Incident
unfolding update_row update_where the_row check_violation run_statement get_by_id
update env scope id u =
    if changes_nothing u
    then get_by_id env scope id
    else (map_error (db_error "incidents.repo.update")
          (get_context (run_statement env scope (update_row id u)))
        >>= λ row. pure (to_domain row))

-- WHERE active AND ST_DWithin(…) ORDER BY distance LIMIT $3
unfoldable pub select_nearby : Env → Point → ℤ → Statement (List IncidentRow)
select_nearby env p limit now t s =
    if ltb_ℤ limit (pos 0)
    then (refused (pg_error "2201W" "LIMIT must not be negative"), s)
    else let near = select (λ r. r.active && env.is_within r.center p r.radius) t.incidents in
      (done (take (pos_part limit) (nearest_first env p near)) t, s)

-- A NULL description cannot be scanned into the string of `dbNearbyIncident`.
unfoldable pub scanned : Env → Point → List IncidentRow → M (List NearbyIncident)
scanned env p rows =
    if scan_descriptions rows
    then pure (map (to_nearby env p) rows)
    else raise (plain "sql: Scan error: converting NULL to string is unsupported")

unfoldable pub find_nearby : Env → Scope → Point → ℤ → M (List NearbyIncident)
unfolding select_nearby scanned run_statement
find_nearby env scope p limit =
    map_error (db_error "incidents.repo.find_nearby")
      (run_statement env scope (select_nearby env p limit) >>= scanned env p)

unfoldable pub insert_check : String → Point → Statement ℕ
insert_check user_id p now t s =
    let row : CheckRow = record {
      id = s.check_id;
      user_id = user_id;
      location = p;
      created_at = now;
    } in
    (
      done s.check_id (record t { checks = t.checks ++ row ∷ [] }),
      record s { check_id = suc s.check_id },
    )

-- The primary key of the links, and their references to incidents.
unfoldable pub insert_links : ℕ → List ℕ → Statement (Unit {0})
insert_links check_id incident_ids now t s =
    if has_duplicate incident_ids
    then (refused (pg_error "23505" "duplicate key value violates unique constraint"), s)
    else if ltb 0 (length (select (λ i. not (elem i (map (λ r. r.id) t.incidents))) incident_ids))
    then (refused (pg_error "23503" "insert violates foreign key constraint"), s)
    else (done tt (record t { links = t.links ++ map (λ i. (check_id, i)) incident_ids }), s)

unfoldable pub link_incidents : Env → Scope → ℕ → List ℕ → M (Unit {0})
link_incidents env scope check_id [] = pure tt
link_incidents env scope check_id (i ∷ is) =
    map_error (db_error "incidents.repo.record_check")
      (run_statement env scope (insert_links check_id (i ∷ is)))

unfoldable pub record_check : Env → Scope → String → Point → List ℕ → M ℕ
unfolding link_incidents insert_links insert_check run_statement
record_check env scope user_id p incident_ids = do
  check_id ←
      map_error (db_error "incidents.repo.record_check")
        (run_statement env scope (insert_check user_id p))
  link_incidents env scope check_id incident_ids
  pure check_id

-- SELECT COUNT(DISTINCT user_id) … WHERE created_at >= $1
count_users : ℕ → Statement ℕ
count_users since now t s = (
  done
      (length
        (distinct_users (map (λ c. c.user_id) (select (λ c. leb since c.created_at) t.checks))))
      t,
  s,
)

unfoldable pub count_unique_users_since : Env → Scope → ℕ → M ℕ
unfolding count_users run_statement
count_unique_users_since env scope since =
    map_error (db_error "incidents.repo.count_unique_users_since")
      (run_statement env scope (count_users since))
