-- ===== src/Incidents/Rows.antt =====
-- Rows of internal/platform/db/incidents/incidents.go: their conversion to the domain's types, and
-- what the SQL texts compute from them.
use geo_notifications_servic.Prelude.{
  ℕ, Bool, true, false, ◌&&◌, ◌||◌, Option, none, some, String, List, [], ◌∷◌, ℤ, pos, negsuc, ltb,
  ◌==◌, elem, str_eq, if◌then◌else◌,
}
use geo_notifications_servic.Domain.{Point, Incident, UpdateIncident, NearbyIncident}
use geo_notifications_servic.Domain.Floats.{float_lt, is_nan}
use geo_notifications_servic.World.{Env, IncidentRow}

-- The empty string is stored as NULL.
unfoldable pub null_string : String → Option String
null_string s = if str_eq s "" then none else some s

unfoldable pub string_or_empty : Option String → String
string_or_empty none = ""
string_or_empty (some s) = s

unfoldable pub to_domain : IncidentRow → Incident
unfolding string_or_empty
to_domain d = record {
  id = d.id;
  title = d.title;
  description = string_or_empty d.description;
  center = d.center;
  radius = d.radius;
  active = d.active;
  created_at = d.created_at;
  updated_at = d.updated_at;
}

-- The conversion of a row whose description is not NULL.
unfoldable pub to_nearby : Env → Point → IncidentRow → NearbyIncident
unfolding string_or_empty
to_nearby env p d = record {
  incident_id = d.id;
  distance_meters = env.distance d.center p;
  title = d.title;
  description = string_or_empty d.description;
  center = d.center;
  radius = d.radius;
  created_at = d.created_at;
  updated_at = d.updated_at;
}

abbrev pub is_some {ℓ} : {A : Type ℓ} → Option A → Bool
is_some none = false
is_some (some a) = true

-- No description among these rows is NULL.
unfoldable pub scan_descriptions : List IncidentRow → Bool
scan_descriptions [] = true
scan_descriptions (r ∷ rows) = is_some r.description && scan_descriptions rows

-- WHERE id = $1, for a parameter of type int64.
abbrev pub has_id : ℤ → ℕ → Bool
has_id (pos n) id = n == id
has_id (negsuc n) id = false

-- ORDER BY created_at DESC, id DESC
unfoldable pub is_newer : IncidentRow → IncidentRow → Bool
is_newer a b = ltb b.created_at a.created_at || (a.created_at == b.created_at && ltb b.id a.id)

module _ (before : IncidentRow → IncidentRow → Bool) where
  unfoldable pub insert_sorted : IncidentRow → List IncidentRow → List IncidentRow
  insert_sorted x [] = x ∷ []
  insert_sorted x (y ∷ ys) =
      let rest = insert_sorted x ys in if before y x then y ∷ rest else x ∷ y ∷ ys

  unfoldable pub sort_rows : List IncidentRow → List IncidentRow
  sort_rows [] = []
  sort_rows (x ∷ xs) = insert_sorted x (sort_rows xs)

unfoldable pub newest_first : List IncidentRow → List IncidentRow
unfolding sort_rows insert_sorted is_newer
newest_first = sort_rows is_newer

-- ORDER BY distance_m ASC; the server puts a NaN after every number. Rows at one distance are taken
-- in the order of the table.
unfoldable pub is_nearer : Env → Point → IncidentRow → IncidentRow → Bool
is_nearer env p a b =
    let x = env.distance a.center p in
    let y = env.distance b.center p in
    float_lt x y || (is_nan y && (if is_nan x then false else true))

unfoldable pub nearest_first : Env → Point → List IncidentRow → List IncidentRow
unfolding sort_rows insert_sorted is_nearer
nearest_first env p = sort_rows (is_nearer env p)

abbrev pub or_old {ℓ} : {A : Type ℓ} → Option A → A → A
or_old none old = old
or_old (some new) old = new

unfoldable pub changed_description : Option String → Option String → Option String
changed_description none old = old
changed_description (some s) old = null_string s

-- The SET parts of an update.
unfoldable pub change_row : UpdateIncident → ℕ → IncidentRow → IncidentRow
unfolding changed_description
change_row u now r = record r {
  title = or_old u.title r.title;
  description = changed_description u.description r.description;
  center = or_old u.center r.center;
  radius = or_old u.radius r.radius;
  updated_at = now;
}

unfoldable pub changes_nothing : UpdateIncident → Bool
changes_nothing u =
    if is_some u.title || is_some u.description || is_some u.center || is_some u.radius
    then false
    else true

text_among : String → List String → Bool
text_among s [] = false
text_among s (t ∷ ts) = str_eq s t || text_among s ts

unfoldable pub distinct_users : List String → List String
unfolding text_among
distinct_users [] = []
distinct_users (u ∷ us) = let rest = distinct_users us in if text_among u us then rest else u ∷ rest

unfoldable pub has_duplicate : List ℕ → Bool
has_duplicate [] = false
has_duplicate (i ∷ is) = elem i is || has_duplicate is
