-- ===== src/Incidents/Lookup.antt =====
-- What an operation on one incident leaves for the next one to read.
use geo_notifications_servic.Prelude.{
  ℕ, ◌≡◌, refl, ap, sym, ◌∙◌, Bool, true, false, Option, none, some, String, List, [], ◌∷◌, map, ℤ,
  arith, Option-cases, Bool-cases, inl, inr, select, if◌then◌else◌, str_eq, eq_iff,
}
use geo_notifications_servic.Domain.{Incident, UpdateIncident}
use geo_notifications_servic.World.{World, Env, fine, IncidentRow}
use geo_notifications_servic.World.Exec.{ok}
use geo_notifications_servic.Db.{pool}
use geo_notifications_servic.Incidents.{get_by_id, update, first_row}
use geo_notifications_servic.Incidents.Rows.{
  to_domain, has_id, change_row, changes_nothing, or_old, string_or_empty, changed_description,
  null_string,
}

-- The row that a query for an id finds.
abbrev pub lookup : ℤ → List IncidentRow → Option IncidentRow
lookup id rows = first_row (select (λ r. has_id id r.id) rows)

-- An update of the rows that a test picks, for a change that keeps them picked.
abbrev pub changed :
    (IncidentRow → Bool) → (IncidentRow → IncidentRow) → List IncidentRow → List IncidentRow
changed test f rows = map (λ r. if test r then f r else r) rows

abbrev KeepsTest : (IncidentRow → Bool) → (IncidentRow → IncidentRow) → Type 0
KeepsTest test f = (r : IncidentRow) → test r ≡ true → test (f r) ≡ true

select-changed :
    (test : IncidentRow → Bool) (f : IncidentRow → IncidentRow)
    → KeepsTest test f
    → (rows : List IncidentRow) → select test (changed test f rows) ≡ map f (select test rows)
select-changed test f keeps [] = refl
select-changed test f keeps (r ∷ rows) = elim (Bool-cases (test r)) [
  | inl hit ↦ rw (hit, keeps r hit, select-changed test f keeps rows) refl
  | inr miss ↦ rw (miss, miss, select-changed test f keeps rows) refl
]

module _ (env : Env) (id : ℤ) (w : World) where
  pub get_by_id-found :
      (row : IncidentRow)
      → env.reply w.calls ≡ fine
      → lookup id w.tables.incidents ≡ some row
      → (get_by_id env pool id w).0 ≡ ok (to_domain row)
  unfolding get_by_id
  get_by_id-found row r h = ground arith

  get_by_id-ok :
      (inc : Incident)
      → (get_by_id env pool id w).0 ≡ ok inc
      → (row : IncidentRow) × (lookup id w.tables.incidents ≡ some row)
        × (inc ≡ to_domain row)
        × ((get_by_id env pool id w).1.tables ≡ w.tables)
  unfolding get_by_id
  get_by_id-ok inc h = elim (Option-cases (lookup id w.tables.incidents)) [
    | inl missing ↦ absurd (ground arith)
    | inr (row, found) ↦ (row, found, ground arith, ground arith)
  ]

change_row-keeps :
    (u : UpdateIncident) (now : ℕ) (id : ℤ) → KeepsTest (λ r. has_id id r.id) (change_row u now)
unfolding change_row
change_row-keeps u now id r h = h

-- What an accepted update returns is the first of the rows that it picks, and the row of that id
-- afterwards.
module _ (test : IncidentRow → Bool) (f : IncidentRow → IncidentRow)
    (keeps : KeepsTest test f) where
  first-changed :
      (rows : List IncidentRow)
      → first_row (map f (select test rows)) ≡ first_row (select test (changed test f rows))
  first-changed rows = ap first_row (sym (select-changed test f keeps rows))

module _ (env : Env) (id : ℤ) (u : UpdateIncident) (w : World) where
  update-left :
      (inc : Incident)
      → changes_nothing u ≡ false
      → (update env pool id u w).0 ≡ ok inc
      → (row : IncidentRow) × (first_row (
            map
              (change_row u (env.clock w.calls))
              (select (λ r. has_id id r.id) w.tables.incidents))
          ≡ some row)
        × (inc ≡ to_domain row)
        × ((update env pool id u w).1.tables.incidents
            ≡ changed (λ r. has_id id r.id) (change_row u (env.clock w.calls)) w.tables.incidents)
  unfolding update
  update-left inc some_change h =
      elim (Option-cases (
        first_row (
          map (change_row u (env.clock w.calls))
            (select (λ r. has_id id r.id) w.tables.incidents)))) [
              | inl missing ↦ absurd (ground arith)
              | inr (row, found) ↦ (row, found, ground arith, ground arith)
            ]

  update-same : changes_nothing u ≡ true → update env pool id u w ≡ get_by_id env pool id w
  unfolding update
  update-same h = rw h refl

-- What an update makes of an incident: the fields that it names are the new ones, and the others,
-- the id, the state and the time of creation are kept.
pub record Applied (u : UpdateIncident) (old new : Incident) : Type 0 where
  pub id : new.id ≡ old.id
  pub title : new.title ≡ or_old u.title old.title
  pub description : new.description ≡ or_old u.description old.description
  pub center : new.center ≡ or_old u.center old.center
  pub radius : new.radius ≡ or_old u.radius old.radius
  pub active : new.active ≡ old.active
  pub created_at : new.created_at ≡ old.created_at

pub description_read :
    (new old : Option String)
    → string_or_empty (changed_description new old) ≡ or_old new (string_or_empty old)
unfolding changed_description string_or_empty null_string
description_read none old = refl
description_read (some s) old = elim (Bool-cases (str_eq s "")) [
  | inl blank ↦ rw (blank) (sym ((eq_iff _ _).0 blank))
  | inr filled ↦ rw (filled) refl
]

Applied-change_row :
    (u : UpdateIncident) (now : ℕ) (old : IncidentRow)
    → Applied u (to_domain old) (to_domain (change_row u now old))
unfolding change_row to_domain
Applied-change_row u now old = record {
  id = refl;
  title = refl;
  description = description_read u.description old.description;
  center = refl;
  radius = refl;
  active = refl;
  created_at = refl;
}

Applied-nothing :
    (u : UpdateIncident) (old : Incident) → changes_nothing u ≡ true → Applied u old old
unfolding changes_nothing
Applied-nothing u old h = record {
  id = refl;
  title = ground arith;
  description = ground arith;
  center = ground arith;
  radius = ground arith;
  active = refl;
  created_at = refl;
}

first-map :
    (f : IncidentRow → IncidentRow) (rows : List IncidentRow) (row : IncidentRow)
    → first_row (map f rows) ≡ some row
    → (old : IncidentRow) × (first_row rows ≡ some old) × (row ≡ f old)
first-map f [] row h = absurd (cc)
first-map f (r ∷ rows) row h = (r, refl, cc)

module _ (env : Env) (id : ℤ) (u : UpdateIncident) (w : World) (inc : Incident) where
  -- What an update that succeeds has found before, what it answers, and what it leaves to be found.
  pub update-found :
      (update env pool id u w).0 ≡ ok inc
      → (old row : IncidentRow) × (lookup id w.tables.incidents ≡ some old)
        × (lookup id (update env pool id u w).1.tables.incidents ≡ some row)
        × (inc ≡ to_domain row)
        × Applied u (to_domain old) inc
  update-found h = elim (Bool-cases (changes_nothing u)) [
    | inl same ↦
        let read = update-same env id u w same in
        let (row, found, shown, left) = get_by_id-ok env id w inc (rw read at h) in
        (
          row,
          row,
          found,
          rw (read, left) found,
          shown,
          rw shown (Applied-nothing u (to_domain row) same),
        )
    | inr some_change ↦
        let (row, first, shown, left) = update-left env id u w inc some_change h in
        let (old, found, new) = first-map _ _ row first in
        (
          old,
          row,
          found,
          rw left (
              sym (first-changed _ _ (change_row-keeps u (env.clock w.calls) id) w.tables.incidents)
              ∙ first),
          shown,
          rw (shown, new) (Applied-change_row u (env.clock w.calls) old),
        )
  ]
