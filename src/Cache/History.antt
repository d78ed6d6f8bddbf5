-- ===== src/Cache/History.antt =====
-- Any sequence of calls of the cached repository, while Redis and the database answer.
use geo_notifications_servic.Prelude.{
  ℕ, ◌<◌, ◌≡◌, refl, ap, Bool, false, ◌&&◌, Option, none, some, List, [], ◌∷◌, map, select, ℤ,
  arith, Bool-cases, Option-cases, inl, inr,
}
use geo_notifications_servic.Domain.{Point, Incident, CreateIncident, UpdateIncident}
use geo_notifications_servic.World.{World, Env, IncidentRow}
use geo_notifications_servic.World.Exec.{
  Result, ok, err, panicked, M, continue, map_result_error, pure,
}
use geo_notifications_servic.Errs.{GoError}
use geo_notifications_servic.Db.Errs.{db_error}
use geo_notifications_servic.Incidents.Rows.{has_id, change_row, changes_nothing, to_domain}
use geo_notifications_servic.Db.{pool, run_statement}
use geo_notifications_servic.Incidents.Lookup.{changed}
use geo_notifications_servic.Relay.Rounds.{calm}
use geo_notifications_servic.Incidents
use geo_notifications_servic.Cache.{bumped, raised, redis, redis_reply, bump_version}
use geo_notifications_servic.Cache.Pages.{current, IsCoherent, All-IsRight-rise}

-- What a write of the base repository leaves if it does not succeed: the incidents as they were.
abbrev pub Careful {ℓ} : {A : Type ℓ} → World → Result A × World → Type 0
Careful w (ok a, v) = v.cache ≡ w.cache
Careful w (err e, v) = (v.cache ≡ w.cache) × (v.tables.incidents ≡ w.tables.incidents)
Careful w (panicked p, v) = (v.cache ≡ w.cache) × (v.tables.incidents ≡ w.tables.incidents)

-- If an update finds no row it changes none.
unpicked :
    (test : IncidentRow → Bool) (f : IncidentRow → IncidentRow) (rows : List IncidentRow)
    → Incidents.first_row (map f (select test rows)) ≡ none
    → changed test f rows ≡ rows
unpicked test f [] h = refl
unpicked test f (r ∷ rows) h = elim (Bool-cases (test r)) [
  | inl hit ↦ absurd (let found = rw hit at h in cc)
  | inr miss ↦ rw miss (ap (λ l. r ∷ l) (unpicked test f rows (rw miss at h)))
]

module _ (env : Env) where
  raise-lt : (v : Option ℕ) → current v < raised v
  raise-lt none = omega arith
  raise-lt (some v) = omega arith

  continue-IsCoherent {ℓ} :
      {A : Type ℓ} (w : World) (r : Result A) (v : World)
      → Careful w (r, v)
      → IsCoherent env w
      → IsCoherent env (bumped (calm env) (λ u. (r, v)) w).1
  unfolding bumped bump_version redis redis_reply
  continue-IsCoherent w (ok a) v same h = rw same (
      All-IsRight-rise env w.tables.incidents v.tables.incidents (current w.cache.version)
        (raised w.cache.version) w.cache.pages (raise-lt w.cache.version) h)
  continue-IsCoherent w (err e) v (cache, rows) h = rw (cache, rows) h
  continue-IsCoherent w (panicked p) v (cache, rows) h = rw (cache, rows) h

  -- A write that is careful keeps the cache coherent, since one that succeeds raises the version.
  pub bumped-IsCoherent {ℓ} :
      {A : Type ℓ} (m : M A) (w : World)
      → Careful w (m w)
      → IsCoherent env w
      → IsCoherent env (bumped (calm env) m w).1
  unfolding bumped
  bumped-IsCoherent m w = continue-IsCoherent w (m w).0 (m w).1

  module _ (w : World) where
    pub create-Careful : (c : CreateIncident) → Careful w (Incidents.create (calm env) pool c w)
    unfolding Incidents.create
    create-Careful c = ground arith

    -- One UPDATE … RETURNING that must return a row.
    write : (IncidentRow → Bool) → (IncidentRow → IncidentRow) → M IncidentRow
    write test f =
        Incidents.get_context (run_statement (calm env) pool (Incidents.update_where test f))

    write-Careful :
        (test : IncidentRow → Bool) (f : IncidentRow → IncidentRow) → Careful w (write test f w)
    unfolding write run_statement Incidents.update_where Incidents.the_row
    write-Careful test f =
        elim (Option-cases (Incidents.first_row (map f (select test w.tables.incidents)))) [
          | inl missing ↦ let same = unpicked test f w.tables.incidents missing in ground arith
          | inr (row, found) ↦ ground arith
        ]

    after-Careful :
        (g : GoError → GoError) (f : IncidentRow → Incident) (r : Result IncidentRow) (v : World)
        → Careful w (r, v)
        → Careful w (continue (map_result_error g r) (λ a. pure (f a)) v)
    after-Careful g f (ok a) v h = h
    after-Careful g f (err e) v h = h
    after-Careful g f (panicked p) v h = h

    done-Careful :
        (g : GoError → GoError) (r : Result IncidentRow) (v : World)
        → Careful w (r, v)
        → Careful w (continue (map_result_error g r) (λ a. pure (tt {0})) v)
    done-Careful g (ok a) v h = h
    done-Careful g (err e) v h = h
    done-Careful g (panicked p) v h = h

    reads_only : (id : ℤ) → Careful w (Incidents.get_by_id (calm env) pool id w)
    unfolding Incidents.get_by_id
    reads_only id = ground arith

    pub update-Careful :
        (id : ℤ) (u : UpdateIncident) → Careful w (Incidents.update (calm env) pool id u w)
    unfolding Incidents.update Incidents.update_row write
    update-Careful id u = elim (Bool-cases (changes_nothing u)) [
      | inl same ↦ rw same (reads_only id)
      | inr some_change ↦
          let rows = write (λ r. has_id id r.id) (change_row u (env.clock w.calls)) w in
          rw some_change (
            after-Careful (db_error "incidents.repo.update") to_domain rows.0 rows.1
              (write-Careful (λ r. has_id id r.id) (change_row u (env.clock w.calls))))
    ]

    pub deactivate-Careful : (id : ℤ) → Careful w (Incidents.deactivate (calm env) pool id w)
    unfolding Incidents.deactivate Incidents.deactivate_row write
    deactivate-Careful id =
        let test = λ (r : IncidentRow). has_id id r.id && r.active in
        let f = λ (r : IncidentRow). record r { active = false; updated_at = env.clock w.calls } in
        let rows = write test f w in
        done-Careful (db_error "incidents.repo.deactivate") rows.0 rows.1 (write-Careful test f)

    pub search-same :
        (p : Point) (limit : ℤ)
        → let v = (Incidents.find_nearby (calm env) pool p limit w).1 in
          (v.cache ≡ w.cache) × (v.tables ≡ w.tables)
    unfolding Incidents.find_nearby
    search-same p limit = ground arith
