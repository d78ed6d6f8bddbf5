-- ===== src/Service/Atomicity.antt =====
-- The transactional outbox, as `CheckAndRecord` uses it: whatever fails and wherever, a location
-- check, its links and its event are all in the database or none of them is.
use geo_notifications_servic.Prelude.{
  ℕ, ◌≡◌, refl, ◌∙◌, sym, ap, subst, ◌⊎◌, inl, inr, List, length, Option-cases, ℤ, pos, ltb_ℤ,
  String,
}
use mathlib.Core.Path.{subst₂}
use geo_notifications_servic.Errs.{wrap_error}
use geo_notifications_servic.Domain.{Point, CheckCommand, NearbyIncident, validate_check}
use geo_notifications_servic.Domain.Validation.{IsValidCheck, validate_check_iff}
use geo_notifications_servic.World.{World, Env, IncidentRow, Tables, Sequences}
use geo_notifications_servic.World.Exec.{
  Result, ok, err, panicked, M, pure, map_error, continue, map_result_error, ◌>>=◌,
}
use geo_notifications_servic.Db.{pool, Scope, within_tx_root, run_statement, done, refused}
use geo_notifications_servic.Db.Atomicity.{within_tx-ok, within_tx-all_or_nothing, opened}
use geo_notifications_servic.Db.Inversion.{bind-eq-ok, map_error-eq-ok}
use geo_notifications_servic.Db.Keeps.{
  Keeps, Keeps-run_statement, Keeps-bind, Keeps-pure, Keeps-raise, Keeps-if, Leaves, Leaves-if,
}
use geo_notifications_servic.Incidents.{find_nearby, select_nearby, scanned}
use geo_notifications_servic.Incidents.Rows.{scan_descriptions}
use geo_notifications_servic.TxRunner.{base_repository, checker, outbox_writer, tx_runner}
use geo_notifications_servic.Service.{
  CheckResult, incident_ids, record_and_publish, check_and_record, check_valid,
}
use geo_notifications_servic.Service.Checks.{Recorded, record_and_publish-ok}

select_nearby-Leaves :
    (env : Env) (p : Point) (limit : ℤ) (P : Tables → Type 0) (now : ℕ) (t : Tables) (s : Sequences)
    → P t
    → Leaves P (select_nearby env p limit now t s).0
unfolding select_nearby
select_nearby-Leaves env p limit P now t s h =
    Leaves-if P (ltb_ℤ limit (pos 0)) (refused _, s) (done _ t, s) tt h

scanned-Keeps :
    (env : Env) (p : Point) (P : Tables → Type 0) (rows : List IncidentRow)
    → Keeps P (scanned env p rows)
unfolding scanned
scanned-Keeps env p P rows = Keeps-if (scan_descriptions rows) _ _ (Keeps-pure _) (Keeps-raise _)

module _ (env : Env) (cmd : CheckCommand) where
  abbrev pub record_in : List NearbyIncident → Scope → M (Unit {0})
  record_in inc scope =
      record_and_publish env cmd (incident_ids inc) (checker env scope) (outbox_writer env scope)

  -- The transaction leaves the tables alone, or a whole check in them.
  whole_or_nothing :
      (inc : List NearbyIncident) (w : World)
      → let t = (within_tx_root env (record_in inc) w).1.tables in
        (t ≡ w.tables) ⊎ Recorded env cmd (incident_ids inc) (env.clock w.calls) w.tables t
  unfolding within_tx_root
  whole_or_nothing inc w = elim (within_tx-all_or_nothing env (record_in inc) w) [
    | inl unchanged ↦ inl unchanged
    | inr (_, succeeded, left) ↦ inr (
        subst (Recorded env cmd (incident_ids inc) (env.clock w.calls) w.tables) (sym left) (
          record_and_publish-ok env cmd (incident_ids inc) (opened env (record_in inc) w)
            succeeded))
  ]

  recorded :
      (inc : List NearbyIncident) (w : World)
      → (within_tx_root env (record_in inc) w).0 ≡ ok tt
      → Recorded env cmd
          (incident_ids inc)
          (env.clock w.calls)
          w.tables
          (within_tx_root env (record_in inc) w).1.tables
  unfolding within_tx_root
  recorded inc w h =
      let (succeeded, _, left) = within_tx-ok env (record_in inc) w tt h in
      subst (Recorded env cmd (incident_ids inc) (env.clock w.calls) w.tables) (sym left)
        (record_and_publish-ok env cmd (incident_ids inc) (opened env (record_in inc) w) succeeded)

  tables-find_nearby :
      (w : World) → (find_nearby env pool cmd.point cmd.limit w).1.tables ≡ w.tables
  unfolding find_nearby
  tables-find_nearby w =
      let P = λ (t : Tables). t ≡ w.tables in
      let select : Keeps P (run_statement env pool (select_nearby env cmd.point cmd.limit)) =
        Keeps-run_statement env pool (select_nearby env cmd.point cmd.limit)
          (λ now t s h. select_nearby-Leaves env cmd.point cmd.limit P now t s h) in
      let scan : (rows : List IncidentRow) → Keeps P (scanned env cmd.point rows) =
        λ rows. scanned-Keeps env cmd.point P rows in
      ((Keeps-bind _ _ select scan).at w refl).0

  abbrev pub run : World → Result CheckResult × World
  run = check_and_record env (base_repository env) (tx_runner env) cmd

  abbrev pub found : World → Result (List NearbyIncident) × World
  found = find_nearby env pool cmd.point cmd.limit

  abbrev pub op : String
  op = "incidents.app.check_and_record"

  abbrev pub found_op : String
  found_op = "incidents.app.check_and_record.find_nearby"

  abbrev pub answer : List NearbyIncident → M CheckResult
  answer inc = pure (record { incidents = inc; count = length inc })

  abbrev pub after_find : List NearbyIncident → M CheckResult
  after_find inc =
      map_error (wrap_error op) (within_tx_root env (record_in inc)) >>= λ _. answer inc

  tables_of :
      (inc : List NearbyIncident) (r : Result (Unit {0})) (v : World)
      → (continue (map_result_error (wrap_error op) r) (λ _. answer inc) v).1.tables ≡ v.tables
  tables_of inc (ok a) v = refl
  tables_of inc (err e) v = refl
  tables_of inc (panicked p) v = refl

  -- The world that is left by a result of the search.
  searched :
      (t : Tables) (r : Result (List NearbyIncident)) (v : World)
      → v.tables ≡ t
      → let u = (continue (map_result_error (wrap_error found_op) r) after_find v).1.tables in
        (u ≡ t)
        ⊎ ((inc : List NearbyIncident) × (r ≡ ok inc)
            × Recorded env cmd (incident_ids inc) (env.clock v.calls) t u)
  searched t (err e) v same = inl same
  searched t (panicked p) v same = inl same
  searched t (ok inc) v same =
      let left =
        tables_of inc (within_tx_root env (record_in inc) v).0
          (within_tx_root env (record_in inc) v).1 in
      elim (whole_or_nothing inc v) [
        | inl unchanged ↦ inl (left ∙ unchanged ∙ same)
        | inr whole ↦ inr (
          inc,
          refl,
          subst₂ (Recorded env cmd (incident_ids inc) (env.clock v.calls)) same (sym left) whole,
        )
      ]

  -- `CheckAndRecord` over the database, whichever calls of the outside fail: the tables are as they
  -- were, or exactly one check of the user at the point has been added, with a link to each incident
  -- that was found nearby and, if there is one, a pending event that holds them all and is due from
  -- the time of the transaction on.
  pub check_and_record_atomic :
      (w : World)
      → ((run w).1.tables ≡ w.tables)
        ⊎ ((inc : List NearbyIncident) × ((found w).0 ≡ ok inc)
            × Recorded env cmd
                (incident_ids inc)
                (env.clock (found w).1.calls)
                w.tables
                (run w).1.tables)
  unfolding check_and_record
  check_and_record_atomic w = elim (Option-cases (validate_check cmd)) [
    | inl valid ↦
        rw (valid, check_valid) (searched w.tables (found w).0 (found w).1 (tables-find_nearby w))
    | inr (e, invalid) ↦ rw (invalid, check_valid) (inl refl)
  ]

  after_find-ok :
      (inc : List NearbyIncident) (v : World) (res : CheckResult)
      → (after_find inc v).0 ≡ ok res
      → (res.incidents ≡ inc)
        × (res.count ≡ length inc)
        × Recorded env cmd
            (incident_ids inc)
            (env.clock v.calls)
            v.tables
            (after_find inc v).1.tables
  after_find-ok inc v res h =
      let transaction = within_tx_root env (record_in inc) in
      let (_, committed, answered, same) =
        bind-eq-ok (map_error (wrap_error op) transaction) (λ _. answer inc) v h in
      let whole = recorded inc v (map_error-eq-ok (wrap_error op) transaction v committed) in
      (
        cc,
        cc,
        subst (Recorded env cmd (incident_ids inc) (env.clock v.calls) v.tables)
            (sym (ap (λ (r : Result CheckResult × World). r.1.tables) same)) whole,
      )

  -- A request that `CheckAndRecord` answers was valid; the answer is what was found nearby, with
  -- its number; and the check, its links and its event are in the database, of the time at which the
  -- transaction began.
  pub check_and_record-ok :
      (w : World) (res : CheckResult)
      → (run w).0 ≡ ok res
      → IsValidCheck cmd
        × ((found w).0 ≡ ok res.incidents)
        × (res.count ≡ length res.incidents)
        × Recorded env cmd
            (incident_ids res.incidents)
            (env.clock (found w).1.calls)
            w.tables
            (run w).1.tables
  unfolding check_and_record
  check_and_record-ok w res h = elim (Option-cases (validate_check cmd)) [
    | inr (e, invalid) ↦ cc (rw (invalid, check_valid) at h)
    | inl valid ↦
        let search = map_error (wrap_error found_op) found in
        let (inc, some_found, answered, same) =
          bind-eq-ok search after_find w (rw (valid, check_valid) at h) in
        let (incidents, count, whole) = after_find-ok inc (found w).1 res answered in
        let (valid_cmd, _) = validate_check_iff cmd in
        (
          valid_cmd valid,
          map_error-eq-ok (wrap_error found_op) found w some_found ∙ ap ok (sym incidents),
          count ∙ ap length (sym incidents),
          rw (valid, check_valid, same)
              (subst₂
                (λ i t.
                  Recorded env cmd (incident_ids i) (env.clock (found w).1.calls) t
                    (after_find inc (found w).1).1.tables)
                (sym incidents) (tables-find_nearby w) whole),
        )
  ]
