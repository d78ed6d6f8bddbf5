-- ===== src/Service/Checks.antt =====
-- `CheckAndRecord` over the database: a check, its links and its event are recorded together.
use geo_notifications_servic.Prelude.{
  ℕ, ◌≡◌, refl, ◌∙◌, sym, ap, subst, Option, none, some, String, List, [], ◌∷◌, ◌++◌, map, arith,
}
use mathlib.Core.List.{append-nil}
use geo_notifications_servic.Errs.{wrap_error}
use geo_notifications_servic.Domain.{Point, CheckCommand}
use geo_notifications_servic.World.{World, Env, Tables, Sequences, CheckRow, OutboxRow, pending}
use geo_notifications_servic.World.Exec.{Result, ok, M, pure, map_error, ◌>>=◌}
use geo_notifications_servic.Db.{tx, run_statement, done}
use geo_notifications_servic.Db.Inversion.{bind-eq-ok, map_error-eq-ok, sql-eq-ok}
use geo_notifications_servic.Db.Errs.{db_error}
use geo_notifications_servic.Outbox.{insert_row, new_row, enqueue}
use geo_notifications_servic.Incidents.{insert_check, insert_links, link_incidents, record_check}
use geo_notifications_servic.TxRunner.{checker, outbox_writer}
use geo_notifications_servic.Service.{completed, marshalled, publish, record_and_publish}

-- The event of a check with incidents at a time: one pending row, due from that time on, whose
-- payload is the marshalled event. A
-- check without incidents has none.
abbrev pub Published :
    Env → CheckCommand → ℕ → List ℕ → ℕ → List OutboxRow → List OutboxRow → Type 0
Published env cmd check_id [] at before after = after ≡ before
Published env cmd check_id (i ∷ is) at before after =
    (row : OutboxRow) × (after ≡ before ++ row ∷ [])
    × (row.status ≡ pending)
    × (row.attempts ≡ 0)
    × (row.next_attempt_at ≡ at)
    × (row.event_type ≡ "location_check")
    × ((now : ℕ) × (b : String) × (env.marshal_event (completed cmd check_id (i ∷ is) now) ≡ some b)
        × (env.jsonb b ≡ some row.payload))

-- One check, its links and its event have been added at a time, and nothing else has changed.
pub record Recorded (env : Env) (cmd : CheckCommand) (ids : List ℕ) (at : ℕ) (t u : Tables)
    : Type 0 where
  pub check : CheckRow
  pub checks : u.checks ≡ t.checks ++ check ∷ []
  pub user : check.user_id ≡ cmd.user_id
  pub time : check.created_at ≡ at
  pub location : check.location ≡ cmd.point
  pub links : u.links ≡ t.links ++ map (λ i. (check.id, i)) ids
  pub outbox : Published env cmd check.id ids at t.outbox u.outbox
  pub incidents : u.incidents ≡ t.incidents

-- What an accepted insertion of an event leaves.
abbrev Queued : Env → String → ℕ → Tables → Tables → Type 0
Queued env b at t u =
    (row : OutboxRow) × (u ≡ record t { outbox = t.outbox ++ row ∷ [] })
    × (row.status ≡ pending)
    × (row.attempts ≡ 0)
    × (row.next_attempt_at ≡ at)
    × (row.event_type ≡ "location_check")
    × (env.jsonb b ≡ some row.payload)

insert_row-done :
    (o : Option String) (now : ℕ) (t : Tables) (s : Sequences) (u : Tables)
    → (insert_row o "location_check" now t s).0 ≡ done tt u
    → (row : OutboxRow) × (u ≡ record t { outbox = t.outbox ++ row ∷ [] })
      × (row.status ≡ pending)
      × (row.attempts ≡ 0)
      × (row.next_attempt_at ≡ now)
      × (row.event_type ≡ "location_check")
      × (o ≡ some row.payload)
unfolding insert_row new_row
insert_row-done none now t s u h = cc
insert_row-done (some p) now t s u h =
    (new_row s.outbox_id now "location_check" p, cc, refl, refl, refl, refl, refl)

enqueue-ok :
    (env : Env) (b : String) (w : World)
    → (enqueue env tx "location_check" b w).0 ≡ ok tt
    → Queued env b w.started w.tables (enqueue env tx "location_check" b w).1.tables
unfolding enqueue
enqueue-ok env b w h =
    let st = insert_row (env.jsonb b) "location_check" in
    insert_row-done (env.jsonb b) w.started w.tables w.sequences
      (run_statement env tx st w).1.tables (sql-eq-ok env (db_error "outbox.repo.enqueue") st w h).0

-- What an accepted check leaves.
abbrev Checked : String → Point → List ℕ → ℕ → ℕ → Tables → Tables → Type 0
Checked user_id p ids id now t u = u ≡ record t {
  checks = t.checks ++ record { id = id; user_id = user_id; location = p; created_at = now } ∷ [];
  links = t.links ++ map (λ i. (id, i)) ids;
}

insert_links-done :
    (id : ℕ) (ids : List ℕ) (now : ℕ) (t : Tables) (s : Sequences) (u : Tables)
    → (insert_links id ids now t s).0 ≡ done tt u
    → u ≡ record t { links = t.links ++ map (λ i. (id, i)) ids }
unfolding insert_links
insert_links-done id ids now t s u h = ground arith

insert_check-done :
    (user_id : String) (p : Point) (now : ℕ) (t : Tables) (s : Sequences) (id : ℕ) (u : Tables)
    → (insert_check user_id p now t s).0 ≡ done id u
    → u ≡ record t {
      checks =
          t.checks ++ record { id = id; user_id = user_id; location = p; created_at = now } ∷ [];
    }
unfolding insert_check
insert_check-done user_id p now t s id u h = ground arith

link_incidents-ok :
    (env : Env) (id : ℕ) (ids : List ℕ) (w : World)
    → (link_incidents env tx id ids w).0 ≡ ok tt
    → let v = (link_incidents env tx id ids w).1 in
      (v.tables ≡ record w.tables { links = w.tables.links ++ map (λ i. (id, i)) ids })
      × (v.started ≡ w.started)
unfolding link_incidents
link_incidents-ok env id [] w h =
    (λ i. record w.tables { links = sym (append-nil w.tables.links) i }, refl)
link_incidents-ok env id (x ∷ xs) w h =
    let st = insert_links id (x ∷ xs) in
    let (accepted, started) = sql-eq-ok env (db_error "incidents.repo.record_check") st w h in
    (
      insert_links-done id (x ∷ xs) w.started w.tables w.sequences
          (run_statement env tx st w).1.tables accepted,
      started,
    )

record_check-ok :
    (env : Env) (user_id : String) (p : Point) (ids : List ℕ) (w : World) (id : ℕ)
    → (record_check env tx user_id p ids w).0 ≡ ok id
    → let v = (record_check env tx user_id p ids w).1 in
      Checked user_id p ids id w.started w.tables v.tables × (v.started ≡ w.started)
unfolding record_check
record_check-ok env user_id p ids w id h =
    let st = insert_check user_id p in
    let insert : M ℕ =
      map_error (db_error "incidents.repo.record_check") (run_statement env tx st) in
    let link : ℕ → M (Unit {0}) = λ k. link_incidents env tx k ids in
    let then_link : ℕ → M ℕ = λ k. link k >>= λ _. pure k in
    let (k, inserted, rest, same) = bind-eq-ok insert then_link w h in
    let (_, linked, kept, same') = bind-eq-ok (link k) (λ _. pure k) (insert w).1 rest in
    let (accepted, started) =
      sql-eq-ok env (db_error "incidents.repo.record_check") st w inserted in
    let one_check =
      insert_check-done user_id p w.started w.tables w.sequences k (insert w).1.tables accepted in
    let its_id : k ≡ id = cc in
    let (links, started') = link_incidents-ok env k ids (insert w).1 linked in
    (
      subst
          (λ n.
            Checked user_id p ids n w.started w.tables
              (record_check env tx user_id p ids w).1.tables)
          its_id
          (ap (λ (r : Result ℕ × World). r.1.tables) (same ∙ same')
            ∙ links
            ∙ ap (λ (t : Tables). record t { links = t.links ++ map (λ i. (k, i)) ids }) one_check),
      ap (λ (r : Result ℕ × World). r.1.started) (same ∙ same') ∙ started' ∙ started,
    )

abbrev event_op : String
event_op = "incidents.app.check_and_record.marshal_event"

abbrev enqueue_op : String
enqueue_op = "incidents.app.check_and_record.enqueue_outbox"

enqueue_marshalled : Env → Option String → M (Unit {0})
unfolding marshalled
enqueue_marshalled env o = marshalled o event_op >>= λ b.
    map_error (wrap_error enqueue_op) (enqueue env tx "location_check" b)

enqueue_marshalled-ok :
    (env : Env) (o : Option String) (w : World)
    → (enqueue_marshalled env o w).0 ≡ ok tt
    → (b : String) × (o ≡ some b)
      × Queued env b w.started w.tables (enqueue_marshalled env o w).1.tables
unfolding enqueue_marshalled
enqueue_marshalled-ok env none w h = cc
enqueue_marshalled-ok env (some b) w h =
    let enqueued = enqueue env tx "location_check" b in
    (b, refl, enqueue-ok env b w (map_error-eq-ok (wrap_error enqueue_op) enqueued w h))

publish-ok :
    (env : Env) (cmd : CheckCommand) (id : ℕ) (ids : List ℕ) (w : World)
    → (publish env cmd (outbox_writer env tx) id ids w).0 ≡ ok tt
    → let u = (publish env cmd (outbox_writer env tx) id ids w).1.tables in
      (u ≡ record w.tables { outbox = u.outbox })
      × Published env cmd id ids w.started w.tables.outbox u.outbox
unfolding publish enqueue_marshalled
publish-ok env cmd id [] w h = (refl, refl)
publish-ok env cmd id (x ∷ xs) w h =
    let o = env.marshal_event (completed cmd id (x ∷ xs) (env.clock w.calls)) in
    let (b, marshal, queued) = enqueue_marshalled-ok env o w h in
    let (row, tables, is_pending, fresh, due, named, cast) = queued in
    let outbox = ap (λ (t : Tables). t.outbox) tables in
    (
      tables ∙ sym (ap (λ (rows : List OutboxRow). record w.tables { outbox = rows }) outbox),
      (row, outbox, is_pending, fresh, due, named, (env.clock w.calls, b, marshal, cast)),
    )

abbrev record_op : String
record_op = "incidents.app.check_and_record.record_check"

pub record_and_publish-ok :
    (env : Env) (cmd : CheckCommand) (ids : List ℕ) (w : World)
    → (record_and_publish env cmd ids (checker env tx) (outbox_writer env tx) w).0 ≡ ok tt
    → Recorded env cmd ids w.started w.tables
        (record_and_publish env cmd ids (checker env tx) (outbox_writer env tx) w).1.tables
unfolding record_and_publish
record_and_publish-ok env cmd ids w h =
    let check = record_check env tx cmd.user_id cmd.point ids in
    let next : ℕ → M (Unit {0}) = λ id. publish env cmd (outbox_writer env tx) id ids in
    let (id, checked, published, same) =
      bind-eq-ok (map_error (wrap_error record_op) check) next w h in
    let (one_check, started) =
      record_check-ok env cmd.user_id cmd.point ids w id
        (map_error-eq-ok (wrap_error record_op) check w checked) in
    let (rest, event) = publish-ok env cmd id ids (check w).1 published in
    let v = (next id (check w).1).1.tables in
    let recorded : Recorded env cmd ids w.started w.tables v = record {
      check = record {
        id = id;
        user_id = cmd.user_id;
        location = cmd.point;
        created_at = w.started;
      };
      checks =
          ap (λ (t : Tables). t.checks)
            (rest ∙ ap (λ (t : Tables). record t { outbox = v.outbox }) one_check);
      user = refl;
      time = refl;
      location = refl;
      links =
          ap (λ (t : Tables). t.links)
            (rest ∙ ap (λ (t : Tables). record t { outbox = v.outbox }) one_check);
      outbox =
          subst (λ (rows : List OutboxRow). Published env cmd id ids w.started rows v.outbox)
            (ap (λ (t : Tables). t.outbox) one_check)
            (subst (λ n. Published env cmd id ids n (check w).1.tables.outbox v.outbox) started
              event);
      incidents =
          ap (λ (t : Tables). t.incidents)
            (rest ∙ ap (λ (t : Tables). record t { outbox = v.outbox }) one_check);
    } in
    subst (Recorded env cmd ids w.started w.tables)
      (sym (ap (λ (r : Result (Unit {0}) × World). r.1.tables) same)) recorded
