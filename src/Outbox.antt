-- ===== src/Outbox.antt =====
-- internal/platform/db/outbox/outbox.go: the transactional outbox. The SQL of each method is a
-- statement of its own.
pub mod Rows
pub mod Laws
use geo_notifications_servic.Prelude.{
  ℕ, suc, ◌+◌, Bool, true, false, ◌&&◌, Option, none, some, String, List, [], ◌∷◌, ◌++◌, map, ℤ,
  pos, leb, length, take, select, elem, if◌then◌else◌,
}
use geo_notifications_servic.Errs.{GoError, pg_error}
use geo_notifications_servic.World.{
  World, Env, Status, pending, dispatched, dead, OutboxRow, Tables, Sequences,
}
use geo_notifications_servic.World.Exec.{M, pure, map_error}
use geo_notifications_servic.Db.{SqlResult, done, refused, Statement, Scope, run_statement}
use geo_notifications_servic.Db.Errs.{db_error}

-- INSERT INTO webhook_outbox … VALUES ($1, $2::jsonb, 'pending', 0, NOW(), NOW(), NOW())
unfoldable pub new_row : ℕ → ℕ → String → String → OutboxRow
new_row id now event_type payload = record {
  id = id;
  event_type = event_type;
  payload = payload;
  status = pending;
  attempts = 0;
  processing_until = none;
  next_attempt_at = now;
  last_error = none;
  created_at = now;
  updated_at = now;
}

abbrev pub set_outbox : Tables → List OutboxRow → Tables
set_outbox t rows = record t { outbox = rows }

unfoldable pub insert_row : Option String → String → Statement (Unit {0})
insert_row none event_type now t s =
    (refused (pg_error "22P02" "invalid input syntax for type json"), s)
insert_row (some payload) event_type now t s = (
  done tt (set_outbox t (t.outbox ++ new_row s.outbox_id now event_type payload ∷ [])),
  record s { outbox_id = suc s.outbox_id },
)

unfoldable pub enqueue : Env → Scope → String → String → M (Unit {0})
unfolding run_statement insert_row new_row
enqueue env scope event_type payload_json =
    map_error (db_error "outbox.repo.enqueue")
      (run_statement env scope (insert_row (env.jsonb payload_json) event_type))

pub record Event : Type 0 where
  pub id : ℕ
  pub event_type : String
  pub payload_json : String
  pub attempts : ℕ

abbrev pub is_pending : Status → Bool
is_pending pending = true
is_pending dispatched = false
is_pending dead = false

-- WHERE status = 'pending' AND next_attempt_at <= NOW() … FOR UPDATE SKIP LOCKED
unfoldable pub is_due : (ℕ → Bool) → ℕ → OutboxRow → Bool
is_due is_locked now r =
    is_pending r.status && leb r.next_attempt_at now && (if is_locked r.id then false else true)

-- The rows stand in the order of their ids, so that the first ones are those of ORDER BY id.
unfoldable pub claimed_ids : (ℕ → Bool) → ℕ → ℕ → List OutboxRow → List ℕ
unfolding is_due
claimed_ids is_locked now limit rows =
    map (λ r. r.id) (take limit (select (is_due is_locked now) rows))

-- UPDATE webhook_outbox SET … WHERE id is one of `ids`
abbrev pub update_rows : (OutboxRow → OutboxRow) → List ℕ → List OutboxRow → List OutboxRow
update_rows f ids = map (λ r. if elem r.id ids then f r else r)

unfoldable pub claim_row : ℕ → OutboxRow → OutboxRow
claim_row now r = record r { attempts = r.attempts + 1; updated_at = now }

abbrev pub to_event : OutboxRow → Event
to_event r = record {
  id = r.id;
  event_type = r.event_type;
  payload_json = r.payload;
  attempts = r.attempts;
}

-- RETURNING: the updated rows, here in the order of the table, which PostgreSQL does not promise.
abbrev pub returning : List ℕ → List OutboxRow → List Event
returning ids rows = map to_event (select (λ r. elem r.id ids) rows)

claim_rows : (ℕ → Bool) → ℕ → Statement (List Event)
claim_rows is_locked limit now t s =
    let ids = claimed_ids is_locked now limit t.outbox in
    let rows = update_rows (claim_row now) ids t.outbox in
    (done (returning ids rows) (set_outbox t rows), s)

unfoldable pub claim_batch : Env → Scope → ℕ → M (List Event)
unfolding run_statement claim_rows claimed_ids claim_row
claim_batch env scope limit w =
    map_error (db_error "outbox.repo.claim_batch")
      (run_statement env scope (claim_rows (env.locked w.calls) limit)) w

unfoldable pub dispatch_row : ℕ → OutboxRow → OutboxRow
dispatch_row now r = record r { status = dispatched; processing_until = none; updated_at = now }

unfoldable pub retry_row : ℕ → String → ℕ → OutboxRow → OutboxRow
retry_row next_attempt_at last_err now r = record r {
  status = pending;
  processing_until = none;
  next_attempt_at = next_attempt_at;
  last_error = some last_err;
  updated_at = now;
}

unfoldable pub kill_row : String → ℕ → OutboxRow → OutboxRow
kill_row last_err now r = record r { status = dead; last_error = some last_err; updated_at = now }

unfoldable pub update_outbox : (ℕ → OutboxRow → OutboxRow) → List ℕ → Statement (Unit {0})
update_outbox f ids now t s = (done tt (set_outbox t (update_rows (f now) ids t.outbox)), s)

unfoldable pub mark_dispatched_batch : Env → Scope → List ℕ → M (Unit {0})
unfolding run_statement update_outbox dispatch_row
mark_dispatched_batch env scope [] = pure tt
mark_dispatched_batch env scope (id ∷ ids) =
    map_error (db_error "outbox.repo.mark_dispatched_batch")
      (run_statement env scope (update_outbox dispatch_row (id ∷ ids)))

unfoldable pub mark_retry_batch : Env → Scope → List ℕ → ℕ → String → M (Unit {0})
unfolding run_statement update_outbox retry_row
mark_retry_batch env scope [] next_attempt_at last_err = pure tt
mark_retry_batch env scope (id ∷ ids) next_attempt_at last_err =
    map_error (db_error "outbox.repo.mark_retry_batch")
      (run_statement env scope (update_outbox (retry_row next_attempt_at last_err) (id ∷ ids)))

unfoldable pub mark_dead : Env → Scope → ℕ → String → M (Unit {0})
unfolding run_statement update_outbox kill_row
mark_dead env scope id last_err =
    map_error (db_error "outbox.repo.mark_dead")
      (run_statement env scope (update_outbox (kill_row last_err) (id ∷ [])))
