-- ===== src/Relay/Failure.antt =====
-- What the second transaction does with a batch that could not be pushed.
use geo_notifications_servic.Prelude.{
  ℕ, zero, ◌+◌, ◌≡◌, ◌≤◌, ◌<◌, refl, ◌∙◌, ap, sym, Bool, true, false, none, some, List, [], ◌∷◌,
  suc, length, select, not, leb, Bool-cases, inl, inr, String, map, elem, if◌then◌else◌, arith,
}
use mathlib.Core.Path.{ap₂}
use geo_notifications_servic.Errs.{GoError, error_text}
use geo_notifications_servic.World.{World, Env, OutboxRow, pending, dead}
use geo_notifications_servic.World.Exec.{ok, Result, pure, continue}
use geo_notifications_servic.Db.{within_tx_root, tx}
use geo_notifications_servic.Db.Atomicity.{opened, within_tx-commits}
use geo_notifications_servic.Outbox.{
  Event, set_outbox, update_rows, retry_row, kill_row, mark_dead, mark_retry_batch,
}
use geo_notifications_servic.Outbox.Rows.{update_rows-nil, update_rows-cons}
use geo_notifications_servic.Relay.{max_attempts, event_ids, min_attempts, bury, mark_failed, mark}
use geo_notifications_servic.Relay.Backoff.{backoff}
use geo_notifications_servic.Relay.Least.{IsLeast, min_attempts-IsLeast}
use geo_notifications_servic.Relay.Rounds.{calm}

-- The events that have used up their attempts.
abbrev pub is_spent : Event → Bool
is_spent ev = leb max_attempts ev.attempts

abbrev pub dead_ids : List Event → List ℕ
dead_ids events = event_ids (select is_spent events)

abbrev pub retry_ids : List Event → List ℕ
retry_ids events = event_ids (select (λ ev. not (is_spent ev)) events)

-- The number of a call that follows after n others.
abbrev pub later : ℕ → ℕ → ℕ
later zero call = call
later (suc n) call = later n (suc call)

later-after : (n call : ℕ) → call ≤ later n call
later-after zero call = omega arith
later-after (suc n) call = let rest = later-after n (suc call) in omega (arith, rest)

-- The ids of the events with ten attempts or more, and of those with fewer.
abbrev pub spent_ids : List Event → List ℕ
spent_ids events = map (λ ev. ev.id) (select (λ ev. leb 10 ev.attempts) events)

abbrev pub unspent_ids : List Event → List ℕ
unspent_ids events = map (λ ev. ev.id) (select (λ ev. not (leb 10 ev.attempts)) events)

module _ (env : Env) (push_err : GoError) where
  abbrev text : String
  text = error_text push_err

  -- The world inside the transaction after a run of `bury`.
  abbrev buried : List Event → World → World
  buried events v = record v {
    tables =
        set_outbox v.tables
          (update_rows (kill_row text v.started) (dead_ids events) v.tables.outbox);
    aborted = false;
    calls = later (length (dead_ids events)) v.calls;
  }

  bury-calm :
      (events : List Event) (v : World)
      → bury (calm env) tx push_err events (record v { aborted = false })
        ≡ (ok (retry_ids events), buried events v)
  unfolding bury mark_dead kill_row
  bury-calm [] v = λ i. (
    ok [],
    record v {
      tables =
          set_outbox v.tables (sym (update_rows-nil (kill_row text v.started) v.tables.outbox) i);
      aborted = false;
    },
  )
  bury-calm (ev ∷ events) v = elim (Bool-cases (is_spent ev)) [
    | inl spent ↦ rw spent (
        bury-calm events (record v {
          tables =
              set_outbox v.tables
                (update_rows (kill_row text v.started) (ev.id ∷ []) v.tables.outbox);
          aborted = false;
          calls = suc v.calls;
        })
        ∙ ap
            (λ (rows : List OutboxRow). (
              ok (retry_ids events),
              record v {
                tables = set_outbox v.tables rows;
                aborted = false;
                calls = later (length (dead_ids events)) (suc v.calls);
              },
            ))
            (update_rows-cons (kill_row text v.started) (λ r. refl) (λ r. refl) ev.id
              (dead_ids events) v.tables.outbox))
    | inr again ↦ rw again (
        ap (λ (m : Result (List ℕ) × World). continue m.0 (λ ids. pure (ev.id ∷ ids)) m.1)
          (bury-calm events v))
  ]

  mark_retry_batch-calm :
      (ids : List ℕ) (next : ℕ) (v : World)
      → ((mark_retry_batch (calm env) tx ids next text (record v { aborted = false })).0 ≡ ok tt)
        × ((mark_retry_batch (calm env) tx ids next text (record v { aborted = false })).1.aborted
            ≡ false)
        × ((mark_retry_batch
              (calm env)
              tx
              ids
              next
              text
              (record v { aborted = false })).1.tables.outbox
            ≡ update_rows (retry_row next text v.started) ids v.tables.outbox)
  unfolding mark_retry_batch
  mark_retry_batch-calm [] next v =
      (refl, refl, sym (update_rows-nil (retry_row next text v.started) v.tables.outbox))
  mark_retry_batch-calm (id ∷ ids) next v = (refl, refl, refl)

  -- When the events that are not dead are due again, if the marking starts at this call.
  abbrev pub next_attempt : List Event → ℕ → ℕ
  next_attempt events call =
      env.clock (later (length (dead_ids events)) call) + backoff (min_attempts events)

  abbrev pub marked_rows : List Event → ℕ → ℕ → List OutboxRow → List OutboxRow
  marked_rows events call now rows =
      update_rows (retry_row (next_attempt events call) text now) (retry_ids events)
        (update_rows (kill_row text now) (dead_ids events) rows)

  mark_failed-body :
      (events : List Event) (v : World)
      → let m = mark_failed (calm env) events push_err tx (record v { aborted = false }) in
        (m.0 ≡ ok tt)
        × (m.1.aborted ≡ false)
        × (m.1.tables.outbox ≡ marked_rows events v.calls v.started v.tables.outbox)
  unfolding mark_failed
  mark_failed-body events v =
      rw (bury-calm events v)
        (mark_retry_batch-calm (retry_ids events) (next_attempt events v.calls) (buried events v))

  marked_rows-eq :
      (events : List Event) (call now : ℕ) (rows : List OutboxRow)
      → marked_rows events call now rows
        ≡ map
            (λ r.
              if elem r.id (unspent_ids events)
              then record r {
                status = pending;
                processing_until = none;
                next_attempt_at = next_attempt events call;
                last_error = some text;
                updated_at = now;
              }
              else if elem r.id (spent_ids events)
              then record r { status = dead; last_error = some text; updated_at = now }
              else r)
            rows
  unfolding retry_row kill_row
  marked_rows-eq events call now [] = refl
  marked_rows-eq events call now (r ∷ rows) =
      ap₂ ◌∷◌ (at_row (elem r.id (unspent_ids events)) (elem r.id (spent_ids events)) refl refl)
        (marked_rows-eq events call now rows)
    where
      at_row :
          (again over : Bool)
          → elem r.id (unspent_ids events) ≡ again
          → elem r.id (spent_ids events) ≡ over
          → (let killed : OutboxRow =
                if elem r.id (dead_ids events) then kill_row text now r else r in
              if elem killed.id (retry_ids events)
              then retry_row (next_attempt events call) text now killed
              else killed)
            ≡ (if elem r.id (unspent_ids events)
                then record r {
                  status = pending;
                  processing_until = none;
                  next_attempt_at = next_attempt events call;
                  last_error = some text;
                  updated_at = now;
                }
                else if elem r.id (spent_ids events)
                then record r { status = dead; last_error = some text; updated_at = now }
                else r)
      at_row true true e l = rw (l, e) refl
      at_row true false e l = rw (l, e) refl
      at_row false true e l = rw (l, e) refl
      at_row false false e l = rw (l, e) refl

  -- The second transaction, after a push that failed with the error `push_err` and while the
  -- database answers, succeeds. It gives every row of an event that has had ten attempts or more the
  -- status dead; it makes the row of every other event of the batch pending again, with no processing
  -- limit, and due at a time of the marking plus the delay for the least number of attempts in the
  -- batch, or for one attempt where that is less; both get the text of the error and the time of the
  -- transaction; no other field and no other row is touched.
  pub mark_failed-calm :
      (events : List Event) (w : World)
      → let r = within_tx_root (calm env) (mark (calm env) events (some push_err)) w in
        (r.0 ≡ ok tt)
        × ((least : ℕ) × (call : ℕ) × IsLeast least events
            × (w.calls < call)
            × (r.1.tables.outbox
                ≡ map
                    (λ r.
                      if elem r.id (unspent_ids events)
                      then record r {
                        status = pending;
                        processing_until = none;
                        next_attempt_at = env.clock call + backoff least;
                        last_error = some (error_text push_err);
                        updated_at = env.clock w.calls;
                      }
                      else if elem r.id (spent_ids events)
                      then record r {
                        status = dead;
                        last_error = some (error_text push_err);
                        updated_at = env.clock w.calls;
                      }
                      else r)
                    w.tables.outbox))
  unfolding within_tx_root mark
  mark_failed-calm events w =
      let fn = mark (calm env) events (some push_err) in
      let (returned, whole, rows) = mark_failed-body events (opened (calm env) fn w) in
      let (result, tables) = within_tx-commits (calm env) fn w tt refl refl returned whole in
      (
        result,
        (
          min_attempts events,
          later (length (dead_ids events)) (suc w.calls),
          min_attempts-IsLeast events,
          later-after (length (dead_ids events)) (suc w.calls),
          ap (λ t. t.outbox) tables
              ∙ rows
              ∙ marked_rows-eq events (suc w.calls) (env.clock w.calls) w.tables.outbox,
        ),
      )
