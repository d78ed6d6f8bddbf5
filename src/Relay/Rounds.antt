-- ===== src/Relay/Rounds.antt =====
-- What a round of the relay does, on each of its branches, while the database answers.
use geo_notifications_servic.Prelude.{
  ℕ, ◌≡◌, ◌≤◌, ◌+◌, arith, refl, ◌∙◌, sym, ap, subst, true, false, none, List, [], ◌∷◌, ◌++◌, map,
  suc, take, select, elem, leb, ◌&&◌, if◌then◌else◌, Bool-cases, inl, inr,
}
use mathlib.Core.List.{append-nil}
use mathlib.Core.List.{Permᴰ}
use mathlib.Core.List.Permᴰ
use geo_notifications_servic.World.{World, Env, fine, OutboxRow, Item, dispatched}
use geo_notifications_servic.World.Exec.{ok}
use geo_notifications_servic.Db.{within_tx_root}
use geo_notifications_servic.Outbox.{
  Event, is_pending, set_outbox, update_rows, returning, claimed_ids, claim_row, dispatch_row,
  claim_batch, mark_dispatched_batch,
}
use geo_notifications_servic.Outbox.Rows.{
  update_rows-nil, update_rows-update_rows, update_rows-returned,
}
use geo_notifications_servic.Queue.{enqueue_batch}
use geo_notifications_servic.Relay.{
  batch_size, to_item, event_ids, claim, mark, relay_events, process,
}

abbrev row_item : OutboxRow → Item
row_item r = record { event_type = r.event_type; payload = r.payload; outbox_id = r.id }

-- The items of the rows that a claim returns.
returned_items :
    (now : ℕ) (ids : List ℕ) (rows : List OutboxRow)
    → map to_item (returning ids (update_rows (claim_row now) ids rows))
      ≡ map row_item (select (λ r. elem r.id ids) rows)
unfolding claim_row
returned_items now ids [] = refl
returned_items now ids (r ∷ rows) = elim (Bool-cases (elem r.id ids)) [
  | inl taken ↦ rw (taken, taken) (ap (λ l. row_item r ∷ l) (returned_items now ids rows))
  | inr left_ ↦ rw (left_, left_) (returned_items now ids rows)
]

-- The environment in which no call fails, and none is sent again.
abbrev pub calm : Env → Env
calm env = record env { reply = λ n. fine; lost_tries = λ n. []; resends = λ n. 0 }

module _ (env : Env) where
  relay_events-calm :
      (events : List Event) (w : World)
      → ((relay_events (calm env) events w).0 ≡ ok tt)
        × ((relay_events (calm env) events w).1.stream ≡ w.stream ++ map to_item events)
        × ((relay_events (calm env) events w).1.tables.outbox
            ≡ update_rows
                (dispatch_row (env.clock (suc w.calls)))
                (event_ids events)
                w.tables.outbox)
  unfolding relay_events enqueue_batch within_tx_root mark mark_dispatched_batch
  relay_events-calm [] w = (
    refl,
    sym (append-nil w.stream),
    sym (update_rows-nil (dispatch_row (env.clock (suc w.calls))) w.tables.outbox),
  )
  relay_events-calm (ev ∷ evs) w = (refl, refl, refl)

  relay_events-calls :
      (events : List Event) (w : World) → w.calls ≤ (relay_events (calm env) events w).1.calls
  unfolding relay_events enqueue_batch within_tx_root mark mark_dispatched_batch
  relay_events-calls [] w = omega arith
  relay_events-calls (ev ∷ evs) w = omega arith

  module _ (w : World) where
    abbrev pub ids : List ℕ
    ids = claimed_ids (env.locked (suc w.calls)) (env.clock w.calls) batch_size w.tables.outbox

    abbrev pub claimed_rows : List OutboxRow
    claimed_rows = update_rows (claim_row (env.clock w.calls)) ids w.tables.outbox

    -- The times of the two transactions: a claim makes three calls, and a push one.
    abbrev pub claim_time : ℕ
    claim_time = env.clock w.calls

    abbrev pub mark_time : ℕ
    mark_time = env.clock (suc (suc (suc (suc w.calls))))

    claim-calm : (claim (calm env) w) ≡ (
      ok (returning ids claimed_rows),
      record w {
        tables = set_outbox w.tables claimed_rows;
        aborted = false;
        started = env.clock w.calls;
        calls = suc (suc (suc w.calls));
      },
    )
    unfolding claim within_tx_root claim_batch
    claim-calm = refl

    -- A round, in the words of the code.
    pub process-closed :
        ((process (calm env) w).0 ≡ ok tt)
        × ((process (calm env) w).1.stream ≡ w.stream ++ map to_item (returning ids claimed_rows))
        × ((process (calm env) w).1.tables.outbox
            ≡ update_rows
                (λ r. dispatch_row mark_time (claim_row claim_time r))
                ids
                w.tables.outbox)
    unfolding process claim_row
    process-closed =
        let v : World = record w {
          tables = set_outbox w.tables claimed_rows;
          aborted = false;
          started = env.clock w.calls;
          calls = suc (suc (suc w.calls));
        } in
        let (fine_result, stream, outbox) = relay_events-calm (returning ids claimed_rows) v in
        rw claim-calm (
          fine_result,
          stream,
          outbox
              ∙ update_rows-returned (dispatch_row mark_time) ids claimed_rows
              ∙ update_rows-update_rows (dispatch_row mark_time) (claim_row claim_time) (λ r. refl)
                  ids w.tables.outbox,
        )

    -- The ids of the first hundred rows that are pending, due and not locked.
    abbrev pub chosen : List ℕ
    chosen =
        map (λ r. r.id)
          (take 100 (
            select
              (λ r.
                is_pending r.status
                && leb r.next_attempt_at (env.clock w.calls)
                && (if env.locked (suc w.calls) r.id then false else true))
              w.tables.outbox))

    -- With no failure a round returns no error. It chooses the first hundred rows, in the order of the
    -- table, that are pending, due at the start of the claim and not locked by another transaction;
    -- these, and no others, become dispatched, with one attempt more, no processing limit and the time
    -- of the second transaction, and nothing else in them changes; and what it adds to the stream is,
    -- in some order, one item for each of them, with its type, its payload and its id.
    pub process-calm :
        ((process (calm env) w).0 ≡ ok tt)
        × ((process (calm env) w).1.tables.outbox
            ≡ map
                (λ r.
                  if elem r.id chosen
                  then record r {
                    status = dispatched;
                    attempts = r.attempts + 1;
                    processing_until = none;
                    updated_at = mark_time;
                  }
                  else r)
                w.tables.outbox)
        × ((added : List Item) × ((process (calm env) w).1.stream ≡ w.stream ++ added)
            × Permᴰ added (
                map
                  (λ r. record { event_type = r.event_type; payload = r.payload; outbox_id = r.id })
                  (select (λ r. elem r.id chosen) w.tables.outbox)))
    unfolding dispatch_row claim_row claimed_ids
    process-calm =
        let (fine_result, stream, outbox) = process-closed in
        (
          fine_result,
          outbox,
          (
            map to_item (returning ids claimed_rows),
            stream,
            subst (λ l. Permᴰ l (map row_item (select (λ r. elem r.id ids) w.tables.outbox)))
                (sym (returned_items (env.clock w.calls) ids w.tables.outbox)) (Permᴰ.refl _),
          ),
        )

    -- A round makes calls, or none.
    pub process-calls : w.calls ≤ (process (calm env) w).1.calls
    unfolding process
    process-calls =
        let v : World = record w {
          tables = set_outbox w.tables claimed_rows;
          aborted = false;
          started = env.clock w.calls;
          calls = suc (suc (suc w.calls));
        } in
        let later = relay_events-calls (returning ids claimed_rows) v in
        rw claim-calm (omega (arith, later))
