-- ===== src/Relay/Stages.antt =====
-- The three stages of a round of the relay: what each keeps.
use geo_notifications_servic.Prelude.{
  ℕ, ◌+◌, ◌≡◌, refl, none, some, List, [], ◌∷◌, ◌++◌, map, leb, String, suc, take,
}
use geo_notifications_servic.Errs.{GoError, error_text}
use geo_notifications_servic.World.{World, Env, Reply, fine, failed, Item, Tables}
use geo_notifications_servic.World.Exec.{M, Result, ok, err, panicked, error_of, continue, ◌>>=◌}
use geo_notifications_servic.Db.{Scope, tx, within_tx_root}
use geo_notifications_servic.Db.Keeps.{
  Keeps, Keeps-pure, Keeps-clock, Keeps-ignore_error, Keeps-if, Keeps-bind, Keeps-within_tx_root,
}
use geo_notifications_servic.Outbox.{Event, claim_row, dispatch_row, retry_row, kill_row}
use geo_notifications_servic.Outbox.Laws.{
  Preserves, Keeps-claim_batch, Keeps-mark_dispatched_batch, Keeps-mark_retry_batch,
  Keeps-mark_dead,
}
use geo_notifications_servic.Relay.{
  batch_size, max_attempts, event_ids, min_attempts, bury, mark_failed, mark, claim, to_item,
  relay_events, process,
}
use geo_notifications_servic.Relay.Backoff.{backoff}
use geo_notifications_servic.Queue.{exec_pipeline, enqueue_batch}

module _ {P : Tables → Type 0} (env : Env) where
  pub Keeps-claim : ((ids : List ℕ) → Preserves P claim_row ids) → Keeps P (claim env)
  unfolding claim
  Keeps-claim k = Keeps-within_tx_root env _ (Keeps-claim_batch env tx batch_size k)

  module _ (push_err : GoError)
      (kill : (text : String) (ids : List ℕ) → Preserves P (kill_row text) ids)
      (retry : (next : ℕ) (text : String) (ids : List ℕ) → Preserves P (retry_row next text) ids)
      (scope : Scope) where
    Keeps-bury : (events : List Event) → Keeps P (bury env scope push_err events)
    unfolding bury
    Keeps-bury [] = Keeps-pure []
    Keeps-bury (ev ∷ events) =
        Keeps-if (leb max_attempts ev.attempts) _ _
          (Keeps-bind _ _
            (Keeps-ignore_error _ (
              Keeps-mark_dead env scope ev.id (error_text push_err)
                (kill (error_text push_err) (ev.id ∷ []))))
            (λ _. Keeps-bury events))
          (Keeps-bind _ _ (Keeps-bury events) (λ ids. Keeps-pure (ev.id ∷ ids)))

    pub Keeps-mark_failed : (events : List Event) → Keeps P (mark env events (some push_err) scope)
    unfolding mark mark_failed
    Keeps-mark_failed events = Keeps-bind _ _ (Keeps-bury events) λ ids.
        Keeps-bind _ _ (Keeps-clock (λ w. env.clock w.calls)) λ now.
          Keeps-mark_retry_batch env scope ids (now + backoff (min_attempts events))
            (error_text push_err)
            (retry (now + backoff (min_attempts events)) (error_text push_err) ids)

  pub Keeps-mark_dispatched :
      (events : List Event) (scope : Scope)
      → Preserves P dispatch_row (event_ids events)
      → Keeps P (mark env events none scope)
  unfolding mark
  Keeps-mark_dispatched events scope k = Keeps-mark_dispatched_batch env scope (event_ids events) k

-- A property of the stream and the tables that the parts of a round keep for a batch of events.
pub record IsKept (P : List Item → Tables → Type 0) (events : List Event) : Type 0 where
  -- The batch, or a part of it, is added to the stream.
  pub pushed : (s : List Item) (t : Tables) (n : ℕ) → P s t → P (s ++ take n (map to_item events)) t
  -- The whole batch has been added, and is marked.
  pub sent : (s : List Item) (t : Tables) → P s t → P (s ++ map to_item events) t
  pub dispatch :
      (s : List Item) → Preserves (P (s ++ map to_item events)) dispatch_row (event_ids events)
  pub kill : (s : List Item) (text : String) (ids : List ℕ) → Preserves (P s) (kill_row text) ids
  pub retry :
      (s : List Item) (next : ℕ) (text : String) (ids : List ℕ)
      → Preserves (P s) (retry_row next text) ids

module _ (env : Env) (P : List Item → Tables → Type 0) where
  abbrev Now : World → Type 0
  Now w = P w.stream w.tables

  in_stream : {A : Type 0} (m : M A) (w : World) → Keeps (P w.stream) m → Now w → Now (m w).1
  in_stream m w k h = let (kept, same) = k.at w h in rw same.0 kept

  pushed-keeps :
      (events : List Event) (k : IsKept P events) (r : Reply) (w : World)
      → Now w
      → Now
          ((error_of (exec_pipeline r (map to_item events)) >>= λ e.
              within_tx_root env (mark env events e))
            w).1
  unfolding exec_pipeline
  pushed-keeps events k fine w h =
      in_stream (within_tx_root env (mark env events none))
        (record w { calls = suc w.calls; stream = w.stream ++ map to_item events })
        (Keeps-within_tx_root env _ (Keeps-mark_dispatched env events tx (k.dispatch w.stream)))
        (k.sent w.stream w.tables h)
  pushed-keeps events k (failed n e) w h =
      let s = w.stream ++ take n (map to_item events) in
      in_stream (within_tx_root env (mark env events (some e)))
        (record w { calls = suc w.calls; stream = s })
        (Keeps-within_tx_root env _ (Keeps-mark_failed env e (k.kill s) (k.retry s) tx events))
        (k.pushed w.stream w.tables n h)

  pub relay_events-keeps :
      (events : List Event)
      → IsKept P events
      → (w : World) → Now w
      → Now (relay_events env events w).1
  unfolding relay_events enqueue_batch
  relay_events-keeps [] k w h = h
  relay_events-keeps (ev ∷ evs) k w h = pushed-keeps (ev ∷ evs) k (env.reply w.calls) w h

  -- A whole round keeps what its parts keep, for every batch that the claim can return.
  pub process-keeps :
      (w : World)
      → ((ids : List ℕ) → Preserves (P w.stream) claim_row ids)
      → ((events : List Event) → (claim env w).0 ≡ ok events → IsKept P events)
      → Now w
      → Now (process env w).1
  unfolding process
  process-keeps w kc ke h =
      let h' = in_stream (claim env) w (Keeps-claim env kc) h in
      claimed (claim env w).0 (claim env w).1 ke h'
    where
      claimed :
          (r : Result (List Event)) (v : World)
          → ((events : List Event) → r ≡ ok events → IsKept P events)
          → Now v
          → Now (continue r (relay_events env) v).1
      claimed (ok events) v ke h = relay_events-keeps events (ke events refl) v h
      claimed (err e) v ke h = h
      claimed (panicked p) v ke h = h
