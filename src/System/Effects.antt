-- ===== src/System/Effects.antt =====
-- What each kind of step does to the stream, the outbox and the webhook.
use geo_notifications_servic.Prelude.{
  ◌≡◌, refl, sym, ◌⊎◌, inl, inr, ℕ, true, none, some, List, [], ◌∷◌, ◌++◌, take, elem,
}
use mathlib.Core.List.{append-nil}
use geo_notifications_servic.Errs.{GoError}
use geo_notifications_servic.World.{World, Env, Reply, fine, failed, Item, Tables}
use geo_notifications_servic.World.Exec.{ok, err}
use geo_notifications_servic.Db.{within_tx_root, tx}
use geo_notifications_servic.Db.Keeps.{Keeps, Keeps-within_tx_root}
use geo_notifications_servic.Outbox.{Event, dispatch_row}
use geo_notifications_servic.Outbox.Laws.{
  HasContents, Preserves, All-update_rows, claim-HasContents, dispatch-HasContents,
  retry-HasContents, kill-HasContents,
}
use geo_notifications_servic.Queue.{enqueue_batch, exec_pipeline}
use geo_notifications_servic.Relay.{claim, mark, event_ids}
use geo_notifications_servic.Relay.Stages.{Keeps-claim, Keeps-mark_failed, Keeps-mark_dispatched}
use geo_notifications_servic.Relay.Trace.{
  item_ids, IsTraced, IsTracedRow, claim-IsTraced, kill-IsTraced, retry-IsTraced,
}

-- The rows that are dispatched are traced, and the contents of the rows are these.
abbrev pub Settled : List Item → List Item → Tables → Type 0
Settled s items t = IsTraced s t × HasContents items t

module _ (env : Env) (s items : List Item) where
  pub Keeps-claim-Settled : Keeps (Settled s items) (claim env)
  Keeps-claim-Settled = Keeps-claim env (λ ids now t (traced, same).
      (claim-IsTraced s ids now t traced, claim-HasContents items ids now t same))

  -- Rows whose ids are in the stream may be marked dispatched.
  dispatch-held :
      (ids : List ℕ)
      → ((id : ℕ) → elem id ids ≡ true → elem id (item_ids s) ≡ true)
      → Preserves (IsTraced s) dispatch_row ids
  unfolding dispatch_row
  dispatch-held ids held now t h =
      All-update_rows (IsTracedRow s) (dispatch_row now) ids (λ r m k d. held r.id m) t.outbox h

  pub Keeps-finish :
      (events : List Event)
      → ((id : ℕ) → elem id (event_ids events) ≡ true → elem id (item_ids s) ≡ true)
      → Keeps (Settled s items) (within_tx_root env (mark env events none))
  Keeps-finish events held = Keeps-within_tx_root env _ (
      Keeps-mark_dispatched env events tx (λ now t (traced, same). (
        dispatch-held (event_ids events) held now t traced,
        dispatch-HasContents items (event_ids events) now t same,
      )))

  pub Keeps-finish_failed :
      (events : List Event) (e : GoError)
      → Keeps (Settled s items) (within_tx_root env (mark env events (some e)))
  Keeps-finish_failed events e = Keeps-within_tx_root env _ (
      Keeps-mark_failed env e
        (λ text ids now t (traced, same).
          (kill-IsTraced s ids text now t traced, kill-HasContents items ids text now t same))
        (λ next text ids now t (traced, same). (
          retry-IsTraced s ids next text now t traced,
          retry-HasContents items ids next text now t same,
        ))
        tx events)

-- A push adds the whole batch, or a part of it if it fails.
pub pushes :
    (env : Env) (items : List Item) (w : World)
    → let (r, v) = enqueue_batch env items w in
      (v.tables ≡ w.tables)
      × (v.posts ≡ w.posts)
      × (((r ≡ ok tt) × (v.stream ≡ w.stream ++ items))
          ⊎ ((e : GoError) × (n : ℕ) × (r ≡ err e) × (v.stream ≡ w.stream ++ take n items)))
unfolding enqueue_batch exec_pipeline
pushes env [] w = (refl, refl, inl (refl, sym (append-nil w.stream)))
pushes env (it ∷ items) w = sent (env.reply w.calls)
  where
    sent :
        (reply : Reply)
        → let (r, v) = exec_pipeline reply (it ∷ items) w in
          (v.tables ≡ w.tables)
          × (v.posts ≡ w.posts)
          × (((r ≡ ok tt) × (v.stream ≡ w.stream ++ it ∷ items))
              ⊎ ((e : GoError) × (n : ℕ) × (r ≡ err e)
                  × (v.stream ≡ w.stream ++ take n (it ∷ items))))
    sent fine = (refl, refl, inl (refl, refl))
    sent (failed n e) = (refl, refl, inr (e, n, refl, refl))
