-- ===== src/Relay/Trace.antt =====
-- No event is lost and none is made up: what a round of the relay does to the outbox and the
-- stream, whichever of its calls fail.
use geo_notifications_servic.Prelude.{
  ℕ, ◌≡◌, refl, subst, true, List, [], ◌∷◌, ◌++◌, map, String, suc, zero, take, elem,
  elem-append_left, elem-append_right, ◌⊎◌, inl, inr, All, All-append, All-imp, Bool-cases,
}
use geo_notifications_servic.World.{World, Env, Item, OutboxRow, Tables, dispatched}
use geo_notifications_servic.World.Exec.{ok}
use geo_notifications_servic.Db.{Scope, within_tx_root}
use geo_notifications_servic.Outbox.{
  Event, claim_row, dispatch_row, retry_row, kill_row, claim_batch, returning,
}
use geo_notifications_servic.Outbox.Laws.{
  content, HasContents, Preserves, All-update_rows, claim-HasContents, dispatch-HasContents,
  retry-HasContents, kill-HasContents, claim_batch-ok,
}
use geo_notifications_servic.Db.Atomicity.{within_tx-ok, opened, body}
use geo_notifications_servic.Relay.{batch_size, to_item, event_ids, claim, process}
use geo_notifications_servic.Relay.Stages.{IsKept, process-keeps, Keeps-claim}

-- The ids of the items of a stream.
abbrev pub item_ids : List Item → List ℕ
item_ids = map (λ it. it.outbox_id)

-- A row that is marked dispatched stands in the stream.
abbrev pub IsTracedRow : List Item → OutboxRow → Type 0
IsTracedRow s r = r.status ≡ dispatched → elem r.id (item_ids s) ≡ true

abbrev pub IsTraced : List Item → Tables → Type 0
IsTraced s t = All (IsTracedRow s) t.outbox

pub item_ids-append : (s u : List Item) → item_ids (s ++ u) ≡ item_ids s ++ item_ids u
item_ids-append [] u = refl
item_ids-append (x ∷ s) u = rw (item_ids-append s u)

pub item_ids-to_item : (events : List Event) → item_ids (map to_item events) ≡ event_ids events
item_ids-to_item [] = refl
item_ids-to_item (e ∷ es) = rw (item_ids-to_item es)

pub IsTraced-append : (s u : List Item) (t : Tables) → IsTraced s t → IsTraced (s ++ u) t
IsTraced-append s u t h =
    All-imp
      (λ r k d. rw (item_ids-append s u) (elem-append_left r.id (item_ids s) (item_ids u) (k d)))
      t.outbox h

module _ (s : List Item) (ids : List ℕ) where
  pub claim-IsTraced : Preserves (IsTraced s) claim_row ids
  unfolding claim_row
  claim-IsTraced now t h =
      All-update_rows (IsTracedRow s) (claim_row now) ids (λ r m k. k) t.outbox h

  pub kill-IsTraced : (text : String) → Preserves (IsTraced s) (kill_row text) ids
  unfolding kill_row
  kill-IsTraced text now t h =
      All-update_rows (IsTracedRow s) (kill_row text now) ids (λ r m k d. cc) t.outbox h

  pub retry-IsTraced : (next : ℕ) (text : String) → Preserves (IsTraced s) (retry_row next text) ids
  unfolding retry_row
  retry-IsTraced next text now t h =
      All-update_rows (IsTracedRow s) (retry_row next text now) ids (λ r m k d. cc) t.outbox h

dispatch-IsTraced :
    (s : List Item) (events : List Event)
    → Preserves (IsTraced (s ++ map to_item events)) dispatch_row (event_ids events)
unfolding dispatch_row
dispatch-IsTraced s events now t h =
    All-update_rows (IsTracedRow (s ++ map to_item events)) (dispatch_row now) (event_ids events)
      (λ r m k d.
        rw (item_ids-append s (map to_item events), item_ids-to_item events)
          (elem-append_right r.id (item_ids s) (event_ids events) m))
      t.outbox h

IsKept-IsTraced : (events : List Event) → IsKept IsTraced events
IsKept-IsTraced events = record {
  pushed = λ s t n h. IsTraced-append s (take n (map to_item events)) t h;
  sent = λ s t h. IsTraced-append s (map to_item events) t h;
  dispatch = λ s. dispatch-IsTraced s events;
  kill = λ s text ids. kill-IsTraced s ids text;
  retry = λ s next text ids. retry-IsTraced s ids next text;
}

-- A round of the relay, whichever of its calls fail and however, leaves every dispatched row of the
-- outbox in the stream, if that was so before.
pub process-IsTraced :
    (env : Env) (w : World)
    → IsTraced w.stream w.tables
    → IsTraced (process env w).1.stream (process env w).1.tables
process-IsTraced env w h =
    process-keeps env IsTraced w (claim-IsTraced w.stream) (λ events _. IsKept-IsTraced events) h

-- A round of the relay neither adds nor removes a row of the outbox, nor changes the id, the type
-- or the payload of one, whichever of its calls fail and however.
pub process-HasContents :
    (env : Env) (w : World)
    → map content (process env w).1.tables.outbox ≡ map content w.tables.outbox
process-HasContents env w =
    process-keeps env (λ s. HasContents items) w (claim-HasContents items)
      (λ events _. record {
        pushed = λ s t n h. h;
        sent = λ s t h. h;
        dispatch = λ s. dispatch-HasContents items (event_ids events);
        kill = λ s text ids. kill-HasContents items ids text;
        retry = λ s next text ids. retry-HasContents items ids next text;
      })
      refl
  where
    items : List Item
    items = map content w.tables.outbox

-- One of the items of a list.
abbrev pub Among : Item → List Item → Type 0
Among it [] = ⊥
Among it (x ∷ xs) = (it ≡ x) ⊎ Among it xs

Among-weaken :
    (x : Item) (xs ys : List Item) → All (λ it. Among it xs) ys → All (λ it. Among it (x ∷ xs)) ys
Among-weaken x xs ys h = All-imp (λ it k. inr k) ys h

returning-Among :
    (ids : List ℕ) (rows : List OutboxRow)
    → All (λ it. Among it (map content rows)) (map to_item (returning ids rows))
returning-Among ids [] = tt
returning-Among ids (r ∷ rows) =
    let later = Among-weaken (content r) (map content rows) _ (returning-Among ids rows) in
    elim (Bool-cases (elem r.id ids)) [
      | inl found ↦ rw (found) (inl refl, later)
      | inr other ↦ rw (other) later
    ]

pub claim-Among :
    (env : Env) (w : World) (events : List Event)
    → (claim env w).0 ≡ ok events
    → All (λ it. Among it (map content (claim env w).1.tables.outbox)) (map to_item events)
unfolding claim within_tx_root
claim-Among env w events h =
    let fn = λ (scope : Scope). claim_batch env scope batch_size in
    let (returned, _, kept) = within_tx-ok env fn w events h in
    let shown = claim_batch-ok env batch_size (opened env fn w) events returned in
    rw (kept, shown) (returning-Among _ (body env fn w).1.tables.outbox)

pub All-take : {A : Type 0} (P : A → Type 0) (n : ℕ) (xs : List A) → All P xs → All P (take n xs)
All-take P zero xs h = tt
All-take P (suc n) [] h = tt
All-take P (suc n) (x ∷ xs) (p, h) = (p, All-take P n xs h)

-- A round of the relay adds nothing to the stream but rows of the outbox: if every item of the
-- stream has the id, the type and the payload of a row before, then so it has after, whichever
-- calls fail.
pub process-Among :
    (env : Env) (w : World)
    → All (λ it. Among it (map content w.tables.outbox)) w.stream
    → All (λ it. Among it (map content (process env w).1.tables.outbox)) (process env w).1.stream
process-Among env w h =
    rw (process-HasContents env w)
      (process-keeps env P w (λ ids now t p. (claim-HasContents items ids now t p.0, p.1))
        (λ events claimed.
          let among : All (λ it. Among it items) (map to_item events) =
            subst (λ l. All (λ it. Among it l) (map to_item events))
              ((Keeps-claim env (claim-HasContents items)).at w refl).0
              (claim-Among env w events claimed) in
          record {
            pushed =
                λ s t n p. (p.0, All-append (λ it. Among it items) s _ p.1 (All-take _ n _ among));
            sent = λ s t p. (p.0, All-append (λ it. Among it items) s _ p.1 among);
            dispatch = λ s now t p. (dispatch-HasContents items (event_ids events) now t p.0, p.1);
            kill = λ s text ids now t p. (kill-HasContents items ids text now t p.0, p.1);
            retry =
                λ s next text ids now t p. (retry-HasContents items ids next text now t p.0, p.1);
          })
        (refl, h)).1
  where
    items : List Item
    items = map content w.tables.outbox

    P : List Item → Tables → Type 0
    P s t = HasContents items t × All (λ it. Among it items) s
