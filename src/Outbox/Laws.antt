-- ===== src/Outbox/Laws.antt =====
-- Facts about the statements on the outbox: what they keep, and what a claim returns.
use geo_notifications_servic.Prelude.{
  ℕ, ◌≡◌, refl, ◌∙◌, Bool, true, false, inl, inr, List, [], ◌∷◌, map, arith, elem, All, Bool-cases,
  if◌then◌else◌, String,
}
use mathlib.Core.Path.{ap₂}
use geo_notifications_servic.World.{World, Env, Item, OutboxRow, Tables}
use geo_notifications_servic.World.Exec.{ok}
use geo_notifications_servic.Db.{Scope, tx, run_statement}
use geo_notifications_servic.Db.Keeps.{Keeps, Keeps-pure, Keeps-map_error, Keeps-run_statement}
use geo_notifications_servic.Outbox.{
  Event, set_outbox, update_rows, returning, claimed_ids, claim_row, dispatch_row, retry_row,
  kill_row, update_outbox, claim_rows, claim_batch, mark_dispatched_batch, mark_retry_batch,
  mark_dead,
}

-- What a row tells the outside: it never changes.
abbrev pub content : OutboxRow → Item
content r = record { event_type = r.event_type; payload = r.payload; outbox_id = r.id }

map-content-update_rows :
    (f : OutboxRow → OutboxRow)
    → ((r : OutboxRow) → content (f r) ≡ content r)
    → (ids : List ℕ) (rows : List OutboxRow)
    → map content (update_rows f ids rows) ≡ map content rows
map-content-update_rows f same ids [] = refl
map-content-update_rows f same ids (r ∷ rows) =
    ap₂ ◌∷◌ (kept (elem r.id ids)) (map-content-update_rows f same ids rows)
  where
    kept : (b : Bool) → content (if b then f r else r) ≡ content r
    kept true = same r
    kept false = refl

pub All-update_rows :
    (P : OutboxRow → Type 0) (f : OutboxRow → OutboxRow) (ids : List ℕ)
    → ((r : OutboxRow) → elem r.id ids ≡ true → P r → P (f r))
    → (rows : List OutboxRow) → All P rows
    → All P (update_rows f ids rows)
All-update_rows P f ids step [] h = tt
All-update_rows P f ids step (r ∷ rows) (p, h) = (
  elim (Bool-cases (elem r.id ids)) [
    | inl found ↦ rw found (step r found p)
    | inr other ↦ rw other p
  ],
  All-update_rows P f ids step rows h,
)

-- A change of rows keeps a property of the tables, at these ids.
abbrev pub Preserves : (Tables → Type 0) → (ℕ → OutboxRow → OutboxRow) → List ℕ → Type 0
Preserves P f ids =
    (now : ℕ) (t : Tables) → P t → P (set_outbox t (update_rows (f now) ids t.outbox))

module _ {P : Tables → Type 0} (env : Env) (scope : Scope) where
  pub Keeps-claim_batch :
      (limit : ℕ)
      → ((ids : List ℕ) → Preserves P claim_row ids)
      → Keeps P (claim_batch env scope limit)
  unfolding claim_batch
  Keeps-claim_batch limit k = record {
    at = λ w h.
        (Keeps-run_statement env scope (claim_rows (env.locked w.calls) limit)
            (λ now t s p. k (claimed_ids (env.locked w.calls) now limit t.outbox) now t p)).at
          w h;
  }

  update-Keeps :
      (f : ℕ → OutboxRow → OutboxRow) (ids : List ℕ)
      → Preserves P f ids
      → Keeps P (run_statement env scope (update_outbox f ids))
  unfolding update_outbox
  update-Keeps f ids k =
      Keeps-run_statement env scope (update_outbox f ids) (λ now t s p. k now t p)

  pub Keeps-mark_dispatched_batch :
      (ids : List ℕ) → Preserves P dispatch_row ids → Keeps P (mark_dispatched_batch env scope ids)
  unfolding mark_dispatched_batch
  Keeps-mark_dispatched_batch [] k = Keeps-pure tt
  Keeps-mark_dispatched_batch (id ∷ ids) k =
      Keeps-map_error _ _ (update-Keeps dispatch_row (id ∷ ids) k)

  pub Keeps-mark_retry_batch :
      (ids : List ℕ) (next : ℕ) (text : String)
      → Preserves P (retry_row next text) ids
      → Keeps P (mark_retry_batch env scope ids next text)
  unfolding mark_retry_batch
  Keeps-mark_retry_batch [] next text k = Keeps-pure tt
  Keeps-mark_retry_batch (id ∷ ids) next text k =
      Keeps-map_error _ _ (update-Keeps (retry_row next text) (id ∷ ids) k)

  pub Keeps-mark_dead :
      (id : ℕ) (text : String)
      → Preserves P (kill_row text) (id ∷ [])
      → Keeps P (mark_dead env scope id text)
  unfolding mark_dead
  Keeps-mark_dead id text k = Keeps-map_error _ _ (update-Keeps (kill_row text) (id ∷ []) k)

-- The rows of the outbox have these contents.
abbrev pub HasContents : List Item → Tables → Type 0
HasContents items t = map content t.outbox ≡ items

module _ (items : List Item) (ids : List ℕ) where
  pub claim-HasContents : Preserves (HasContents items) claim_row ids
  unfolding claim_row
  claim-HasContents now t h = map-content-update_rows (claim_row now) (λ r. refl) ids t.outbox ∙ h

  pub dispatch-HasContents : Preserves (HasContents items) dispatch_row ids
  unfolding dispatch_row
  dispatch-HasContents now t h =
      map-content-update_rows (dispatch_row now) (λ r. refl) ids t.outbox ∙ h

  pub retry-HasContents :
      (next : ℕ) (text : String) → Preserves (HasContents items) (retry_row next text) ids
  unfolding retry_row
  retry-HasContents next text now t h =
      map-content-update_rows (retry_row next text now) (λ r. refl) ids t.outbox ∙ h

  pub kill-HasContents : (text : String) → Preserves (HasContents items) (kill_row text) ids
  unfolding kill_row
  kill-HasContents text now t h =
      map-content-update_rows (kill_row text now) (λ r. refl) ids t.outbox ∙ h

-- An accepted claim returns the rows that it has just updated.
pub claim_batch-ok :
    (env : Env) (limit : ℕ) (w : World) (events : List Event)
    → (claim_batch env tx limit w).0 ≡ ok events
    → events
      ≡ returning
          (claimed_ids (env.locked w.calls) w.started limit w.tables.outbox)
          (claim_batch env tx limit w).1.tables.outbox
unfolding claim_batch run_statement
claim_batch-ok env limit w events h = ground arith
