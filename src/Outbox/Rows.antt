-- ===== src/Outbox/Rows.antt =====
-- Updates of rows by their ids.
use mathlib.Core.Path.{ap₂}
use geo_notifications_servic.Prelude.{
  ℕ, ◌≡◌, refl, ◌∙◌, ap, Bool, true, false, List, [], ◌∷◌, map, elem, arith, ◌==◌, ==_iff,
  Bool-cases, All, All-imp, or_true, if◌then◌else◌, ◌||◌, inl, inr,
}
use geo_notifications_servic.World.{OutboxRow}
use geo_notifications_servic.Outbox.{returning, update_rows}

-- A change of a row that leaves its id alone.
abbrev pub KeepsId : (OutboxRow → OutboxRow) → Type 0
KeepsId f = (r : OutboxRow) → (f r).id ≡ r.id

abbrev pub returned_ids : List ℕ → List OutboxRow → List ℕ
returned_ids ids rows = map (λ ev. ev.id) (returning ids rows)

-- The ids of the returned rows are among the ids asked for.
elem-returned_ids :
    (x : ℕ) (ids : List ℕ) (rows : List OutboxRow)
    → elem x (returned_ids ids rows) ≡ true
    → elem x ids ≡ true
elem-returned_ids x ids [] h = cc
elem-returned_ids x ids (r ∷ rows) h = ground (arith, elem-returned_ids x ids rows, ==_iff x r.id)

-- Two lists of ids that agree on the ids of the rows update them alike.
abbrev SameOn : List ℕ → List ℕ → List OutboxRow → Type 0
SameOn ids ids' [] = Unit
SameOn ids ids' (r ∷ rows) = (elem r.id ids ≡ elem r.id ids') × SameOn ids ids' rows

update_rows-SameOn :
    (f : OutboxRow → OutboxRow) (ids ids' : List ℕ) (rows : List OutboxRow)
    → SameOn ids ids' rows
    → update_rows f ids rows ≡ update_rows f ids' rows
update_rows-SameOn f ids ids' [] h = refl
update_rows-SameOn f ids ids' (r ∷ rows) (e, h) = rw (e, update_rows-SameOn f ids ids' rows h)

pub update_rows-nil :
    (f : OutboxRow → OutboxRow) (rows : List OutboxRow) → update_rows f [] rows ≡ rows
update_rows-nil f [] = refl
update_rows-nil f (r ∷ rows) = rw (update_rows-nil f rows)

-- One update after another, at the same ids.
pub update_rows-update_rows :
    (f g : OutboxRow → OutboxRow)
    → KeepsId g
    → (ids : List ℕ) (rows : List OutboxRow)
    → update_rows f ids (update_rows g ids rows) ≡ update_rows (λ r. f (g r)) ids rows
update_rows-update_rows f g same ids [] = refl
update_rows-update_rows f g same ids (r ∷ rows) =
    ap₂ ◌∷◌ at_row (update_rows-update_rows f g same ids rows)
  where
    at_row :
        (if elem (if elem r.id ids then g r else r).id ids
          then f (if elem r.id ids then g r else r)
          else (if elem r.id ids then g r else r))
        ≡ (if elem r.id ids then f (g r) else r)
    at_row = elim (Bool-cases (elem r.id ids)) [
      | inl found ↦ rw (found, same r, found)
      | inr other ↦ rw (other, other)
    ]

returned_head :
    (r : OutboxRow) (ids : List ℕ) (rows : List OutboxRow)
    → elem r.id ids ≡ true
    → elem r.id (returned_ids ids (r ∷ rows)) ≡ true
returned_head r ids rows h = ground (arith, ==_iff r.id r.id)

returned_tail :
    (x : ℕ) (r : OutboxRow) (ids : List ℕ) (rows : List OutboxRow)
    → elem x (returned_ids ids rows) ≡ true
    → elem x (returned_ids ids (r ∷ rows)) ≡ true
returned_tail x r ids rows h = ground (arith, or_true (x == r.id))

returned :
    (ids : List ℕ) (rows : List OutboxRow)
    → All (λ r. elem r.id ids ≡ true → elem r.id (returned_ids ids rows) ≡ true) rows
returned ids [] = tt
returned ids (r ∷ rows) = (
  returned_head r ids rows,
  All-imp (λ q k m. returned_tail q.id r ids rows (k m)) rows (returned ids rows),
)

SameOn-All :
    (ids ids' : List ℕ) (rows : List OutboxRow)
    → ((x : ℕ) → elem x ids ≡ true → elem x ids' ≡ true)
    → All (λ r. elem r.id ids' ≡ true → elem r.id ids ≡ true) rows
    → SameOn ids ids' rows
SameOn-All ids ids' [] to h = tt
SameOn-All ids ids' (r ∷ rows) to (from, h) =
    (ground (arith, to r.id), SameOn-All ids ids' rows to h)

-- To update the rows that a statement has returned is to update the rows that it was asked for.
pub update_rows-returned :
    (f : OutboxRow → OutboxRow) (ids : List ℕ) (rows : List OutboxRow)
    → update_rows f (returned_ids ids rows) rows ≡ update_rows f ids rows
update_rows-returned f ids rows =
    update_rows-SameOn f _ ids rows
      (SameOn-All _ ids rows (λ x. elem-returned_ids x ids rows) (returned ids rows))

-- One update at an id and then at others, where doing it twice is doing it once.
pub update_rows-cons :
    (f : OutboxRow → OutboxRow)
    → KeepsId f
    → ((r : OutboxRow) → f (f r) ≡ f r)
    → (id : ℕ) (ids : List ℕ) (rows : List OutboxRow)
    → update_rows f ids (update_rows f (id ∷ []) rows) ≡ update_rows f (id ∷ ids) rows
update_rows-cons f same twice id ids [] = refl
update_rows-cons f same twice id ids (r ∷ rows) =
    ap₂ ◌∷◌ (at_row (r.id == id) (elem r.id ids) refl refl)
      (update_rows-cons f same twice id ids rows)
  where
    at_row :
        (first later : Bool)
        → (r.id == id) ≡ first
        → elem r.id ids ≡ later
        → (if elem (if r.id == id || false then f r else r).id ids
            then f (if r.id == id || false then f r else r)
            else (if r.id == id || false then f r else r))
          ≡ (if r.id == id || elem r.id ids then f r else r)
    at_row true true e l = rw (e, ap (λ n. elem n ids) (same r) ∙ l) (twice r)
    at_row true false e l = rw (e, ap (λ n. elem n ids) (same r) ∙ l)
    at_row false later e l = rw e
