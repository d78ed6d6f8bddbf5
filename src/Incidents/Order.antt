-- ===== src/Incidents/Order.antt =====
-- The order of a list does not depend on the order in which the table gives its rows.
use geo_notifications_servic.Prelude.{
  ◌≡◌, ◌≢◌, refl, ap, ◌∙◌, Bool, true, false, not, List, [], ◌∷◌, select, arith, Bool-cases, inl,
  inr, if◌then◌else◌,
}
use geo_notifications_servic.World.{IncidentRow}
use geo_notifications_servic.Incidents.Rows.{is_newer, insert_sorted, sort_rows, newest_first}

-- The same rows in another order; rows with the same id keep theirs.
pub data Reordered : List IncidentRow → List IncidentRow → Type 0 where
  same : {rows : List IncidentRow} → Reordered rows rows
  keep :
      (r : IncidentRow) → {xs ys : List IncidentRow} → Reordered xs ys → Reordered (r ∷ xs) (r ∷ ys)
  swap :
      (a b : IncidentRow)
      → a.id ≢ b.id
      → {xs : List IncidentRow} → Reordered (a ∷ b ∷ xs) (b ∷ a ∷ xs)
  trans : {xs ys zs : List IncidentRow} → Reordered xs ys → Reordered ys zs → Reordered xs zs

Reordered-cons_if :
    (b : Bool) (r : IncidentRow) {xs ys : List IncidentRow}
    → Reordered xs ys
    → Reordered (if b then r ∷ xs else xs) (if b then r ∷ ys else ys)
Reordered-cons_if true r h = keep r h
Reordered-cons_if false r h = h

select-swap :
    (p : IncidentRow → Bool) (a b : IncidentRow) (xs : List IncidentRow)
    → a.id ≢ b.id
    → Reordered (select p (a ∷ b ∷ xs)) (select p (b ∷ a ∷ xs))
select-swap p a b xs h = elim (Bool-cases (p a)) [
  | inl here ↦ elim (Bool-cases (p b)) [
    | inl here' ↦ rw (here, here') (swap a b h)
    | inr gone' ↦ rw (here, gone') same
  ]
  | inr gone ↦ elim (Bool-cases (p b)) [
    | inl here' ↦ rw (gone, here') same
    | inr gone' ↦ rw (gone, gone') same
  ]
]

pub select-Reordered :
    (p : IncidentRow → Bool) {xs ys : List IncidentRow}
    → Reordered xs ys
    → Reordered (select p xs) (select p ys)
select-Reordered p same = same
select-Reordered p (keep r h) = Reordered-cons_if (p r) r (select-Reordered p h)
select-Reordered p (swap a b h) = select-swap p a b _ h
select-Reordered p (trans h k) = trans (select-Reordered p h) (select-Reordered p k)

-- Of two rows with different ids exactly one comes first.
is_newer-not : (a b : IncidentRow) → a.id ≢ b.id → is_newer a b ≡ not (is_newer b a)
unfolding is_newer
is_newer-not a b h = ground arith

is_newer-between :
    (a b y : IncidentRow) → is_newer y a ≡ true → is_newer y b ≡ false → is_newer b a ≡ true
unfolding is_newer
is_newer-between a b y h k = ground arith

insert-insert :
    (a b : IncidentRow) (xs : List IncidentRow)
    → a.id ≢ b.id
    → insert_sorted is_newer a (insert_sorted is_newer b xs)
      ≡ insert_sorted is_newer b (insert_sorted is_newer a xs)
unfolding insert_sorted
insert-insert a b [] h = let apart = is_newer-not a b h in ground arith
insert-insert a b (y ∷ ys) h =
    let apart = is_newer-not a b h in
    let rest = insert-insert a b ys h in
    let left_ = is_newer-between a b y in let right_ = is_newer-between b a y in ground arith

pub newest_first-Reordered :
    {xs ys : List IncidentRow} → Reordered xs ys → newest_first xs ≡ newest_first ys
unfolding newest_first
newest_first-Reordered same = refl
newest_first-Reordered (keep r h) = ap (insert_sorted is_newer r) (newest_first-Reordered h)
newest_first-Reordered (swap a b h {xs}) = insert-insert a b (sort_rows is_newer xs) h
newest_first-Reordered (trans h k) = newest_first-Reordered h ∙ newest_first-Reordered k
