-- ===== src/Relay/Claims.antt =====
-- What a claim takes of the rows, where no other transaction holds one.
use mathlib.Core.List.{Memᴰ}
use mathlib.Core.List.Memᴰ
use geo_notifications_servic.Prelude.{
  ℕ, zero, suc, ◌+◌, ◌*◌, ◌≤◌, ◌<◌, ◌≡◌, refl, sym, ap, ◌∙◌, ◌⊎◌, inl, inr, Bool, true, false, ◌&&◌,
  List, [], ◌∷◌, map, length, take, select, elem, All, All-imp, arith, Bool-cases, ==_iff, leb,
}
use geo_notifications_servic.World.{OutboxRow}
use geo_notifications_servic.Outbox.{
  is_pending, is_due, claimed_ids, update_rows, claim_row, returning, to_event,
}
use geo_notifications_servic.Outbox.Laws.{content}
use geo_notifications_servic.Relay.{batch_size, to_item}
use geo_notifications_servic.Relay.Rounds.{ids}

module _ {ℓ} {A : Type ℓ} where
  pub select-Memᴰ :
      (p : A → Bool) (x : A) (xs : List A) → Memᴰ x xs → p x ≡ true → Memᴰ x (select p xs)
  select-Memᴰ p x [] h k = absurd (Memᴰ.not-nil h)
  select-Memᴰ p x (y ∷ ys) h k = elim (Memᴰ.cases_cons h) [
    | inl same ↦ let passed : p y ≡ true = ap p (sym same) ∙ k in rw passed (Memᴰ.head same)
    | inr later ↦
        let rest = select-Memᴰ p x ys later k in
        elim (Bool-cases (p y)) [
          | inl passed ↦ rw passed (Memᴰ.tail rest)
          | inr failed ↦ rw failed rest
        ]
  ]

  take-all : (n : ℕ) (xs : List A) → length xs ≤ n → take n xs ≡ xs
  take-all zero [] h = refl
  take-all zero (x ∷ xs) h = absurd (omega arith)
  take-all (suc n) [] h = refl
  take-all (suc n) (x ∷ xs) h = ap (λ l. x ∷ l) (take-all n xs (omega arith))

  length-take-min : (n : ℕ) (xs : List A) → n < length xs → length (take n xs) ≡ n
  length-take-min zero xs h = refl
  length-take-min (suc n) [] h = absurd (omega arith)
  length-take-min (suc n) (x ∷ xs) h = ap suc (length-take-min n xs (omega arith))

  -- Of those that pass a test, the first few are not more than those that pass another test which
  -- each of the first few passes.
  length-select-All :
      (p q : A → Bool) (n : ℕ) (xs : List A)
      → All (λ x. q x ≡ true) (take n (select p xs))
      → length (take n (select p xs)) ≤ length (select q xs)
  length-select-All p q zero xs h = omega arith
  length-select-All p q (suc n) [] h = omega arith
  length-select-All p q (suc n) (x ∷ xs) h = elim (Bool-cases (p x)) [
    | inl passed ↦
        let (here, later) = (rw passed at h) in
        let rest = length-select-All p q n xs later in rw (passed, here) (omega (arith, rest))
    | inr failed ↦
        let rest = length-select-All p q (suc n) xs (rw failed at h) in ground (arith, rest)
  ]

  All-take-select :
      (p : A → Bool) (n : ℕ) (xs : List A) → All (λ x. p x ≡ true) (take n (select p xs))
  All-take-select p zero xs = tt
  All-take-select p (suc n) [] = tt
  All-take-select p (suc n) (x ∷ xs) = elim (Bool-cases (p x)) [
    | inl passed ↦ rw passed (passed, All-take-select p n xs)
    | inr failed ↦ rw failed (All-take-select p (suc n) xs)
  ]

elem-ids :
    (r : OutboxRow) (rows : List OutboxRow) → Memᴰ r rows → elem r.id (map (λ x. x.id) rows) ≡ true
elem-ids r [] h = absurd (Memᴰ.not-nil h)
elem-ids r (x ∷ rows) h = elim (Memᴰ.cases_cons h) [
  | inl same ↦ let e = ap (λ y. y.id) same in ground (arith, ==_iff r.id x.id)
  | inr later ↦ let k = elem-ids r rows later in ground (arith)
]

All-ids : (all : List OutboxRow) → All (λ r. elem r.id (map (λ x. x.id) all) ≡ true) all
All-ids [] = tt
All-ids (r ∷ rows) =
    (elem-ids r (r ∷ rows) (Memᴰ.head refl), All-imp (λ x h. ground arith) rows (All-ids rows))

-- An update takes a row or leaves it as it is.
updated-Memᴰ :
    (f : OutboxRow → OutboxRow) (ids : List ℕ) (r : OutboxRow) (rows : List OutboxRow)
    → Memᴰ r rows
    → elem r.id ids ≡ true
    → Memᴰ (f r) (update_rows f ids rows)
updated-Memᴰ f ids r [] h k = absurd (Memᴰ.not-nil h)
updated-Memᴰ f ids r (x ∷ rows) h k = elim (Memᴰ.cases_cons h) [
  | inl same ↦
      let e : elem x.id ids ≡ true = ap (λ y. elem y.id ids) (sym same) ∙ k in
      rw e (Memᴰ.head (ap f same))
  | inr later ↦ Memᴰ.tail (updated-Memᴰ f ids r rows later k)
]

pub update_rows-Memᴰ :
    (f : OutboxRow → OutboxRow) (ids : List ℕ) (r : OutboxRow) (rows : List OutboxRow)
    → Memᴰ r rows
    → elem r.id ids ≡ false
    → Memᴰ r (update_rows f ids rows)
update_rows-Memᴰ f ids r [] h k = absurd (Memᴰ.not-nil h)
update_rows-Memᴰ f ids r (x ∷ rows) h k = elim (Memᴰ.cases_cons h) [
  | inl same ↦
      let e : elem x.id ids ≡ false = ap (λ y. elem y.id ids) (sym same) ∙ k in
      rw e (Memᴰ.head same)
  | inr later ↦ Memᴰ.tail (update_rows-Memᴰ f ids r rows later k)
]

abbrev pub waits : OutboxRow → Bool
waits r = is_pending r.status

-- The rows that an update leaves pending, and those it takes.
waits-update_rows :
    (f : OutboxRow → OutboxRow) (settles : (r : OutboxRow) → waits (f r) ≡ false) (ids : List ℕ)
    (rows : List OutboxRow)
    → length (select waits (update_rows f ids rows))
        + length (select (λ r. waits r && elem r.id ids) rows)
      ≡ length (select waits rows)
waits-update_rows f settles ids [] = refl
waits-update_rows f settles ids (r ∷ rows) =
    let rest = waits-update_rows f settles ids rows in ground (arith, rest, settles r)

-- A row that is claimed is returned.
pub returning-Memᴰ :
    (now : ℕ) (ids : List ℕ) (r : OutboxRow) (rows : List OutboxRow)
    → Memᴰ r rows
    → elem r.id ids ≡ true
    → Memᴰ (content r) (map to_item (returning ids (update_rows (claim_row now) ids rows)))
unfolding claim_row
returning-Memᴰ now ids r rows h k = Memᴰ.map to_item (
    Memᴰ.map to_event (
      select-Memᴰ (λ x. elem x.id ids) (claim_row now r) (update_rows (claim_row now) ids rows)
        (updated-Memᴰ (claim_row now) ids r rows h k) k))

le-or-lt : (a b : ℕ) → (a ≤ b) ⊎ (b < a)
le-or-lt a b = elim (Bool-cases (leb a b)) [
  | inl h ↦ inl (ground arith)
  | inr h ↦ inr (ground arith)
]

All-both {ℓ} :
    {A : Type ℓ} {P Q R : A → Type 0}
    → ((a : A) → P a → Q a → R a)
    → (xs : List A) → All P xs
    → All Q xs
    → All R xs
All-both f [] h k = tt
All-both f (x ∷ xs) (p, h) (q, k) = (f x p q, All-both f xs h k)

abbrev pub unlocked : ℕ → Bool
unlocked id = false

module _ (now : ℕ) (r : OutboxRow) where
  due-waits :
      (ids : List ℕ)
      → is_due unlocked now r ≡ true
      → elem r.id ids ≡ true
      → (waits r && elem r.id ids) ≡ true
  unfolding is_due
  due-waits ids h k = ground arith

-- One claim among rows: a row that is due and is not claimed leaves a hundred others claimed.
module _ (now : ℕ) (rows : List OutboxRow) where
  abbrev due : List OutboxRow
  due = select (is_due unlocked now) rows

  abbrev taken : List ℕ
  taken = claimed_ids unlocked now batch_size rows

  taken-full :
      (r : OutboxRow)
      → Memᴰ r rows
      → is_due unlocked now r ≡ true
      → elem r.id taken ≡ false
      → batch_size < length due
  unfolding claimed_ids
  taken-full r h k missed = elim (le-or-lt (length due) batch_size) [
    | inl few ↦
        let all = take-all batch_size due few in
        let found = elem-ids r due (select-Memᴰ (is_due unlocked now) r rows h k) in
        let shown : elem r.id taken ≡ true = rw all found in absurd (cc)
    | inr many ↦ many
  ]

  taken-counts :
      batch_size < length due → batch_size ≤ length (select (λ r. waits r && elem r.id taken) rows)
  unfolding claimed_ids is_due
  taken-counts many =
      let first = take batch_size due in
      let counted =
        length-select-All (is_due unlocked now) (λ r. waits r && elem r.id taken) batch_size rows
          (All-both (λ r passed found. due-waits now r taken passed found) first
            (All-take-select (is_due unlocked now) batch_size rows) (All-ids first)) in
      let full = length-take-min batch_size due many in omega (arith, counted, full)

  -- What still waits after such a claim is settled.
  pub fewer-waits :
      (f : OutboxRow → OutboxRow) (settles : (r : OutboxRow) → waits (f r) ≡ false) (r : OutboxRow)
      (k : ℕ)
      → Memᴰ r rows
      → is_due unlocked now r ≡ true
      → elem r.id taken ≡ false
      → length (select waits rows) ≤ batch_size * suc k
      → length (select waits (update_rows f taken rows)) ≤ batch_size * k
  fewer-waits f settles r k h due_ missed few =
      let counts = taken-counts (taken-full r h due_ missed) in
      let parts = waits-update_rows f settles taken rows in
      at_most (length (select waits (update_rows f taken rows)))
        (length (select (λ r. waits r && elem r.id taken) rows)) (length (select waits rows)) k
        parts counts few
    where
      at_most :
          (a b c k : ℕ) → a + b ≡ c → batch_size ≤ b → c ≤ batch_size * suc k → a ≤ batch_size * k
      at_most a b c k e full few = omega arith
