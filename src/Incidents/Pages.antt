-- ===== src/Incidents/Pages.antt =====
-- The pages of a list of incidents.
use geo_notifications_servic.Prelude.{
  ℕ, zero, suc, ◌+◌, ◌≡◌, refl, sym, ap, ◌∙◌, Bool, true, false, List, [], ◌∷◌, ◌++◌, map, pos,
  arith, take, drop, select, if◌then◌else◌,
}
use mathlib.Core.List.{map-append}
use geo_notifications_servic.Domain.{Incident, ListFilter}
use geo_notifications_servic.World.{World, Env, IncidentRow}
use geo_notifications_servic.World.Exec.{ok}
use geo_notifications_servic.Db.{pool}
use geo_notifications_servic.Incidents.{list}
use geo_notifications_servic.Incidents.Order.{Reordered, select-Reordered, newest_first-Reordered}
use geo_notifications_servic.Incidents.Rows.{to_domain, newest_first}

take-nil : {A : Type 0} (n : ℕ) → take {A = A} n [] ≡ []
take-nil zero = refl
take-nil (suc n) = refl

drop-nil : {A : Type 0} (n : ℕ) → drop {A = A} n [] ≡ []
drop-nil zero = refl
drop-nil (suc n) = refl

take-append :
    {A : Type 0} (a b c : ℕ) (xs : List A) → c ≡ a + b → take c xs ≡ take a xs ++ take b (drop a xs)
take-append zero b c xs h = ap (λ n. take n xs) (omega arith)
take-append (suc a) b zero xs h = absurd (omega arith)
take-append (suc a) b (suc c) [] h = sym (take-nil b)
take-append (suc a) b (suc c) (x ∷ xs) h = ap (λ l. x ∷ l) (take-append a b c xs (omega arith))

drop-drop : {A : Type 0} (o a p : ℕ) (xs : List A) → p ≡ o + a → drop a (drop o xs) ≡ drop p xs
drop-drop zero a p xs h = ap (λ n. drop n xs) (omega arith)
drop-drop (suc o) a zero xs h = absurd (omega arith)
drop-drop (suc o) a (suc p) [] h = drop-nil a
drop-drop (suc o) a (suc p) (x ∷ xs) h = drop-drop o a p xs (omega arith)

take-drop :
    {A : Type 0} (a b o : ℕ) (xs : List A)
    → take (a + b) (drop o xs) ≡ take a (drop o xs) ++ take b (drop (o + a) xs)
take-drop a b o xs =
    take-append a b (a + b) (drop o xs) refl
    ∙ ap (λ l. take a (drop o xs) ++ take b l) (drop-drop o a (o + a) xs refl)

-- The rows that a filter admits, the newest first.
abbrev pub admitted : Bool → List IncidentRow → List IncidentRow
admitted active_only rows = newest_first (if active_only then select (λ r. r.active) rows else rows)

abbrev pub filter_of : Bool → ℕ → ℕ → ListFilter
filter_of active_only limit offset = record {
  limit = pos limit;
  offset = pos offset;
  active_only = active_only;
}

admitted-Reordered :
    (active_only : Bool) {rows rows' : List IncidentRow}
    → Reordered rows rows'
    → admitted active_only rows ≡ admitted active_only rows'
admitted-Reordered true h = newest_first-Reordered (select-Reordered (λ r. r.active) h)
admitted-Reordered false h = newest_first-Reordered h

module _ (env : Env) (active_only : Bool) where
  list-ok :
      (limit offset : ℕ) (w : World) (found : List Incident)
      → (list env pool (filter_of active_only limit offset) w).0 ≡ ok found
      → found ≡ map to_domain (take limit (drop offset (admitted active_only w.tables.incidents)))
  unfolding list
  list-ok limit offset w found h = ground arith

  -- Two pages of a list that follow one another are, together, the page of both their sizes, if the
  -- three are read successfully while the table has the same incidents; also if it gives its rows in
  -- another order each time, as a table may that is updated meanwhile or read by another plan.
  pub list-append :
      (a b offset : ℕ) (u v w : World) (first next whole : List Incident)
      → Reordered v.tables.incidents u.tables.incidents
      → Reordered w.tables.incidents u.tables.incidents
      → (list env pool (filter_of active_only a offset) u).0 ≡ ok first
      → (list env pool (filter_of active_only b (offset + a)) v).0 ≡ ok next
      → (list env pool (filter_of active_only (a + b) offset) w).0 ≡ ok whole
      → whole ≡ first ++ next
  list-append a b offset u v w first next whole same_v same_w hu hv hw =
      let rows = admitted active_only u.tables.incidents in
      let pages = take-drop a b offset rows in
      let mapped =
        map-append to_domain (take a (drop offset rows)) (take b (drop (offset + a) rows)) in
      rw
        (
          list-ok a offset u first hu,
          list-ok b (offset + a) v next hv,
          list-ok (a + b) offset w whole hw,
          admitted-Reordered active_only same_v,
          admitted-Reordered active_only same_w,
          pages,
        )
        mapped
