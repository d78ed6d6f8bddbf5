-- ===== src/Incidents/Nearby.antt =====
-- What a search around a point finds.
use geo_notifications_servic.Prelude.{
  ℕ, zero, suc, ◌≤◌, ◌≡◌, refl, Bool, true, false, ◌&&◌, List, [], ◌∷◌, map, ℤ, arith, Bool-cases,
  ◌⊎◌, inl, inr, select, take, All, All-imp, length, length-take, length-map, pos_part, pos, ltb_ℤ,
}
use geo_notifications_servic.Domain.{Point, NearbyIncident}
use geo_notifications_servic.World.{World, Env, IncidentRow}
use geo_notifications_servic.World.Exec.{ok}
use geo_notifications_servic.Db.{pool}
use geo_notifications_servic.Incidents.{find_nearby}
use geo_notifications_servic.Incidents.Rows.{
  to_nearby, nearest_first, scan_descriptions, sort_rows, insert_sorted, is_nearer, is_some,
}

-- A row of a table.
abbrev pub Holds : IncidentRow → List IncidentRow → Type 0
Holds r [] = ⊥
Holds r (x ∷ xs) = (r ≡ x) ⊎ Holds r xs

Holds-self : (rows : List IncidentRow) → All (λ r. Holds r rows) rows
Holds-self [] = tt
Holds-self (r ∷ rows) = (inl refl, All-imp (λ x h. inr h) rows (Holds-self rows))

module _ (P : IncidentRow → Type 0) where
  All-insert_sorted :
      (before : IncidentRow → IncidentRow → Bool) (x : IncidentRow) (rows : List IncidentRow)
      → P x
      → All P rows
      → All P (insert_sorted before x rows)
  unfolding insert_sorted
  All-insert_sorted before x [] p h = (p, tt)
  All-insert_sorted before x (y ∷ rows) p (q, h) = elim (Bool-cases (before y x)) [
    | inl first ↦ rw first (q, All-insert_sorted before x rows p h)
    | inr last ↦ rw last (p, (q, h))
  ]

  All-sort_rows :
      (before : IncidentRow → IncidentRow → Bool) (rows : List IncidentRow)
      → All P rows
      → All P (sort_rows before rows)
  unfolding sort_rows
  All-sort_rows before [] h = tt
  All-sort_rows before (x ∷ rows) (p, h) =
      All-insert_sorted before x (sort_rows before rows) p (All-sort_rows before rows h)

  All-first : (n : ℕ) (rows : List IncidentRow) → All P rows → All P (take n rows)
  All-first zero rows h = tt
  All-first (suc n) [] h = tt
  All-first (suc n) (x ∷ rows) (p, h) = (p, All-first n rows h)

module _ (P : IncidentRow → Type 0) where
  All-select :
      (test : IncidentRow → Bool) (rows : List IncidentRow)
      → All P rows
      → All (λ r. P r × (test r ≡ true)) (select test rows)
  All-select test [] h = tt
  All-select test (r ∷ rows) (p, h) = elim (Bool-cases (test r)) [
    | inl hit ↦ rw hit ((p, hit), All-select test rows h)
    | inr miss ↦ rw miss (All-select test rows h)
  ]

-- A row of the table that is active, whose circle the point is in.
pub record IsHit (env : Env) (p : Point) (rows : List IncidentRow) (n : NearbyIncident)
    : Type 0 where
  pub row : IncidentRow
  pub held : Holds row rows
  pub active : row.active ≡ true
  pub within : env.is_within row.center p row.radius ≡ true
  pub described : is_some row.description ≡ true
  pub shown : n ≡ to_nearby env p row

both : (a b : Bool) → (a && b) ≡ true → (a ≡ true) × (b ≡ true)
both a b h = ground arith

module _ (env : Env) (p : Point) where
  abbrev is_near : IncidentRow → Bool
  is_near r = r.active && env.is_within r.center p r.radius

  IsHit-map :
      (table rows : List IncidentRow)
      → All (λ r. Holds r table × (is_near r ≡ true)) rows
      → scan_descriptions rows ≡ true
      → All (IsHit env p table) (map (to_nearby env p) rows)
  unfolding scan_descriptions
  IsHit-map table [] h s = tt
  IsHit-map table (r ∷ rows) (((held, near), h)) s =
      let (described, rest) = both (is_some r.description) (scan_descriptions rows) s in
      let (active, within) = both r.active (env.is_within r.center p r.radius) near in
      (
        record {
          row = r;
          held = held;
          active = active;
          within = within;
          described = described;
          shown = refl;
        },
        IsHit-map table rows h rest,
      )

  -- The rows that the query returns.
  abbrev hits : ℤ → List IncidentRow → List IncidentRow
  hits limit rows = take (pos_part limit) (nearest_first env p (select is_near rows))

  hits-near :
      (limit : ℤ) (rows : List IncidentRow)
      → All (λ r. Holds r rows × (is_near r ≡ true)) (hits limit rows)
  unfolding nearest_first
  hits-near limit rows =
      let P = λ (r : IncidentRow). Holds r rows × (is_near r ≡ true) in
      All-first P (pos_part limit) _ (
        All-sort_rows P (is_nearer env p) _
          (All-select (λ r. Holds r rows) is_near rows (Holds-self rows)))

  module _ (limit : ℤ) (w : World) (found : List NearbyIncident) where
    find_nearby-rows :
        (find_nearby env pool p limit w).0 ≡ ok found
        → (ltb_ℤ limit (pos 0) ≡ false)
          × (scan_descriptions (hits limit w.tables.incidents) ≡ true)
          × (found ≡ map (to_nearby env p) (hits limit w.tables.incidents))
    unfolding find_nearby
    find_nearby-rows h = ground arith

    -- If a search succeeds, it returns at most as many incidents as its limit, and each is read from
    -- a row of the table that is active, whose circle contains the point, and whose description is
    -- not NULL.
    pub find_nearby-IsHit :
        (find_nearby env pool p limit w).0 ≡ ok found
        → (length found ≤ pos_part limit) × All (IsHit env p w.tables.incidents) found
    find_nearby-IsHit h =
        let (_, scanned, shown) = find_nearby-rows h in
        rw shown (
          omega (
            arith,
            length-map (to_nearby env p) (hits limit w.tables.incidents),
            length-take (pos_part limit) (nearest_first env p (select is_near w.tables.incidents)),
          ),
          IsHit-map w.tables.incidents _ (hits-near limit w.tables.incidents) scanned,
        )
