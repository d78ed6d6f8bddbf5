-- ===== src/Cache/Pages.antt =====
-- The pages in the cache under the current version are those of the table.
use geo_notifications_servic.Prelude.{
  ℕ, ◌≤◌, ◌<◌, ◌≡◌, Bool, true, ◌&&◌, not, Option, none, some, String, List, [], ◌∷◌, map, select,
  take, drop, ℤ, pos, negsuc, pos_part, ◌==ℤ◌, ◌==◌, ==_iff, arith, All, All-imp, Bool-cases, inl,
  inr,
}
use geo_notifications_servic.Domain.{Incident, ListFilter}
use geo_notifications_servic.World.{World, Env, IncidentRow, Page}
use geo_notifications_servic.Incidents.Rows.{to_domain}
use geo_notifications_servic.Incidents.Pages.{admitted}
use geo_notifications_servic.Cache.{is_live, live_page, has_page_key}

-- The version under which the pages were stored last.
abbrev pub current : Option ℕ → ℕ
current none = 0
current (some v) = v

-- The answer that the table gives to a filter on active incidents.
abbrev pub answer : ℤ → ℤ → List IncidentRow → List Incident
answer limit offset rows =
    map to_domain (take (pos_part limit) (drop (pos_part offset) (admitted true rows)))

-- A page is of no later version than the current one, and if it is of this one its text reads as
-- the answer of the table.
abbrev pub IsRight : Env → List IncidentRow → ℕ → Page → Type 0
IsRight env rows v p =
    (p.version ≤ v)
    × (p.version ≡ v → env.unmarshal_list p.body ≡ some (answer p.limit p.offset rows))

abbrev pub IsCoherent : Env → World → Type 0
IsCoherent env w = All (IsRight env w.tables.incidents (current w.cache.version)) w.cache.pages

-- A text that a list is marshalled to reads as the list.
abbrev pub Reads : Env → Type 0
Reads env =
    (items : List Incident) (b : String)
    → env.marshal_list items ≡ some b
    → env.unmarshal_list b ≡ some items

-- After the version has risen nothing is said of the pages that are there.
pub All-IsRight-rise :
    (env : Env) (rows rows' : List IncidentRow) (v v' : ℕ) (pages : List Page)
    → v < v'
    → All (IsRight env rows v) pages
    → All (IsRight env rows' v') pages
All-IsRight-rise env rows rows' v v' pages lt h =
    All-imp (λ p (low, same). (omega arith, λ e. absurd (omega arith))) pages h

eq_of_==ℤ : (a b : ℤ) → (a ==ℤ b) ≡ true → a ≡ b
eq_of_==ℤ (pos a) (pos b) h = ground arith
eq_of_==ℤ (pos a) (negsuc b) h = ground arith
eq_of_==ℤ (negsuc a) (pos b) h = ground arith
eq_of_==ℤ (negsuc a) (negsuc b) h = ground arith

both : (a b : Bool) → (a && b) ≡ true → (a ≡ true) × (b ≡ true)
both a b h = ground arith

module _ (env : Env) (rows : List IncidentRow) (now v : ℕ) (f : ListFilter) where
  same_key :
      (p : Page)
      → has_page_key v f p ≡ true
      → (p.version ≡ v) × (p.limit ≡ f.limit) × (p.offset ≡ f.offset)
  same_key p h =
      let (keys, offset) = both (p.version == v && p.limit ==ℤ f.limit) (p.offset ==ℤ f.offset) h in
      let (version, limit) = both (p.version == v) (p.limit ==ℤ f.limit) keys in
      ((==_iff _ _).0 version, eq_of_==ℤ _ _ limit, eq_of_==ℤ _ _ offset)

  pub live_page-IsRight :
      (pages : List Page) (b : String)
      → All (IsRight env rows v) pages
      → live_page now v f pages ≡ some b
      → env.unmarshal_list b ≡ some (answer f.limit f.offset rows)
  unfolding live_page
  live_page-IsRight [] b h found = ground arith
  live_page-IsRight (p ∷ pages) b ((low, right), h) found =
      elim (Bool-cases (has_page_key v f p && is_live now p.expires)) [
        | inl hit ↦
            let (version, limit, offset) = same_key p (both _ _ hit).0 in
            let body : p.body ≡ b = cc (rw hit at found) in
            rw (← body, ← limit, ← offset) (right version)
        | inr miss ↦ live_page-IsRight pages b h (rw miss at found)
      ]

  pub All-IsRight-select :
      (pages : List Page)
      → All (IsRight env rows v) pages
      → All (IsRight env rows v) (select (λ p. not (has_page_key v f p)) pages)
  All-IsRight-select [] h = tt
  All-IsRight-select (p ∷ pages) (r, h) = elim (Bool-cases (has_page_key v f p)) [
    | inl same ↦ rw same (All-IsRight-select pages h)
    | inr other ↦ rw other (r, All-IsRight-select pages h)
  ]
