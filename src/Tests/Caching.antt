-- ===== src/Tests/Caching.antt =====
-- An incident that is created and read through the cached repository.
use geo_notifications_servic.Prelude.{
  ℕ, ◌≡◌, refl, sym, ap, subst, inl, inr, Bool, true, false, not, ◌&&◌, none, some, String, [], ◌∷◌,
  ◌++◌, ℤ, pos, negsuc, ◌==ℤ◌, ◌==◌, str_eq, eq_iff, List, Option, Bool-cases, if◌then◌else◌, arith,
}
use geo_notifications_servic.Domain.{Incident}
use geo_notifications_servic.World.{Env}
use geo_notifications_servic.Incidents
use geo_notifications_servic.Incidents.Rows.{newest_first, to_domain}
use geo_notifications_servic.Cache
use geo_notifications_servic.Incidents.Pages.{filter_of}
use geo_notifications_servic.TxRunner.{base_repository}
use geo_notifications_servic.Relay.Rounds.{calm}
use geo_notifications_servic.Cache.Pages.{IsCoherent, Reads}
use geo_notifications_servic.Cache.Refinement.{
  Call, create, list, deactivate, count_unique_users_since, after_all, cached, after_all-IsCoherent,
  list_refines,
}
use geo_notifications_servic.Tests.Samples.{good, start, spot}

abbrev fire_shown : Incident
fire_shown = record {
  id = 1;
  title = "fire";
  description = "smoke";
  center = spot;
  radius = pos 50;
  active = true;
  created_at = 0;
  updated_at = 0;
}

abbrev is_fire : Incident → Bool
is_fire inc =
    inc.id == 1
    && str_eq inc.title "fire"
    && str_eq inc.description "smoke"
    && not inc.center.lat.negative
    && inc.center.lat.magnitude == spot.lat.magnitude
    && not inc.center.lon.negative
    && inc.center.lon.magnitude == 0
    && inc.radius ==ℤ pos 50
    && inc.active
    && inc.created_at == 0
    && inc.updated_at == 0

==ℤ-pos : (r : ℤ) (n : ℕ) → (r ==ℤ pos n) ≡ true → r ≡ pos n
==ℤ-pos (pos m) n h = ap pos (ground arith)
==ℤ-pos (negsuc m) n h = absurd (ground arith)

is_fire_lem : (inc : Incident) → is_fire inc ≡ true → inc ≡ fire_shown
is_fire_lem inc h =
    let id : inc.id ≡ 1 = ground arith in
    let titled : str_eq inc.title "fire" ≡ true = ground arith in
    let described : str_eq inc.description "smoke" ≡ true = ground arith in
    let north : inc.center.lat.negative ≡ false = ground arith in
    let lat : inc.center.lat.magnitude ≡ spot.lat.magnitude = ground arith in
    let east : inc.center.lon.negative ≡ false = ground arith in
    let lon : inc.center.lon.magnitude ≡ 0 = ground arith in
    let round : (inc.radius ==ℤ pos 50) ≡ true = ground arith in
    let active : inc.active ≡ true = ground arith in
    let created : inc.created_at ≡ 0 = ground arith in
    let updated : inc.updated_at ≡ 0 = ground arith in
    λ i. record {
      id = id i;
      title = (eq_iff _ _).0 titled i;
      description = (eq_iff _ _).0 described i;
      center = record {
        lat = record { negative = north i; magnitude = lat i };
        lon = record { negative = east i; magnitude = lon i };
      };
      radius = ==ℤ-pos inc.radius 50 round i;
      active = active i;
      created_at = created i;
      updated_at = updated i;
    }

-- JSON that is written for the empty list and for that of the one incident.
abbrev written : List Incident → Option String
written [] = some "[]"
written (inc ∷ []) = if is_fire inc then some "[fire]" else none
written (inc ∷ other ∷ items) = none

abbrev read : String → Option (List Incident)
read text =
    if str_eq text "[]"
    then some []
    else if str_eq text "[fire]"
    then some (fire_shown ∷ [])
    else none

abbrev caching : Env
caching = record good { marshal_list = written; unmarshal_list = read }

reads : Reads caching
reads [] b h = let text : "[]" ≡ b = cc in subst (λ t. read t ≡ some []) text refl
reads (inc ∷ []) b h = elim (Bool-cases (is_fire inc)) [
  | inl fire ↦
      let one : some "[fire]" ≡ some b = (rw fire at h) in
      let text : "[fire]" ≡ b = cc in
      subst (λ t. read t ≡ some (inc ∷ [])) text
        (ap (λ x. some (x ∷ [])) (sym (is_fire_lem inc fire)))
  | inr other ↦ absurd (let one = (rw other at h) in cc)
]
reads (inc ∷ other ∷ items) b h = absurd (cc)

abbrev calls : List Call
calls =
    list true 10 5
    ∷ create (record { title = "flood"; description = ""; center = spot; radius = pos 7 })
    ∷ list true 1 1
    ∷ list true 1 1
    ∷ count_unique_users_since 0
    ∷ []

-- The second reading of the page finds it in the cache.
stored :
    (after_all (cached caching 60) calls start).cache.pages
    ≡ record { version = 2; limit = pos 1; offset = pos 1; body = "[fire]"; expires = some 70 }
      ∷ record { version = 1; limit = pos 10; offset = pos 5; body = "[]"; expires = some 64 }
      ∷ []
unfolding after_all Incidents.count_unique_users_since Cache.list Cache.bumped Incidents.create
    Cache.live_page Incidents.list newest_first to_domain
stored = refl

after_all-IsCoherent_example :
    IsCoherent caching (after_all (cached caching 60) (calls ++ deactivate (pos 1) ∷ []) start)
after_all-IsCoherent_example =
    after_all-IsCoherent caching 60 reads (calls ++ deactivate (pos 1) ∷ []) start tt

list_refines_example :
    let v = after_all (cached caching 60) calls start in
    let f = filter_of true 1 1 in
    (((cached caching 60).list f v).0 ≡ ((base_repository (calm caching)).list f v).0)
    × (((cached caching 60).list f v).1.tables ≡ v.tables)
list_refines_example = list_refines caching 60 reads calls start true 1 1 tt
