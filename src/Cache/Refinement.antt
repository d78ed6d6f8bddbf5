-- ===== src/Cache/Refinement.antt =====
-- The cached repository answers like the repository below it, after any sequence of calls.
use geo_notifications_servic.Prelude.{
  ℕ, ◌≡◌, refl, sym, ap, ◌∙◌, Bool, true, false, List, [], ◌∷◌, ℤ, arith,
}
use geo_notifications_servic.Domain.{Point, CreateIncident, UpdateIncident}
use geo_notifications_servic.World.{World, Env}
use geo_notifications_servic.Db.{pool}
use geo_notifications_servic.Relay.Rounds.{calm}
use geo_notifications_servic.Incidents
use geo_notifications_servic.Incidents.Pages.{filter_of}
use geo_notifications_servic.Ports.{IncidentsRepository}
use geo_notifications_servic.TxRunner.{base_repository}
use geo_notifications_servic.Cache
use geo_notifications_servic.Cache.{cached_repository}
use geo_notifications_servic.Cache.Pages.{IsCoherent, Reads}
use geo_notifications_servic.Cache.Lists.{list-Served, base_list}
use geo_notifications_servic.Cache.History.{
  bumped-IsCoherent, create-Careful, update-Careful, deactivate-Careful, search-same,
}

-- The calls of a client: those of the repository, but that a list is asked for with a limit and an
-- offset that are not negative, as the service does.
pub data Call : Type 0 where
  create : CreateIncident → Call
  get_by_id : ℤ → Call
  list : (active_only : Bool) (limit offset : ℕ) → Call
  update : ℤ → UpdateIncident → Call
  deactivate : ℤ → Call
  find_nearby : Point → ℤ → Call
  count_unique_users_since : (since : ℕ) → Call

-- The world after a call of a repository.
abbrev pub after : IncidentsRepository → Call → World → World
after repo (create c) w = (repo.create c w).1
after repo (get_by_id id) w = (repo.get_by_id id w).1
after repo (list active_only limit offset) w = (repo.list (filter_of active_only limit offset) w).1
after repo (update id u) w = (repo.update id u w).1
after repo (deactivate id) w = (repo.deactivate id w).1
after repo (find_nearby p limit) w = (repo.find_nearby p limit w).1
after repo (count_unique_users_since since) w = (repo.count_unique_users_since since w).1

unfoldable pub after_all : IncidentsRepository → List Call → World → World
after_all repo [] w = w
after_all repo (c ∷ cs) w = after_all repo cs (after repo c w)

module _ (env : Env) (ttl : ℕ) where
  abbrev pub cached : IncidentsRepository
  cached = cached_repository (calm env) ttl (base_repository (calm env))

  list_all-same :
      (limit offset : ℕ) (w : World)
      → let v = (cached.list (filter_of false limit offset) w).1 in
        (v.cache ≡ w.cache) × (v.tables ≡ w.tables)
  unfolding Cache.list Incidents.list
  list_all-same limit offset w = ground arith

  found-same :
      (id : ℤ) (w : World)
      → let v = (cached.get_by_id id w).1 in (v.cache ≡ w.cache) × (v.tables ≡ w.tables)
  unfolding Incidents.get_by_id
  found-same id w = ground arith

  count-same :
      (since : ℕ) (w : World)
      → let v = (cached.count_unique_users_since since w).1 in
        (v.cache ≡ w.cache) × (v.tables ≡ w.tables)
  unfolding Incidents.count_unique_users_since
  count-same since w = ground arith

  -- A text that a list is marshalled to reads as the list.
  module _ (reads : Reads env) where
    after-IsCoherent : (c : Call) (w : World) → IsCoherent env w → IsCoherent env (after cached c w)
    after-IsCoherent (create c) w h =
        bumped-IsCoherent env (Incidents.create (calm env) pool c) w (create-Careful env w c) h
    after-IsCoherent (get_by_id id) w h =
        let (cache, tables) = found-same id w in rw (cache, tables) h
    after-IsCoherent (list true limit offset) w h = (list-Served env ttl reads limit offset w h).2
    after-IsCoherent (list false limit offset) w h =
        let (cache, tables) = list_all-same limit offset w in rw (cache, tables) h
    after-IsCoherent (update id u) w h =
        bumped-IsCoherent env (Incidents.update (calm env) pool id u) w (update-Careful env w id u)
          h
    after-IsCoherent (deactivate id) w h =
        bumped-IsCoherent env (Incidents.deactivate (calm env) pool id) w
          (deactivate-Careful env w id) h
    after-IsCoherent (find_nearby p limit) w h =
        let (cache, tables) = search-same env w p limit in rw (cache, tables) h
    after-IsCoherent (count_unique_users_since since) w h =
        let (cache, tables) = count-same since w in rw (cache, tables) h

    -- If every text that encoding/json makes of a list of incidents reads as that list, then, while no
    -- call fails, every sequence of calls of the cached repository, with limits and offsets that are
    -- not negative, leaves a coherent cache coherent: each page of the current version reads as what the table answers.
    pub after_all-IsCoherent :
        (calls : List Call) (w : World)
        → IsCoherent env w
        → IsCoherent env (after_all cached calls w)
    unfolding after_all
    after_all-IsCoherent [] w h = h
    after_all-IsCoherent (c ∷ calls) w h =
        after_all-IsCoherent calls (after cached c w) (after-IsCoherent c w h)

    -- If every text that encoding/json makes of a list of incidents reads as that list, then, while no
    -- call fails, and from a cache that is coherent, as an empty one is: a list that is read after any
    -- sequence of calls of the cached repository, all with limits and offsets that are not negative,
    -- is the one that the repository below it
    -- answers in the same state, and leaves the same tables.
    pub list_refines :
        (calls : List Call) (w : World) (active_only : Bool) (limit offset : ℕ)
        → IsCoherent env w
        → let v = after_all cached calls w in
          let f = filter_of active_only limit offset in
          ((cached.list f v).0 ≡ ((base_repository (calm env)).list f v).0)
          × ((cached.list f v).1.tables ≡ v.tables)
    unfolding Cache.list
    list_refines calls w true limit offset h =
        let v = after_all cached calls w in
        let (shown, tables, _) =
          list-Served env ttl reads limit offset v (after_all-IsCoherent calls w h) in
        (shown ∙ sym (ap (λ r. r.0) (base_list env ttl reads limit offset v)), tables)
    list_refines calls w false limit offset h =
        (refl, (list_all-same limit offset (after_all cached calls w)).1)
