-- ===== src/Cache/Lists.antt =====
-- A list of active incidents read through the cache, while Redis and the database answer.
use geo_notifications_servic.Prelude.{
  ℕ, suc, ◌≡◌, refl, ap, true, Option, none, some, String, List, pos, arith, Option-cases, inl, inr,
}
use geo_notifications_servic.Domain.{Incident, ListFilter}
use geo_notifications_servic.World.{World, Env}
use geo_notifications_servic.World.Exec.{Result, ok, pure, ◌>>◌, ◌>>=◌}
use geo_notifications_servic.Db.{pool}
use geo_notifications_servic.Relay.Rounds.{calm}
use geo_notifications_servic.Incidents
use geo_notifications_servic.Incidents.Pages.{filter_of}
use geo_notifications_servic.TxRunner.{base_repository}
use geo_notifications_servic.Cache.{
  list, get_version, live_page, set_page, list_missed, list_at, get_page, try_page, store, redis,
  redis_reply,
}
use geo_notifications_servic.Cache.Pages.{
  answer, IsCoherent, Reads, All-IsRight-rise, All-IsRight-select, live_page-IsRight,
}

-- A world with this version in the cache.
abbrev versioned : Option ℕ → World → World
versioned version w = record w { cache = record w.cache { version = version } }

module _ (env : Env) (ttl : ℕ) (reads : Reads env) (limit offset : ℕ) where
  abbrev pub f : ListFilter
  f = filter_of true limit offset

  -- Answered as the table says, with the tables and the coherence of the cache kept.
  abbrev pub Served : World → Result (List Incident) × World → Type 0
  Served w (r, v) =
      (r ≡ ok (answer (pos limit) (pos offset) w.tables.incidents))
      × (v.tables ≡ w.tables)
      × IsCoherent env v

  -- `list_missed` at a current version.
  hit-Served :
      (version : ℕ) (items : List Incident) (w : World)
      → IsCoherent env w
      → items ≡ answer (pos limit) (pos offset) w.tables.incidents
      → Served w (list_missed (calm env) ttl (base_repository (calm env)) version f (some items) w)
  unfolding list_missed
  hit-Served version items w h e = (ap ok e, refl, h)

  pub base_list :
      (w : World)
      → Incidents.list (calm env) pool f w ≡ (
        ok (answer (pos limit) (pos offset) w.tables.incidents),
        record w { calls = suc w.calls },
      )
  unfolding Incidents.list
  base_list w = ground arith

  abbrev shown : World → List Incident
  shown w = answer (pos limit) (pos offset) w.tables.incidents

  -- Storing a right page keeps the cache coherent.
  stored :
      (version : ℕ) (text : Option String) (w : World)
      → IsCoherent env (versioned (some version) w)
      → env.marshal_list (shown w) ≡ text
      → Served w
          ((store (calm env) ttl version f text >> pure (shown w)) (versioned (some version) w))
  unfolding store redis redis_reply set_page
  stored version none w h m = (refl, refl, h)
  stored version (some b) w h m = (
    refl,
    refl,
    (
      (omega arith, λ _. reads _ b m),
      All-IsRight-select env w.tables.incidents (env.clock w.calls) version f w.cache.pages h,
    ),
  )

  miss-Served :
      (version : ℕ) (w : World)
      → IsCoherent env (versioned (some version) w)
      → Served w (
          list_missed
            (calm env)
            ttl
            (base_repository (calm env))
            version
            f
            none
            (versioned (some version) w))
  unfolding list_missed
  miss-Served version w h =
      rw (base_list (versioned (some version) w))
        (stored version _ (record w { calls = suc w.calls }) h refl)

  list_at-Served :
      (version : ℕ) (w : World)
      → IsCoherent env (versioned (some version) w)
      → Served w (
          list_at
            (calm env)
            ttl
            (base_repository (calm env))
            f
            version
            (versioned (some version) w))
  unfolding list_at try_page redis redis_reply get_page
  list_at-Served version w h =
      let w' : World = record w { calls = suc w.calls } in
      elim (Option-cases (live_page (env.clock w.calls) version f w.cache.pages)) [
        | inl missing ↦ rw missing (miss-Served version w' h)
        | inr (b, found) ↦
            let right =
              live_page-IsRight env w.tables.incidents (env.clock w.calls) version f w.cache.pages b
                h found in
            rw (found, right) (hit-Served version _ (versioned (some version) w') h refl)
      ]

  versioned-Served :
      (version : Option ℕ) (w : World)
      → IsCoherent env (versioned version w)
      → Served w (
          (get_version (calm env) >>= list_at (calm env) ttl (base_repository (calm env)) f)
            (versioned version w))
  unfolding get_version redis redis_reply
  versioned-Served none w h =
      list_at-Served 1 (record w { calls = suc (suc w.calls) })
        (All-IsRight-rise env w.tables.incidents w.tables.incidents 0 1 w.cache.pages (omega arith)
          h)
  versioned-Served (some v) w h = list_at-Served v (record w { calls = suc w.calls }) h

  -- While no call fails and the cache is coherent, a list of active incidents that is read through
  -- the cache is the page of the newest active incidents that the table has now, whether it comes from
  -- the cache or not; no table changes, and the cache is coherent after.
  pub list-Served :
      (w : World)
      → IsCoherent env w
      → Served w (list (calm env) ttl (base_repository (calm env)) f w)
  unfolding list
  list-Served w h = versioned-Served w.cache.version w h
