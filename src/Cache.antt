-- ===== src/Cache.antt =====
-- internal/platform/redis/cache/incidents.go: a repository that keeps the pages of active incidents
-- in Redis, under a version that every write raises. Logging is left out.
pub mod Pages
pub mod Writes
pub mod Lists
pub mod History
pub mod Refinement
use geo_notifications_servic.Prelude.{
  ℕ, suc, ◌+◌, Bool, true, false, ◌&&◌, ◌||◌, Option, none, some, String, List, [], ◌∷◌, select, ℤ,
  ◌==ℤ◌, ltb, ◌==◌, if◌then◌else◌, not,
}
use geo_notifications_servic.Errs.{GoError, plain}
use geo_notifications_servic.Domain.{Incident, CreateIncident, UpdateIncident, ListFilter}
use geo_notifications_servic.World.{World, Env, Reply, fine, failed, Page, Cache}
use geo_notifications_servic.World.Exec.{
  Result, ok, err, panicked, M, pure, ignore_error, error_of, ◌>>=◌, ◌>>◌,
}
use geo_notifications_servic.Ports.{IncidentsRepository}

-- A call of Redis that is carried out: its answer, and what it leaves in the database. One that
-- fails has no answer, and may have been carried out.
redis_reply {ℓ} : {A : Type ℓ} → Reply → Result A → Cache → M A
redis_reply fine answer after w = (answer, record w { calls = suc w.calls; cache = after })
redis_reply (failed reached e) answer after w =
    (err e, record w { calls = suc w.calls; cache = if reached == 0 then w.cache else after })

unfoldable pub redis {ℓ} : {A : Type ℓ} → Env → (ℕ → Cache → Result A × Cache) → M A
unfolding redis_reply
redis env command w =
    let (answer, after) = command (env.clock w.calls) w.cache in
    redis_reply (env.reply w.calls) answer after w

-- GET incidents:active:version; none where the error is `redis.Nil`.
abbrev pub get_version_key : ℕ → Cache → Result (Option ℕ) × Cache
get_version_key now c = (ok c.version, c)

abbrev set_if_none : Option ℕ → Option ℕ
set_if_none none = some 1
set_if_none (some v) = some v

-- SETNX incidents:active:version 1
abbrev pub setnx_version : ℕ → Cache → Result (Unit {0}) × Cache
setnx_version now c = (ok tt, record c { version = set_if_none c.version })

abbrev pub raised : Option ℕ → ℕ
raised none = 1
raised (some v) = suc v

-- INCR incidents:active:version
abbrev pub incr_version : ℕ → Cache → Result (Unit {0}) × Cache
incr_version now c = (ok tt, record c { version = some (raised c.version) })

version_found : Env → Option ℕ → M ℕ
version_found env (some v) = pure v
version_found env none = ignore_error (redis env setnx_version) >> pure 1

-- An error but `redis.Nil` gives version 0.
version_or_zero : Result ℕ → Result ℕ
version_or_zero (ok v) = ok v
version_or_zero (err e) = ok 0
version_or_zero (panicked p) = panicked p

unfoldable pub get_version : Env → M ℕ
unfolding version_found version_or_zero redis redis_reply
get_version env w =
    let (r, w') = (redis env get_version_key >>= version_found env) w in (version_or_zero r, w')

unfoldable pub bump_version : Env → M (Unit {0})
unfolding redis redis_reply
bump_version env = redis env incr_version

-- Whether a page has this key.
abbrev pub has_page_key : ℕ → ListFilter → Page → Bool
has_page_key version f p = p.version == version && p.limit ==ℤ f.limit && p.offset ==ℤ f.offset

abbrev pub is_live : ℕ → Option ℕ → Bool
is_live now none = true
is_live now (some expires) = ltb now expires

unfoldable pub live_page : ℕ → ℕ → ListFilter → List Page → Option String
live_page now version f [] = none
live_page now version f (p ∷ ps) =
    let later = live_page now version f ps in
    if has_page_key version f p && is_live now p.expires then some p.body else later

-- GET of a page; none where the error is `redis.Nil`.
unfoldable pub get_page : ℕ → ListFilter → ℕ → Cache → Result (Option String) × Cache
get_page version f now c = (ok (live_page now version f c.pages), c)

-- SET of a page, which replaces the value; a time to live of zero is none.
abbrev pub expiry : ℕ → ℕ → Option ℕ
expiry ttl now = if ttl == 0 then none else some (now + ttl)

unfoldable pub set_page : ℕ → ℕ → ListFilter → String → ℕ → Cache → Result (Unit {0}) × Cache
set_page ttl version f body now c = (
  ok tt,
  record c {
    pages =
        record {
          version = version;
          limit = f.limit;
          offset = f.offset;
          body = body;
          expires = expiry ttl now;
        }
        ∷ select (λ p. not (has_page_key version f p)) c.pages;
  },
)

module _ (env : Env) where
  -- The entry is used if GET finds one that can be read.
  abbrev pub cached_items : Option (Option String) → Option (List Incident)
  cached_items none = none
  cached_items (some none) = none
  cached_items (some (some b)) = env.unmarshal_list b

  abbrev found_page : Result (Option String) → Result (Option (Option String))
  found_page (ok r) = ok (some r)
  found_page (err e) = ok none
  found_page (panicked p) = panicked p

  unfoldable pub try_page : ℕ → ListFilter → M (Option (Option String))
  unfolding redis redis_reply get_page
  try_page version f w = let (r, w') = redis env (get_page version f) w in (found_page r, w')

  -- `if err == nil { _ = c.bumpVersion(ctx) }`
  unfoldable pub bumped {ℓ} : {A : Type ℓ} → M A → M A
  unfolding bump_version
  bumped m = m >>= λ a. ignore_error (bump_version env) >> pure a

  module _ (ttl : ℕ) where
    unfoldable pub store : ℕ → ListFilter → Option String → M (Unit {0})
    unfolding redis redis_reply set_page
    store version f none = pure tt
    store version f (some b) = ignore_error (redis env (set_page ttl version f b))

    module _ (next : IncidentsRepository) where
      unfoldable pub list_missed : ℕ → ListFilter → Option (List Incident) → M (List Incident)
      unfolding store
      list_missed version f (some items) = pure items
      list_missed version f none =
          next.list f >>= λ items. store version f (env.marshal_list items) >> pure items

      -- The part of `List` that follows on the version.
      unfoldable pub list_at : ListFilter → ℕ → M (List Incident)
      unfolding list_missed try_page
      list_at f version = do found ← try_page version f; list_missed version f (cached_items found)

      unfoldable pub list : ListFilter → M (List Incident)
      unfolding list_at get_version
      list f = if f.active_only then (get_version env >>= list_at f) else next.list f

      abbrev pub cached_repository : IncidentsRepository
      cached_repository = record {
        create = λ c. bumped (next.create c);
        get_by_id = next.get_by_id;
        list = list;
        update = λ id u. bumped (next.update id u);
        deactivate = λ id. bumped (next.deactivate id);
        find_nearby = next.find_nearby;
        count_unique_users_since = next.count_unique_users_since;
      }
