-- ===== src/Cache/Writes.antt =====
-- What the cached repository does besides the cache, whether Redis answers or not: a write that
-- succeeds was done by the repository below it, and the rest of the world is left to that.
use geo_notifications_servic.Prelude.{◌≡◌, refl, ℕ, Option, none, some, String, List, arith}
use geo_notifications_servic.Domain.{Incident, ListFilter}
use geo_notifications_servic.World.{World, Env, Reply, fine, failed, Tables, Cache}
use geo_notifications_servic.World.Exec.{Result, ok, M}
use geo_notifications_servic.Db.Keeps.{
  Keeps, SameOutside, Keeps-pure, Keeps-bind, Keeps-if, Keeps-ignore_error,
}
use geo_notifications_servic.Ports.{IncidentsRepository}
use geo_notifications_servic.Cache.{
  bumped, bump_version, redis, redis_reply, incr_version, setnx_version, get_version_key,
  get_version, version_found, try_page, get_page, store, set_page, list_missed, list_at, list,
}

module _ {ℓ} {A : Type ℓ} (env : Env) where
  after_write :
      (r : Result A) (v w : World) (a : A)
      → (bumped env (λ u. (r, v)) w).0 ≡ ok a
      → (r ≡ ok a) × ((bumped env (λ u. (r, v)) w).1.tables ≡ v.tables)
  unfolding bumped bump_version redis redis_reply
  after_write r v w a h = ground arith

  pub bumped-ok :
      (m : M A) (w : World) (a : A)
      → (bumped env m w).0 ≡ ok a
      → ((m w).0 ≡ ok a) × ((bumped env m w).1.tables ≡ (m w).1.tables)
  unfolding bumped
  bumped-ok m w a h = after_write (m w).0 (m w).1 w a h

-- The cache stands apart from the tables and the stream.
redis_reply-keeps {ℓ} :
    {A : Type ℓ} (P : Tables → Type 0) (reply : Reply) (answer : Result A) (after : Cache)
    (w : World)
    → P w.tables
    → P (redis_reply reply answer after w).1.tables
      × SameOutside w (redis_reply reply answer after w).1
unfolding redis_reply
redis_reply-keeps P fine answer after w h = (h, (refl, refl, refl))
redis_reply-keeps P (failed reached e) answer after w h = (h, (refl, refl, refl))

module _ {P : Tables → Type 0} (env : Env) where
  Keeps-redis {ℓ} :
      {A : Type ℓ} (command : ℕ → Cache → Result A × Cache) → Keeps P (redis env command)
  unfolding redis
  Keeps-redis command = record {
    at = λ w h.
        let (answer, after) = command (env.clock w.calls) w.cache in
        redis_reply-keeps P (env.reply w.calls) answer after w h;
  }

  pub Keeps-bumped {ℓ} : {A : Type ℓ} (m : M A) → Keeps P m → Keeps P (bumped env m)
  unfolding bumped bump_version
  Keeps-bumped m k =
      Keeps-bind m _ k
        λ a. Keeps-bind _ _ (Keeps-ignore_error _ (Keeps-redis incr_version)) (λ _. Keeps-pure a)

  Keeps-get_version : Keeps P (get_version env)
  unfolding get_version version_found
  Keeps-get_version = record {
    at =
        (Keeps-bind (redis env get_version_key) (version_found env) (Keeps-redis get_version_key)
          found).at;
  }
    where
      found : (v : Option ℕ) → Keeps P (version_found env v)
      found (some v) = Keeps-pure v
      found none =
          Keeps-bind _ _ (Keeps-ignore_error _ (Keeps-redis setnx_version)) (λ _. Keeps-pure 1)

  Keeps-try_page : (version : ℕ) (f : ListFilter) → Keeps P (try_page env version f)
  unfolding try_page
  Keeps-try_page version f = record { at = (Keeps-redis (get_page version f)).at }

  module _ (ttl : ℕ) where
    Keeps-store :
        (version : ℕ) (f : ListFilter) (text : Option String)
        → Keeps P (store env ttl version f text)
    unfolding store
    Keeps-store version f none = Keeps-pure tt
    Keeps-store version f (some b) = Keeps-ignore_error _ (Keeps-redis (set_page ttl version f b))

    module _ (next : IncidentsRepository) (k : (f : ListFilter) → Keeps P (next.list f)) where
      Keeps-missed :
          (version : ℕ) (f : ListFilter) (r : Option (List Incident))
          → Keeps P (list_missed env ttl next version f r)
      unfolding list_missed
      Keeps-missed version f (some items) = Keeps-pure items
      Keeps-missed version f none = Keeps-bind _ _ (k f) λ items.
          Keeps-bind _ _ (Keeps-store version f (env.marshal_list items)) (λ _. Keeps-pure items)

      pub Keeps-list : (f : ListFilter) → Keeps P (list env ttl next f)
      unfolding list list_at
      Keeps-list f =
          Keeps-if f.active_only _ _
            (Keeps-bind _ _ Keeps-get_version λ version.
              Keeps-bind _ _ (Keeps-try_page version f) (λ found. Keeps-missed version f _))
            (k f)
