-- ===== src/Db/Status/Pools.antt =====
-- What `Open` leaves open.
use geo_notifications_servic.Prelude.{
  ◌≡◌, refl, ◌⊎◌, inl, inr, Option, none, some, String, List, [], ◌∷◌, str_eq, Bool-cases,
}
use geo_notifications_servic.Errs.{GoError}
use geo_notifications_servic.World.{World, Env, Reply, fine, failed}
use geo_notifications_servic.World.Exec.{Result, ok, err}
use geo_notifications_servic.Db.Status.{
  Config, Pool, HandleEvent, handle_opened, handle_closed, pinged, connected, open_pool,
}

-- The handle is open if and only if it is returned.
abbrev pub Opens : List HandleEvent → Result Pool → Type 0
Opens events r =
    ((pool : Pool) × (r ≡ ok pool) × (events ≡ handle_opened ∷ []))
    ⊎ ((e : GoError) × (r ≡ err e)
        × ((events ≡ []) ⊎ (events ≡ handle_opened ∷ handle_closed ∷ [])))

module _ (env : Env) where
  pinged-Opens : (pool : Pool) (r : Reply) → let (events, r) = pinged pool r in Opens events r
  unfolding pinged
  pinged-Opens pool fine = inl (pool, refl, refl)
  pinged-Opens pool (failed k e) = inr (_, refl, inr refl)

  connected-Opens :
      (pool : Pool) (e : Option GoError) (w : World)
      → let (events, (r, w')) = connected env pool e w in Opens events r
  unfolding connected
  connected-Opens pool (some e) w = inr (_, refl, inl refl)
  connected-Opens pool none w = pinged-Opens pool (env.reply w.calls)

  pub open_pool-Opens :
      (sqlx_open : String → Option GoError) (cfg : Config) (w : World)
      → let (events, (r, w')) = open_pool env sqlx_open cfg w in Opens events r
  unfolding open_pool
  open_pool-Opens sqlx_open cfg w = elim (Bool-cases (str_eq cfg.url "")) [
    | inl empty ↦ rw empty (inr (_, refl, inl refl))
    | inr url ↦ rw url (connected-Opens _ (sqlx_open cfg.url) w)
  ]
