-- ===== src/Db/Status/Keeps.antt =====
-- Waiting for the database touches neither the tables nor the stream.
use geo_notifications_servic.Prelude.{
  refl, ℕ, zero, suc, ◌*◌, ◌+◌, Bool, true, false, Option, none, some, if◌then◌else◌,
}
use geo_notifications_servic.World.{World, Env, fine, failed, Tables}
use geo_notifications_servic.World.Exec.{Result, err}
use geo_notifications_servic.Db.Keeps.{SameOutside}
use geo_notifications_servic.Db.Status.{
  status_query, status_loop, status_check, slept, deadline_exceeded, millisecond, deadline_or,
}
use geo_notifications_servic.Db.Status.Waiting.{Keeps-ping}

abbrev pub Kept : (Tables → Type 0) → World → Option (Result (Unit {0}) × World) → Type 0
Kept P w none = Unit
Kept P w (some (r, v)) = P v.tables × SameOutside w v

module _ (P : Tables → Type 0) (env : Env) (timer_first : ℕ → Bool) (deadline : ℕ) where
  Kept-if :
      (b : Bool) (w : World) (again now : Option (Result (Unit {0}) × World))
      → Kept P w again
      → Kept P w now
      → Kept P w (if b then again else now)
  Kept-if true w again now h k = h
  Kept-if false w again now h k = k

  Kept-status_loop :
      (fuel attempts : ℕ) (w : World)
      → P w.tables
      → Kept P w (status_loop env timer_first deadline fuel attempts w)
  unfolding status_loop
  Kept-status_loop zero attempts w h = tt
  Kept-status_loop (suc fuel) attempts w h =
      let w' : World = record w { calls = suc w.calls } in
      let again = status_loop env timer_first deadline fuel (suc attempts) w' in
      let wakes = env.clock w.calls + attempts * (100 * millisecond) in
      let waits = slept (timer_first w.calls) wakes deadline in
      elim (env.reply w.calls)
        as (λ r. Kept P w (elim r [
          | fine ↦ some (status_query env w')
          | failed reached e ↦ if waits then again else some (err deadline_exceeded, w')
        ])) [
          | fine ↦ (Keeps-ping {P = P} env).at w' h
          | failed reached e ↦
              Kept-if waits w again (some (err deadline_exceeded, w'))
                (Kept-status_loop fuel (suc attempts) w' h) (h, (refl, refl, refl))
        ]

pub Kept-status_check :
    (P : Tables → Type 0) (env : Env) (timer_first : ℕ → Bool) (deadline : Option ℕ) (fuel : ℕ)
    (w : World)
    → P w.tables
    → Kept P w (status_check env timer_first deadline fuel w)
unfolding status_check
Kept-status_check P env timer_first deadline fuel w h =
    Kept-status_loop P env timer_first (deadline_or deadline (env.clock w.calls)) fuel 1 w h
