-- ===== src/Db/Status/Waiting.antt =====
-- Waiting for the database ends.
use geo_notifications_servic.Prelude.{
  refl, ◌≢◌, String, ℕ, zero, suc, ◌+◌, ◌*◌, ◌≤◌, ◌<◌, ◌≡◌, Bool, true, none, arith,
}
use geo_notifications_servic.World.{World, Env, Reply, fine, failed, Tables}
use geo_notifications_servic.World.Exec.{panicked}
use geo_notifications_servic.Db.Keeps.{Keeps, SameOutside}
use geo_notifications_servic.Incidents.Rows.{is_some}
use geo_notifications_servic.Db.Status.{
  ping, ping_reply, status_loop, status_check, millisecond, second, rounds,
}

-- From a call on, each call of the loop is at least a tenth of a second after the one before.
abbrev pub Sleeps : Env → ℕ → Type 0
Sleeps env start = (n : ℕ) → start ≤ n → env.clock n + 100 * millisecond ≤ env.clock (suc n)

module _ (env : Env) (timer_first : ℕ → Bool) (deadline : ℕ) (start : ℕ)
    (sleeps : Sleeps env start) where
  loop_returns :
      (fuel attempts : ℕ) (w : World)
      → start ≤ w.calls
      → 0 < attempts
      → deadline ≤ env.clock w.calls + fuel * (100 * millisecond)
      → is_some (status_loop env timer_first deadline (suc fuel) attempts w) ≡ true
  unfolding status_loop
  loop_returns zero attempts w from positive near = ground arith
  loop_returns (suc fuel) attempts w from positive near =
      let later = sleeps w.calls from in
      let rest = loop_returns fuel (suc attempts) (record w { calls = suc w.calls }) in
      ground (arith, later, rest (omega arith) (omega arith) (omega arith))

-- A ping returns, with or without an error.
pub ping-returns : (env : Env) (w : World) (p : String) → (ping env w).0 ≢ panicked p
unfolding ping ping_reply
ping-returns env w p h = ground arith

-- It touches neither the tables nor the stream.
pub Keeps-ping : {P : Tables → Type 0} (env : Env) → Keeps P (ping env)
unfolding ping ping_reply
Keeps-ping {P = P} env = record { at = λ w h. replied (env.reply w.calls) w h }
  where
    replied :
        (r : Reply) (w : World)
        → P w.tables
        → P (ping_reply r w).1.tables × SameOutside w (ping_reply r w).1
    replied fine w h = (h, (refl, refl, refl))
    replied (failed reached e) w h = (h, (refl, refl, refl))

-- With a deadline of its own, of a second from the start, `StatusCheck` returns, whatever the
-- database answers, after eleven pings at most, if each ping comes at least a tenth of a second after
-- the one before.
pub status_check-returns :
    (env : Env) (timer_first : ℕ → Bool) (w : World)
    → Sleeps env w.calls
    → is_some (status_check env timer_first none rounds w) ≡ true
unfolding status_check
status_check-returns env timer_first w sleeps =
    loop_returns env timer_first (env.clock w.calls + second) w.calls sleeps 10 1 w (omega arith)
      (omega arith) (omega arith)
