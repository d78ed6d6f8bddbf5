-- ===== src/Db/Status.antt =====
-- internal/platform/db/sqldb.go: a pool is opened, and waited for. The loop of `StatusCheck` runs on
-- fuel, with none where that does not suffice.
pub mod Waiting
pub mod Keeps
pub mod Pools
use geo_notifications_servic.Prelude.{
  ℕ, zero, suc, ◌+◌, ◌*◌, Bool, true, false, ◌||◌, ◌&&◌, Option, none, some, String, List, [], ◌∷◌,
  ℤ, pos, leb_ℤ, ltb_ℤ, ltb, ◌==◌, pos_part, str_eq, if◌then◌else◌,
}
use geo_notifications_servic.Errs.{GoError, plain, prefixed}
use geo_notifications_servic.World.{World, Env, Reply, fine, failed}
use geo_notifications_servic.World.Exec.{Result, ok, err, M, pure, raise, map_error, ◌>>=◌, ◌>>◌}

-- `Config`, with durations in nanoseconds.
pub record Config : Type 0 where
  pub url : String
  pub max_idle_conns : ℤ
  pub max_open_conns : ℤ
  pub conn_max_lifetime : ℤ
  pub conn_max_idle_time : ℤ
  pub ping_timeout : ℤ

abbrev pub millisecond : ℕ
millisecond = 1000000

abbrev pub second : ℕ
second = 1000000000

-- `if cfg.PingTimeout <= 0 { … }`
abbrev pub or_default : ℤ → ℕ → ℤ
or_default d default = if leb_ℤ d (pos 0) then pos default else d

unfoldable pub with_defaults : Config → Config
with_defaults cfg = record cfg {
  ping_timeout = or_default cfg.ping_timeout (5 * second);
  conn_max_lifetime = or_default cfg.conn_max_lifetime (3600 * second);
}

-- The settings of a pool; none for one that is left as it is.
pub record Pool : Type 0 where
  pub max_idle_conns : ℤ
  pub max_open_conns : ℤ
  pub conn_max_lifetime : ℤ
  pub conn_max_idle_time : Option ℤ

-- A call of the database or of Redis that returns nothing; a failure of it changes nothing.
ping_reply : Reply → M (Unit {0})
ping_reply fine w = (ok tt, record w { calls = suc w.calls })
ping_reply (failed reached e) w = (err e, record w { calls = suc w.calls })

unfoldable pub ping : Env → M (Unit {0})
unfolding ping_reply
ping env w = ping_reply (env.reply w.calls) w

-- What `Open` does with the handle that `sqlx.Open` gives.
pub data HandleEvent : Type 0 where
  handle_opened handle_closed : HandleEvent

-- `Open` from the ping on: if it fails, the handle is closed.
pinged : Pool → Reply → List HandleEvent × Result Pool
pinged pool fine = (handle_opened ∷ [], ok pool)
pinged pool (failed reached e) = (handle_opened ∷ handle_closed ∷ [], err (prefixed "db ping" e))

-- From `sqlx.Open` on, given its error.
connected : Env → Pool → Option GoError → World → List HandleEvent × (Result Pool × World)
unfolding pinged
connected env pool (some e) w = ([], (err (prefixed "db open" e), w))
connected env pool none w =
    let (events, r) = pinged pool (env.reply w.calls) in
    (events, (r, record w { calls = suc w.calls }))

-- `Open`, with what `sqlx.Open` says of the URL.
unfoldable pub open_pool :
    Env → (String → Option GoError) → Config → World → List HandleEvent × (Result Pool × World)
unfolding with_defaults connected
open_pool env sqlx_open cfg w =
    let cfg' = with_defaults cfg in
    let pool : Pool = record {
      max_idle_conns = cfg'.max_idle_conns;
      max_open_conns = cfg'.max_open_conns;
      conn_max_lifetime = cfg'.conn_max_lifetime;
      conn_max_idle_time =
          if ltb_ℤ (pos 0) cfg'.conn_max_idle_time then some cfg'.conn_max_idle_time else none;
    } in
    if str_eq cfg.url ""
    then ([], (err (plain "db url is required"), w))
    else connected env pool (sqlx_open cfg'.url) w

abbrev pub deadline_exceeded : GoError
deadline_exceeded = plain "context deadline exceeded"

-- SELECT TRUE
status_query : Env → M (Unit {0})
status_query env = map_error (prefixed "db status query") (ping env)

-- The timer of a sleep that ends with the deadline may be seen first, or the deadline.
abbrev pub slept : Bool → ℕ → ℕ → Bool
slept timer_first wakes deadline = ltb wakes deadline || (wakes == deadline && timer_first)

module _ (env : Env) (timer_first : ℕ → Bool) (deadline : ℕ) where
  -- The loop, from an attempt on. A ping that fails returns at the clock of its call.
  unfoldable pub status_loop : ℕ → ℕ → World → Option (Result (Unit {0}) × World)
  unfolding status_query ping ping_reply
  status_loop zero attempts w = none
  status_loop (suc fuel) attempts w =
      let w' : World = record w { calls = suc w.calls } in
      let again = status_loop fuel (suc attempts) w' in
      let wakes = env.clock w.calls + attempts * (100 * millisecond) in
      let failed_case =
        if slept (timer_first w.calls) wakes deadline
        then again
        else some (err deadline_exceeded, w') in
      elim (env.reply w.calls) [
        | fine ↦ some (status_query env w')
        | failed reached e ↦ failed_case
      ]

-- The fuel that is enough for a deadline of a second; see Db/Status/Waiting.
abbrev pub rounds : ℕ
rounds = 11

abbrev deadline_or : Option ℕ → ℕ → ℕ
deadline_or none now = now + second
deadline_or (some d) now = d

-- `StatusCheck`, for a context with or without a deadline.
unfoldable pub status_check :
    Env → (ℕ → Bool) → Option ℕ → ℕ → World → Option (Result (Unit {0}) × World)
unfolding status_loop
status_check env timer_first deadline fuel w =
    status_loop env timer_first (deadline_or deadline (env.clock w.calls)) fuel 1 w
