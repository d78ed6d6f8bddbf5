-- ===== src/Health.antt =====
-- internal/platform/db/health/health.go and internal/platform/redis/health/health.go: the pings of
-- the health check.
pub mod Keeps
use geo_notifications_servic.Prelude.{ℕ, Bool, Option, none, some}
use geo_notifications_servic.World.{World, Env}
use geo_notifications_servic.World.Exec.{Result, panicked, M}
use geo_notifications_servic.Db.Status.{ping, status_check, rounds}

-- RedisPinger.Ping
unfoldable pub redis_ping : Env → M (Unit {0})
redis_ping env = ping env

-- The last clause is not reached while a clock goes on; see Db/Status/Waiting.
abbrev pub finished : World → Option (Result (Unit {0}) × World) → Result (Unit {0}) × World
finished w (some r) = r
finished w none = (panicked "out of fuel", w)

-- PostgresPinger.Ping, in a context that has no deadline.
unfoldable pub postgres_ping : Env → (ℕ → Bool) → M (Unit {0})
postgres_ping env timer_first w = finished w (status_check env timer_first none rounds w)
