-- ===== src/Server.antt =====
-- internal/http/server.go and config.go: the settings with which the server of net/http is made. What
-- that does with them, also on Start, Shutdown and Close, is not the program's own.
use geo_notifications_servic.Prelude.{ℕ, ◌*◌, String}

-- `http.Server`, with durations in nanoseconds.
pub record Server : Type 0 where
  pub addr : String
  pub read_timeout : ℕ
  pub write_timeout : ℕ
  pub idle_timeout : ℕ
  pub read_header_timeout : ℕ

abbrev pub second : ℕ
second = 1000000000

abbrev pub new_server : (addr : String) → Server
new_server addr = record {
  addr = addr;
  read_timeout = 10 * second;
  write_timeout = 10 * second;
  idle_timeout = 60 * second;
  read_header_timeout = 15 * second;
}
