-- ===== src/System.antt =====
-- The program as a whole, as cmd/api/main.go builds it: the handlers of the requests, any number of
-- relays (main runs one; other instances of the program run theirs on the same database), and the
-- webhook worker, whose steps interleave in any order. A step of a relay ends where a transaction or
-- the pipeline ends; a request and the handling of a message are one step each.
pub mod Growth
pub mod Requests
pub mod Effects
pub mod Invariant
pub mod Soundness
pub mod Runs
pub mod Delivery
use geo_notifications_servic.Prelude.{
  ℕ, zero, suc, ◌*◌, Bool, true, false, Option, none, some, String, List, [], ◌∷◌, map, ℤ, pos,
  negsuc, ◌+◌, ◌==◌, if◌then◌else◌,
}
use geo_notifications_servic.Errs.{GoError}
use geo_notifications_servic.World.{World, Env, Item}
use geo_notifications_servic.World.Exec.{Result, ok, err, panicked, error_of}
use geo_notifications_servic.Db.{within_tx_root}
use geo_notifications_servic.TxRunner.{base_repository, tx_runner}
use geo_notifications_servic.Cache.{cached_repository}
use geo_notifications_servic.Outbox.{Event}
use geo_notifications_servic.Queue.{enqueue_batch}
use geo_notifications_servic.Relay
use geo_notifications_servic.Relay.{to_item, mark}
use geo_notifications_servic.Webhook.{iteration}
use geo_notifications_servic.Logger.{parse_log_level}
use geo_notifications_servic.Handlers.{Gin}
use geo_notifications_servic.Config.{Config}
use geo_notifications_servic.Health.{redis_ping, postgres_ping}
use geo_notifications_servic.Router.{App, Request, serve}

-- `time.Duration(n) * time.Minute`; it is taken to fit.
abbrev minutes : ℤ → ℤ
minutes (pos n) = pos (n * 60000000000)
minutes (negsuc n) = negsuc (n * 60000000000 + 59999999999)

-- The router that `main` builds, with the dependencies that it pings. A timer of the pings may be
-- seen before their deadline or after.
unfoldable pub main_app : Env → (ℕ → Bool) → Config → (ℕ → Option String) → App
main_app env timer_first cfg random_id = record {
  repo =
      cached_repository env (cfg.active_incidents_ttl_seconds * 1000000000) (base_repository env);
  tx = tx_runner env;
  deps =
      record { name = "postgres"; ping = postgres_ping env timer_first }
      ∷ record { name = "redis_queue"; ping = redis_ping env }
      ∷ record { name = "redis_cache"; ping = redis_ping env }
      ∷ [];
  stats_window = minutes cfg.time_window_minutes;
  api_key = cfg.api_key;
  min_level = parse_log_level cfg.log_level;
  random_id = random_id;
}

-- Where a relay is in `process`: before it, after its first transaction, or after its push.
pub data Phase : Type 0 where
  idle : Phase
  claimed : List Event → Phase
  pushed : List Event → Option GoError → Phase

-- The relays by their number, and how many entries of the stream the consumer group has read.
pub record State : Type 0 where
  pub world : World
  pub relays : ℕ → Phase
  pub read : ℕ

pub data Action : Type 0 where
  request : Request → Action
  claim push finish stop : ℕ → Action
  deliver : Action

abbrev pub put : ℕ → Phase → (ℕ → Phase) → ℕ → Phase
put n p relays m = if m == n then p else relays m

-- `if err != nil || len(events) == 0 { return err }`
abbrev pub after_claim : Result (List Event) → Phase
after_claim (ok []) = idle
after_claim (ok (ev ∷ evs)) = claimed (ev ∷ evs)
after_claim (err e) = idle
after_claim (panicked p) = idle

abbrev pub after_push : List Event → Result (Option GoError) → Phase
after_push events (ok e) = pushed events e
after_push events (err e) = idle
after_push events (panicked p) = idle

module _ (env : Env) where
  unfoldable pub claim_step : ℕ → Phase → State → State
  claim_step n idle s =
      let (r, w) = Relay.claim env s.world in
      record s { world = w; relays = put n (after_claim r) s.relays }
  claim_step n (claimed events) s = s
  claim_step n (pushed events e) s = s

  unfoldable pub push_step : ℕ → Phase → State → State
  push_step n idle s = s
  push_step n (claimed events) s =
      let (r, w) = error_of (enqueue_batch env (map to_item events)) s.world in
      record s { world = w; relays = put n (after_push events r) s.relays }
  push_step n (pushed events e) s = s

  unfoldable pub finish_step : ℕ → Phase → State → State
  finish_step n idle s = s
  finish_step n (claimed events) s = s
  finish_step n (pushed events e) s = record s {
    world = (within_tx_root env (mark env events e) s.world).1;
    relays = put n idle s.relays;
  }

  -- A relay may stop at any point, and start anew.
  unfoldable pub act : Gin → App → Action → State → State
  unfolding claim_step push_step finish_step
  act gin app (request req) s = record s { world = (serve gin env app req s.world).1 }
  act gin app (claim n) s = claim_step n (s.relays n) s
  act gin app (push n) s = push_step n (s.relays n) s
  act gin app (finish n) s = finish_step n (s.relays n) s
  act gin app (stop n) s = record s { relays = put n idle s.relays }
  act gin app deliver s =
      let (w, n) = iteration env s.read s.world in record s { world = w; read = n }

  unfoldable pub run : Gin → App → List Action → State → State
  unfolding act
  run gin app [] s = s
  run gin app (a ∷ actions) s = run gin app actions (act gin app a s)
