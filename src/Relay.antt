-- ===== src/Relay.antt =====
-- internal/workers/outboxrelay/outboxrelay.go: events are claimed in one transaction, pushed to the
-- Redis stream, and marked in a second transaction. Logging is left out.
pub mod Backoff
pub mod Stages
pub mod Rounds
pub mod Least
pub mod Failure
pub mod Trace
pub mod Claims
pub mod Progress
use geo_notifications_servic.Prelude.{
  ℕ, ◌+◌, Option, none, some, List, [], ◌∷◌, map, leb, ltb, if◌then◌else◌, min,
}
use geo_notifications_servic.Errs.{GoError, error_text, plain}
use geo_notifications_servic.World.{World, Env, Item}
use geo_notifications_servic.World.Exec.{M, ok, pure, ignore_error, error_of, ◌>>=◌, ◌>>◌}
use geo_notifications_servic.Db.{Scope, within_tx_root}
use geo_notifications_servic.Outbox.{
  Event, claim_batch, mark_dispatched_batch, mark_retry_batch, mark_dead,
}
use geo_notifications_servic.Queue.{enqueue_batch}
use Backoff.{backoff}

-- The settings that `New` gives a relay.
abbrev pub batch_size : ℕ
batch_size = 100

abbrev pub max_attempts : ℕ
max_attempts = 10

abbrev pub to_item : Event → Item
to_item ev = record { event_type = ev.event_type; payload = ev.payload_json; outbox_id = ev.id }

abbrev pub event_ids : List Event → List ℕ
event_ids = map (λ ev. ev.id)

smallest : ℕ → List Event → ℕ
smallest least [] = least
smallest least (e ∷ es) = smallest (if ltb e.attempts least then e.attempts else least) es

unfoldable pub min_attempts : List Event → ℕ
unfolding smallest
min_attempts [] = 1
min_attempts (e ∷ es) = let least = smallest e.attempts (e ∷ es) in if ltb least 1 then 1 else least

-- The loop over the events of a batch that could not be pushed: those that have used up their
-- attempts are marked dead, errors of that ignored; the ids of the others are collected.
unfoldable pub bury : Env → Scope → GoError → List Event → M (List ℕ)
bury env scope push_err [] = pure []
bury env scope push_err (ev ∷ evs) =
    let rest = bury env scope push_err evs in
    if leb max_attempts ev.attempts
    then (ignore_error (mark_dead env scope ev.id (error_text push_err)) >> rest)
    else (rest >>= λ ids. pure (ev.id ∷ ids))

unfoldable pub mark_failed : Env → List Event → GoError → Scope → M (Unit {0})
unfolding bury
mark_failed env events push_err scope = do
  retry_ids ← bury env scope push_err events
  now ← λ w. (ok (env.clock w.calls), w)
  mark_retry_batch env scope retry_ids (now + backoff (min_attempts events)) (error_text push_err)

-- The second transaction.
unfoldable pub mark : Env → List Event → Option GoError → Scope → M (Unit {0})
unfolding mark_failed
mark env events none scope = mark_dispatched_batch env scope (event_ids events)
mark env events (some push_err) scope = mark_failed env events push_err scope

unfoldable pub relay_events : Env → List Event → M (Unit {0})
unfolding mark
relay_events env [] = pure tt
relay_events env (ev ∷ evs) = do
  push_err ← error_of (enqueue_batch env (map to_item (ev ∷ evs)))
  within_tx_root env (mark env (ev ∷ evs) push_err)

unfoldable pub claim : Env → M (List Event)
claim env = within_tx_root env (λ scope. claim_batch env scope batch_size)

unfoldable pub process : Env → M (Unit {0})
unfolding relay_events claim
process env = do events ← claim env; relay_events env events

-- What wakes `Run`: the ticker, or the end of the context.
pub data Signal : Type 0 where
  tick done : Signal

-- `Run`: an error of a round is logged only; none where it goes on.
unfoldable pub run : Env → List Signal → World → Option GoError × World
run env [] w = (none, w)
run env (done ∷ signals) w = (some (plain "context canceled"), w)
run env (tick ∷ signals) w = run env signals (process env w).1
