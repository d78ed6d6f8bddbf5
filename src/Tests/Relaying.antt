-- ===== src/Tests/Relaying.antt =====
-- Rounds of the relay over an outbox of three rows.
use mathlib.Core.List.{Permᴰ}
use geo_notifications_servic.Prelude.{
  ℕ, ◌*◌, ◌+◌, ◌≡◌, ◌≤◌, ◌<◌, refl, none, some, List, [], ◌∷◌, ◌++◌, map, elem, select, arith,
  if◌then◌else◌,
}
use geo_notifications_servic.Errs.{error_text}
use geo_notifications_servic.World.{Item, pending, dispatched, dead}
use geo_notifications_servic.World.Exec.{ok}
use geo_notifications_servic.Db.{within_tx_root}
use geo_notifications_servic.Outbox.{Event, to_event}
use geo_notifications_servic.Outbox.Laws.{content}
use geo_notifications_servic.Relay.{process, mark}
use geo_notifications_servic.Relay.Backoff.{
  second, backoff, exponential, backoff_bounds, backoff-eq-exponential,
}
use geo_notifications_servic.Relay.Trace.{IsTraced, process-HasContents}
use geo_notifications_servic.Relay.Rounds.{calm, chosen, mark_time, process-calm}
use geo_notifications_servic.Relay.Least.{IsLeast}
use geo_notifications_servic.Relay.Failure.{spent_ids, unspent_ids, mark_failed-calm}
use geo_notifications_servic.Tests.Samples.{good, failing, relayed, outbox_row, broken}

pub traced : IsTraced relayed.stream relayed.tables
traced = (λ d. refl, (λ d. absurd (cc), (λ d. absurd (cc), tt)))

process-HasContents_example :
    map content (process (failing 3) relayed).1.tables.outbox ≡ map content relayed.tables.outbox
process-HasContents_example = process-HasContents (failing 3) relayed

process-calm_example :
    ((process (calm good) relayed).0 ≡ ok tt)
    × ((process (calm good) relayed).1.tables.outbox
        ≡ map
            (λ r.
              if elem r.id (chosen good relayed)
              then record r {
                status = dispatched;
                attempts = r.attempts + 1;
                processing_until = none;
                updated_at = mark_time good relayed;
              }
              else r)
            relayed.tables.outbox)
    × ((added : List Item) × ((process (calm good) relayed).1.stream ≡ relayed.stream ++ added)
        × Permᴰ added (
            map
              (λ r. record { event_type = r.event_type; payload = r.payload; outbox_id = r.id })
              (select (λ r. elem r.id (chosen good relayed)) relayed.tables.outbox)))
process-calm_example = process-calm good relayed

abbrev batch : List Event
batch = to_event (outbox_row 1 1) ∷ to_event (outbox_row 2 10) ∷ []

mark_failed-calm_example :
    let r = within_tx_root (calm good) (mark (calm good) batch (some broken)) relayed in
    (r.0 ≡ ok tt)
    × ((least : ℕ) × (call : ℕ) × IsLeast least batch
        × (relayed.calls < call)
        × (r.1.tables.outbox
            ≡ map
                (λ r.
                  if elem r.id (unspent_ids batch)
                  then record r {
                    status = pending;
                    processing_until = none;
                    next_attempt_at = good.clock call + backoff least;
                    last_error = some (error_text broken);
                    updated_at = good.clock relayed.calls;
                  }
                  else if elem r.id (spent_ids batch)
                  then record r {
                    status = dead;
                    last_error = some (error_text broken);
                    updated_at = good.clock relayed.calls;
                  }
                  else r)
                relayed.tables.outbox))
mark_failed-calm_example = mark_failed-calm good broken batch relayed

backoff_bounds_example : (2 * second ≤ backoff 40) × (backoff 40 ≤ 300 * second)
backoff_bounds_example = backoff_bounds 40

backoff-eq-exponential_example : backoff 5 ≡ exponential 5
backoff-eq-exponential_example = backoff-eq-exponential 5 (omega arith)
