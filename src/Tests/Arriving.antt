-- ===== src/Tests/Arriving.antt =====
-- A location check whose event reaches the webhook.
use mathlib.Core.List.{Memᴰ}
use geo_notifications_servic.Prelude.{
  ◌≡◌, refl, sym, subst, ℕ, suc, ◌*◌, ◌≤◌, ◌<◌, none, some, String, List, [], ◌∷◌, ◌++◌, ◌==◌, pos,
  All, arith, length, select, trim_space, if◌then◌else◌, ==_iff,
}
use geo_notifications_servic.Domain.{CheckCompleted, NearbyIncident, validate_check, validate_point}
use geo_notifications_servic.Incidents.{find_nearby, record_check}
use geo_notifications_servic.Incidents.Rows.{
  scan_descriptions, nearest_first, has_duplicate, to_nearby,
}
use geo_notifications_servic.Outbox.{enqueue, claim_batch, mark_dispatched_batch, is_due}
use geo_notifications_servic.Queue.{enqueue_batch}
use mathlib.Core.Path.{subst₂}
use geo_notifications_servic.Relay.{batch_size}
use geo_notifications_servic.Relay.Claims.{waits}
use geo_notifications_servic.Outbox.Laws.{content}
use geo_notifications_servic.Db.{within_tx_root}
use geo_notifications_servic.World.{World, Env, CheckRow, Item, Post}
use geo_notifications_servic.World.Exec.{ok}
use geo_notifications_servic.Service.{check_and_record, completed, incident_ids}
use geo_notifications_servic.Service.Atomicity.{found}
use geo_notifications_servic.Handlers
use geo_notifications_servic.Handlers.{
  bound, to_nearby_response, location_check, LocationCheckRequest,
}
use geo_notifications_servic.Router.{
  serve, handlers, dispatch, is_protected, route, with_error, recovered,
}
use geo_notifications_servic.Router.Checks.{checked, over_database}
use geo_notifications_servic.Relay
use geo_notifications_servic.Relay.Progress.{ticks, quiet, Extended, run-relays}
use geo_notifications_servic.Relay.Rounds.{calm}
use geo_notifications_servic.Webhook
use geo_notifications_servic.Webhook.Progress.{
  turns, AreNew, IsRead, requests, numbered, run-delivers,
}
use geo_notifications_servic.System.Delivery.{relayed_world, check-delivered}
use geo_notifications_servic.Tests.Samples.{good, start, completed_event, relayed, outbox_row, spot}
use geo_notifications_servic.Tests.Serving.{gin, app}
use geo_notifications_servic.Tests.Checking.{checking, shown}

-- Only the event of the check with the id 3 has a text.
abbrev careful : Env
careful = record good { marshal_event = λ ev. if ev.check_id == 3 then some "{}" else none }

abbrev asked : LocationCheckRequest
asked = record { user_id = "ann"; location = spot; limit = pos 10 }

abbrev after : World
after =
    (serve gin (quiet careful) (over_database gin (quiet careful) 60 (app good)) checking start).1

steady : (n : ℕ) → good.clock n ≤ good.clock (suc n)
steady n = omega arith

accepts : (n : ℕ) → (200 ≤ good.http_status n) × (good.http_status n < 300)
accepts n = (omega arith, omega arith)

run-relays_example :
    Extended start (Relay.run (quiet good) (ticks 1) start).1 (content (outbox_row 2 10))
unfolding is_due
run-relays_example =
    run-relays good steady 1 start (outbox_row 2 10) (Memᴰ.tail (Memᴰ.head refl)) refl (omega arith)

run-delivers_example :
    let v = (Webhook.run (calm good) (turns 2) 0 relayed).1 in
    (v.posts ≡ relayed.posts ++ requests good accepts refl (λ it. completed_event) relayed.stream)
    × (v.acked ≡ relayed.acked ++ numbered 0 relayed.stream)
run-delivers_example =
    run-delivers good accepts refl (λ it. completed_event) 2 0 relayed (refl, tt) (tt, tt, tt)
      (omega arith)

abbrev passing : World
passing = relayed_world careful steady accepts refl (λ it. completed_event) 1 after

abbrev item : ℕ → Item
item n = record { event_type = "location_check"; payload = "{}"; outbox_id = n }

-- What the request and a round of the relay come to.
computed :
    ((serve gin
        (quiet careful)
        (over_database gin (quiet careful) 60 (app good))
        checking
        start).0.answer
      ≡ record { status = 200; body = location_check shown })
    × (length (select waits after.tables.outbox) ≤ batch_size * 1)
    × (after.stream ≡ [])
    × (passing.processed ≡ [])
    × (passing.stream ≡ item 1 ∷ item 2 ∷ item 3 ∷ [])
unfolding serve route is_protected handlers dispatch Handlers.check bound to_nearby_response
    with_error recovered check_and_record validate_check trim_space validate_point find_nearby
    scan_descriptions nearest_first within_tx_root record_check has_duplicate to_nearby enqueue
    Relay.run Relay.process claim_batch enqueue_batch mark_dispatched_batch
computed = (refl, omega arith, refl, refl, refl)

reads_back :
    (ev : CheckCompleted) (b t : String)
    → careful.marshal_event ev ≡ some b
    → careful.jsonb b ≡ some t
    → (ev' : CheckCompleted) × (careful.unmarshal_event t ≡ some ev') × (ev'.check_id ≡ ev.check_id)
reads_back ev b t h k = (completed_event, refl, sym ((==_iff ev.check_id 3).0 (ground arith)))

readable : All (IsRead careful accepts refl (λ it. completed_event)) passing.stream
readable =
    subst (All (IsRead careful accepts refl (λ it. completed_event))) (sym computed.4)
      (refl, (refl, (refl, tt)))

new : AreNew passing.processed passing.stream
new =
    subst₂ AreNew (sym computed.3) (sym computed.4)
      (tt, (refl, (refl, tt)), (tt, (refl, tt), (tt, tt, tt)))

check-delivered_example :
    (check : CheckRow) × (p : Post) × (inc : List NearbyIncident) × (now : ℕ) × (b : String)
    × (after.tables.checks ≡ start.tables.checks ++ check ∷ [])
    × (check.user_id ≡ asked.user_id)
    × ((found (quiet careful) (checked asked) start).0 ≡ ok inc)
    × (careful.marshal_event (completed (checked asked) check.id (incident_ids inc) now) ≡ some b)
    × (careful.jsonb b ≡ some p.body)
    × (p.idempotency_key ≡ check.id)
    × Memᴰ p (Webhook.run (quiet careful) (turns 3) 0 passing).1.posts
check-delivered_example =
    check-delivered careful steady accepts refl (λ it. completed_event) gin 60 (app good) checking
      start shown asked 1 3 0 reads_back refl refl refl computed.0 (omega arith) computed.1
      (omega arith) readable new (subst (λ l. length l ≤ 3) (sym computed.4) (omega arith))
