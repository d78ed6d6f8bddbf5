-- ===== src/System/Delivery.antt =====
-- From a location check to the webhook: the event of a check is relayed and delivered, while nothing
-- fails.
use mathlib.Core.List.{Memᴰ}
use mathlib.Core.List.Memᴰ
use geo_notifications_servic.Prelude.{
  ◌≡◌, refl, sym, ap, ◌∙◌, subst, ℕ, zero, suc, ◌*◌, ◌≤◌, ◌<◌, true, some, inl, inr, String, List,
  [], ◌∷◌, ◌++◌, length, length-map, select, drop, All, arith,
}
use geo_notifications_servic.Domain.{CheckCommand, CheckCompleted, NearbyIncident}
use geo_notifications_servic.World.{World, Env, OutboxRow, CheckRow, Item, Post, pending}
use geo_notifications_servic.Outbox.{is_due}
use geo_notifications_servic.Outbox.Laws.{content}
use geo_notifications_servic.World.Exec.{ok}
use geo_notifications_servic.Service.{completed, incident_ids}
use geo_notifications_servic.Service.Checks.{Published, Recorded}
use geo_notifications_servic.Service.Atomicity.{found}
use geo_notifications_servic.Handlers.{
  Gin, LocationCheckRequest, LocationCheckResponse, location_check,
}
use geo_notifications_servic.Router.{App, Request, post, serve}
use geo_notifications_servic.Router.Checks.{
  checked, response, over_database, check_served, check_served-later,
}
use geo_notifications_servic.Relay
use geo_notifications_servic.Relay.{batch_size}
use geo_notifications_servic.Relay.Claims.{waits, unlocked}
use geo_notifications_servic.Relay.Progress.{clock_mono, ticks, quiet, run-relays}
use geo_notifications_servic.Webhook
use geo_notifications_servic.Webhook.{request}
use geo_notifications_servic.Webhook.Progress.{AreNew, IsRead, turns, run-delivers}

-- What is added after the part that has been read is not read yet.
drop-append :
    {A : Type 0} (n : ℕ) (xs ys : List A) → n ≤ length xs → drop n (xs ++ ys) ≡ drop n xs ++ ys
drop-append zero xs ys h = refl
drop-append (suc n) [] ys h = absurd (omega arith)
drop-append (suc n) (x ∷ xs) ys h = drop-append n xs ys (omega arith)

All-Memᴰ : {A : Type 0} (P : A → Type 0) (x : A) (xs : List A) → All P xs → Memᴰ x xs → P x
All-Memᴰ P x [] h k = absurd (Memᴰ.not-nil k)
All-Memᴰ P x (y ∷ ys) (p, h) k = elim (Memᴰ.cases_cons k) [
  | inl same ↦ subst P (sym same) p
  | inr later ↦ All-Memᴰ P x ys h later
]

due-pending :
    (r : OutboxRow) (at now : ℕ)
    → r.status ≡ pending
    → r.next_attempt_at ≡ at
    → at ≤ now
    → is_due unlocked now r ≡ true
unfolding is_due
due-pending r at now h k l = rw (h, k) (ground arith)

module _ (env : Env) (steady : (n : ℕ) → env.clock n ≤ env.clock (suc n))
    (accepts : (n : ℕ) → (200 ≤ env.http_status n) × (env.http_status n < 300))
    (valid : env.is_valid_target ≡ true) (event_of : Item → CheckCompleted) where
  abbrev pub relayed_world : ℕ → World → World
  relayed_world k w = (Relay.run (quiet env) (ticks k) w).1

  -- If no call fails, the clock does not go back, no other transaction holds a row, the target's
  -- URL is accepted and the target answers with a status of 200 to 299: an event that waits in the
  -- outbox, and is due, reaches the webhook, with the check id that its payload holds, once the
  -- relay has made as many rounds as there are hundreds of events that wait, and then the worker as
  -- many as there are entries that it has not read; given that it has read no more entries than
  -- there are, that the payloads of the others can be read, that no two of them have the same
  -- outbox id, and that none has its key set.
  pub run-delivered :
      (k m n : ℕ) (w : World) (r : OutboxRow)
      → Memᴰ r w.tables.outbox
      → is_due unlocked (env.clock w.calls) r ≡ true
      → length (select waits w.tables.outbox) ≤ batch_size * k
      → n ≤ length w.stream
      → let v = relayed_world k w in
        let unread = drop n v.stream in
        All (IsRead env accepts valid event_of) unread
        → AreNew v.processed unread
        → length unread ≤ m
        → (ev : CheckCompleted) × (env.unmarshal_event r.payload ≡ some ev)
          × Memᴰ (request r.payload ev) (Webhook.run (quiet env) (turns m) n v).1.posts
  run-delivered k m n w r here due few from read new enough =
      let v = relayed_world k w in
      let (more, stream, among) = run-relays env steady k w r here due few in
      let later : Memᴰ (content r) (drop n v.stream) =
        subst (λ s. Memᴰ (content r) s)
          (sym (ap (drop n) stream ∙ drop-append n w.stream more from))
          (Memᴰ.append_right (drop n w.stream) among) in
      let alone = record env { locked = λ n id. unlocked id } in
      let (posts, _) = run-delivers alone accepts valid event_of m n v read new enough in
      (
        event_of (content r),
        All-Memᴰ (IsRead env accepts valid event_of) (content r) (drop n v.stream) read later,
        subst (λ l. Memᴰ (request r.payload (event_of (content r))) l) (sym posts)
            (Memᴰ.append_right v.posts (Memᴰ.map (λ it. request it.payload (event_of it)) later)),
      )

  -- The event of a check.
  event-delivered :
      (k m n : ℕ) (w : World) (cmd : CheckCommand) (id : ℕ) (ids : List ℕ) (at : ℕ)
      (before : List OutboxRow)
      → ((ev : CheckCompleted) (b t : String)
          → env.marshal_event ev ≡ some b
          → env.jsonb b ≡ some t
          → (ev' : CheckCompleted) × (env.unmarshal_event t ≡ some ev')
            × (ev'.check_id ≡ ev.check_id))
      → 0 < length ids
      → Published (quiet env) cmd id ids at before w.tables.outbox
      → at ≤ env.clock w.calls
      → length (select waits w.tables.outbox) ≤ batch_size * k
      → n ≤ length w.stream
      → let v = relayed_world k w in
        let unread = drop n v.stream in
        All (IsRead env accepts valid event_of) unread
        → AreNew v.processed unread
        → length unread ≤ m
        → (p : Post) × (now : ℕ) × (b : String) × (env.marshal_event (completed cmd id ids now)
            ≡ some b)
          × (env.jsonb b ≡ some p.body)
          × (p.idempotency_key ≡ id)
          × Memᴰ p (Webhook.run (quiet env) (turns m) n v).1.posts
  event-delivered k m n w cmd id [] at before back some_found h order few from read new enough =
      absurd (omega arith)
  event-delivered k m n w cmd id (i ∷ is) at before back some_found published order few from read
        new enough =
      let (row, after, is_pending, _, time, _, (now, b, marshalled, cast)) = published in
      let here : Memᴰ row w.tables.outbox =
        subst (λ rows. Memᴰ row rows) (sym after) (Memᴰ.append_right before (Memᴰ.head refl)) in
      let due = due-pending row at (env.clock w.calls) is_pending time order in
      let (ev, got, sent) = run-delivered k m n w row here due few from read new enough in
      let (ev', got', same) = back (completed cmd id (i ∷ is) now) b row.payload marshalled cast in
      let one : ev ≡ ev' = cc in
      (request row.payload ev, now, b, marshalled, cast, ap (λ e. e.check_id) one ∙ same, sent)

  served-Recorded :
      (gin : Gin) (ttl : ℕ) (app : App) (req : Request) (w : World) (shown : LocationCheckResponse)
      (asked : LocationCheckRequest)
      → req.method ≡ post
      → req.path ≡ "location" ∷ "check" ∷ []
      → gin.bind_check req.body ≡ inr asked
      → let (result, w') = serve gin (quiet env) (over_database gin (quiet env) ttl app) req w in
        result.answer ≡ record { status = 200; body = location_check shown }
        → (inc : List NearbyIncident) × ((found (quiet env) (checked asked) w).0 ≡ ok inc)
          × (shown ≡ response inc (length inc))
          × Recorded
              (quiet env)
              (checked asked)
              (incident_ids inc)
              (env.clock (found (quiet env) (checked asked) w).1.calls)
              w.tables
              w'.tables
  served-Recorded gin ttl app req w shown asked method path read h =
      let (asked', inc, read', _, found_, seen, recorded) =
        check_served gin (quiet env) ttl app req w shown method path h in
      let same : asked' ≡ asked = cc in
      let w' = (serve gin (quiet env) (over_database gin (quiet env) ttl app) req w).1 in
      (
        inc,
        subst (λ a. (found (quiet env) (checked a) w).0 ≡ ok inc) same found_,
        seen,
        subst
            (λ a.
              Recorded (quiet env) (checked a) (incident_ids inc)
                (env.clock (found (quiet env) (checked a) w).1.calls) w.tables w'.tables)
            same recorded,
      )

  -- If POST /location/check is answered with status 200 and an incident, no call fails, the clock
  -- does not go back, no other transaction holds a row, the target's URL is accepted and the target
  -- answers with a status of 200 to 299, and what encoding/json and jsonb make of an event is read
  -- back with its check id: after as many rounds of the relay as there are hundreds of events that
  -- wait, and of the worker as there are entries that it has not read, the webhook has got a
  -- request whose key is the id of the check that has been added, and whose body is the event of
  -- the check with the incidents that were found; given that the worker has read no more entries
  -- than there are and, of those that it has not read, that their payloads can be read, that no two
  -- of them have the same outbox id, and that none has its key set.
  pub check-delivered :
      (gin : Gin) (ttl : ℕ) (app : App) (req : Request) (w : World) (shown : LocationCheckResponse)
      (asked : LocationCheckRequest) (k m n : ℕ)
      → ((ev : CheckCompleted) (b t : String)
          → env.marshal_event ev ≡ some b
          → env.jsonb b ≡ some t
          → (ev' : CheckCompleted) × (env.unmarshal_event t ≡ some ev')
            × (ev'.check_id ≡ ev.check_id))
      → req.method ≡ post
      → req.path ≡ "location" ∷ "check" ∷ []
      → gin.bind_check req.body ≡ inr asked
      → let (result, w') = serve gin (quiet env) (over_database gin (quiet env) ttl app) req w in
        let v = relayed_world k w' in
        let unread = drop n v.stream in
        result.answer ≡ record { status = 200; body = location_check shown }
        → 0 < shown.count
        → length (select waits w'.tables.outbox) ≤ batch_size * k
        → n ≤ length w'.stream
        → All (IsRead env accepts valid event_of) unread
        → AreNew v.processed unread
        → length unread ≤ m
        → (check : CheckRow) × (p : Post) × (inc : List NearbyIncident) × (now : ℕ) × (b : String)
          × (w'.tables.checks ≡ w.tables.checks ++ check ∷ [])
          × (check.user_id ≡ asked.user_id)
          × ((found (quiet env) (checked asked) w).0 ≡ ok inc)
          × (env.marshal_event (completed (checked asked) check.id (incident_ids inc) now) ≡ some b)
          × (env.jsonb b ≡ some p.body)
          × (p.idempotency_key ≡ check.id)
          × Memᴰ p (Webhook.run (quiet env) (turns m) n v).1.posts
  check-delivered gin ttl app req w shown asked k m n reads_back method path read h some_found few
        from readable new enough =
      let (inc, found_, seen, recorded) =
        served-Recorded gin ttl app req w shown asked method path read h in
      let w' = (serve gin (quiet env) (over_database gin (quiet env) ttl app) req w).1 in
      let count : length (incident_ids inc) ≡ shown.count =
        length-map (λ it. it.incident_id) inc ∙ sym (ap (λ r. r.count) seen) in
      let searched = (found (quiet env) (checked asked) w).1.calls in
      let order =
        clock_mono env steady searched w'.calls
          (check_served-later gin (quiet env) ttl app req w shown asked method path read h) in
      let (p, now, b, marshalled, cast, key, sent) =
        event-delivered k m n w' (checked asked) recorded.check.id (incident_ids inc)
          (env.clock searched) w.tables.outbox reads_back
          (subst (λ c. 0 < c) (sym count) some_found) recorded.outbox order few from readable new
          enough in
      (
        recorded.check, p, inc, now, b, recorded.checks, recorded.user, found_, marshalled, cast,
        key, sent,
      )
