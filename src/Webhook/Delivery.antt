-- ===== src/Webhook/Delivery.antt =====
-- How often a webhook is sent.
use geo_notifications_servic.Prelude.{
  ℕ, suc, ◌+◌, ◌≤◌, ◌<◌, ◌≡◌, ◌⊎◌, inl, inr, true, false, none, some, String, List, ◌∷◌, ◌++◌,
  arith, refl, ℤ, ==ℤ_refl, Option-cases,
}
use geo_notifications_servic.Errs.{GoError}
use geo_notifications_servic.Domain.{CheckCompleted}
use geo_notifications_servic.World.{World, Env, Reply, fine, failed}
use geo_notifications_servic.World.Exec.{ok, err}
use geo_notifications_servic.Webhook.{
  Values, request, handle, has_key, dedupe_ttl, carried_out, copies,
}

-- The values of an entry with both fields, its id a number.
abbrev pub message : String → ℤ → Values
message body id = record { body = some body; outbox_id = some (some id) }

pub Reply-cases : (r : Reply) → (r ≡ fine) ⊎ ((k : ℕ) × (e : GoError) × (r ≡ failed k e))
Reply-cases fine = inl refl
Reply-cases (failed k e) = inr (k, e, refl)

module _ (env : Env) (body : String) (id : ℤ) (w : World) where
  -- A message whose key is set is acknowledged, and nothing is sent.
  pub handle_duplicate :
      env.reply w.calls ≡ fine
      → has_key id (env.clock w.calls) w.processed ≡ true
      → ((handle env (message body id) w).0 ≡ ok tt)
        × ((handle env (message body id) w).1.posts ≡ w.posts)
  unfolding handle
  handle_duplicate r h = ground arith

  nothing_sent :
      env.unmarshal_event body ≡ none → (handle env (message body id) w).1.posts ≡ w.posts
  unfolding handle
  nothing_sent h = ground arith

  -- How often net/http sends the request of the second call.
  abbrev pub IsSent : ℕ → Type 0
  IsSent n =
      ((env.reply (suc w.calls) ≡ fine) × (n ≡ suc (env.resends (suc w.calls))))
      ⊎ ((e : GoError) × (env.reply (suc w.calls) ≡ failed n e))

  sent_fine :
      (ev : CheckCompleted)
      → env.unmarshal_event body ≡ some ev
      → env.reply (suc w.calls) ≡ fine
      → ((handle env (message body id) w).1.posts ≡ w.posts)
        ⊎ ((has_key id (env.clock w.calls) w.processed ≡ false)
            × ((handle env (message body id) w).1.posts
                ≡ w.posts ++ copies (suc (env.resends (suc w.calls))) (request body ev)))
  unfolding handle
  sent_fine ev h r = ground arith

  sent_failed :
      (ev : CheckCompleted) (k : ℕ) (e : GoError)
      → env.unmarshal_event body ≡ some ev
      → env.reply (suc w.calls) ≡ failed k e
      → ((handle env (message body id) w).1.posts ≡ w.posts)
        ⊎ ((has_key id (env.clock w.calls) w.processed ≡ false)
            × ((handle env (message body id) w).1.posts ≡ w.posts ++ copies k (request body ev)))
  unfolding handle
  sent_failed ev k e h r = ground arith

  copied :
      (ev : CheckCompleted)
      → env.unmarshal_event body ≡ some ev
      → ((handle env (message body id) w).1.posts ≡ w.posts)
        ⊎ ((has_key id (env.clock w.calls) w.processed ≡ false)
            × ((n : ℕ) × IsSent n
                × ((handle env (message body id) w).1.posts
                    ≡ w.posts ++ copies n (request body ev))))
  copied ev h = elim (Reply-cases (env.reply (suc w.calls))) [
    | inl r ↦ elim (sent_fine ev h r) [
      | inl same ↦ inl same
      | inr (fresh, sent) ↦ inr (fresh, (suc (env.resends (suc w.calls)), inl (r, refl), sent))
    ]
    | inr (k, e, r) ↦ elim (sent_failed ev k e h r) [
      | inl same ↦ inl same
      | inr (fresh, sent) ↦ inr (fresh, (k, inr (e, r), sent))
    ]
  ]

  unsent_ok :
      env.unmarshal_event body ≡ none
      → (handle env (message body id) w).0 ≡ ok tt
      → (has_key id (env.clock w.calls) w.processed ≡ true)
        ⊎ ((carried_out (env.lost_tries w.calls) ≡ true)
            × ((handle env (message body id) w).1.posts ≡ w.posts))
  unfolding handle
  unsent_ok h k = ground arith

  sent_ok :
      (ev : CheckCompleted)
      → env.unmarshal_event body ≡ some ev
      → (handle env (message body id) w).0 ≡ ok tt
      → (has_key id (env.clock w.calls) w.processed ≡ true)
        ⊎ ((carried_out (env.lost_tries w.calls) ≡ true)
            × ((handle env (message body id) w).1.posts ≡ w.posts))
        ⊎ ((200 ≤ env.http_status (suc w.calls))
            × (env.http_status (suc w.calls) < 300)
            × ((handle env (message body id) w).1.posts
                ≡ w.posts ++ copies (suc (env.resends (suc w.calls))) (request body ev)))
  unfolding handle
  sent_ok ev h k = ground arith

  -- The key is set by a message that is not a duplicate, also if its handling fails.
  set_by_failure :
      (e : GoError)
      → (handle env (message body id) w).0 ≡ err e
      → env.reply w.calls ≡ fine
      → (handle env (message body id) w).1.processed
        ≡ (id, env.clock w.calls + dedupe_ttl) ∷ w.processed
  unfolding handle
  set_by_failure e h r = ground arith

  -- However the handling of a message ends, either nothing is sent, or the message's key was not set
  -- before, the message's body could be read as an event, and what is sent are copies of one request,
  -- with that body and the event's check id as its idempotency key: as many as net/http makes of a
  -- single call, so one and those that it sends again if the call succeeds, and those that reached the
  -- target if it fails.
  pub handle-copies :
      ((handle env (message body id) w).1.posts ≡ w.posts)
      ⊎ ((has_key id (env.clock w.calls) w.processed ≡ false)
          × ((ev : CheckCompleted) × (n : ℕ) × (env.unmarshal_event body ≡ some ev)
              × (((env.reply (suc w.calls) ≡ fine) × (n ≡ suc (env.resends (suc w.calls))))
                  ⊎ ((e : GoError) × (env.reply (suc w.calls) ≡ failed n e)))
              × ((handle env (message body id) w).1.posts ≡ w.posts ++ copies n (request body ev))))
  handle-copies = elim (Option-cases (env.unmarshal_event body)) [
    | inl h ↦ inl (nothing_sent h)
    | inr (ev, h) ↦ elim (copied ev h) [
      | inl same ↦ inl same
      | inr (fresh, (n, made, sent)) ↦ inr (fresh, (ev, n, h, made, sent))
    ]
  ]

  -- If handling a message reports no error, then the message's key was set before; or it was set by a
  -- try of this SETNX whose reply was lost, so that the next try found it set, and nothing is sent; or
  -- the message's body could be read as an event, a request with that body was sent, once and as
  -- often again as net/http did, and the last answer has a status of 200 to 299.
  pub handle-ok :
      (handle env (message body id) w).0 ≡ ok tt
      → (has_key id (env.clock w.calls) w.processed ≡ true)
        ⊎ ((carried_out (env.lost_tries w.calls) ≡ true)
            × ((handle env (message body id) w).1.posts ≡ w.posts))
        ⊎ ((ev : CheckCompleted) × (env.unmarshal_event body ≡ some ev)
            × (200 ≤ env.http_status (suc w.calls))
            × (env.http_status (suc w.calls) < 300)
            × ((handle env (message body id) w).1.posts
                ≡ w.posts ++ copies (suc (env.resends (suc w.calls))) (request body ev)))
  handle-ok k = elim (Option-cases (env.unmarshal_event body)) [
    | inl h ↦ elim (unsent_ok h k) [ inl taken ↦ inl taken | inr lost ↦ inr (inl lost) ]
    | inr (ev, h) ↦ elim (sent_ok ev h k) [
      | inl taken ↦ inl taken
      | inr (inl lost) ↦ inr (inl lost)
      | inr (inr (low, high, sent)) ↦ inr (inr (ev, h, low, high, sent))
    ]
  ]

pub has_key_first :
    (id : ℤ) (now expires : ℕ) (rest : List (ℤ × ℕ))
    → now < expires
    → has_key id now ((id, expires) ∷ rest) ≡ true
unfolding has_key
has_key_first id now expires rest h = let same = ==ℤ_refl id in ground arith

-- If handling a message fails although Redis answered SETNX, then within a day after that SETNX the
-- message, handled again, counts as handled, and no request is sent for it.
pub handle_failure_is_final :
    (env : Env) (body : String) (id : ℤ) (w later : World) (e : GoError)
    → (handle env (message body id) w).0 ≡ err e
    → env.reply w.calls ≡ fine
    → later.processed ≡ (handle env (message body id) w).1.processed
    → env.reply later.calls ≡ fine
    → env.clock later.calls < env.clock w.calls + dedupe_ttl
    → ((handle env (message body id) later).0 ≡ ok tt)
      × ((handle env (message body id) later).1.posts ≡ later.posts)
handle_failure_is_final env body id w later e failure r kept s early =
    let keys = set_by_failure env body id w e failure r in
    let there =
      has_key_first id (env.clock later.calls) (env.clock w.calls + dedupe_ttl) w.processed early in
    handle_duplicate env body id later s (cc)
