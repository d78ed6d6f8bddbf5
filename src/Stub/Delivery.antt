-- ===== src/Stub/Delivery.antt =====
-- The worker against the server that stands in for the target.
use geo_notifications_servic.Prelude.{
  ◌≡◌, ◌↔◌, ℕ, suc, true, false, none, some, String, List, ◌++◌, ℤ, arith, Option-cases, inl, inr,
}
use geo_notifications_servic.Errs.{plain}
use geo_notifications_servic.Domain.{CheckCompleted}
use geo_notifications_servic.World.{World, Env, fine, Post}
use geo_notifications_servic.World.Exec.{ok, err}
use geo_notifications_servic.Webhook.{handle, request, has_key, carried_out, copies}
use geo_notifications_servic.Webhook.Delivery.{message}
use geo_notifications_servic.Stub.{IsObject, Incoming, respond}

module _ (env : Env) (unmarshal : IsObject) (path body : String) (id : ℤ) (w : World)
    (ev : CheckCompleted) where
  abbrev pub incoming : Incoming
  incoming = record { is_post = true; path = path; body = some body }

  abbrev Answers : ℕ → Type 0
  Answers status =
      (env.reply w.calls ≡ fine)
      × (carried_out (env.lost_tries w.calls) ≡ false)
      × (env.reply (suc w.calls) ≡ fine)
      × (env.is_valid_target ≡ true)
      × (has_key id (env.clock w.calls) w.processed ≡ false)
      × (env.unmarshal_event body ≡ some ev)
      × (env.http_status (suc w.calls) ≡ status)

  -- What net/http sends for one request that is answered.
  abbrev pub sent_on : World → List Post
  sent_on v = v.posts ++ copies (suc (env.resends (suc v.calls))) (request body ev)

  accepted :
      Answers 200
      → ((handle env (message body id) w).1.posts ≡ sent_on w)
        × ((handle env (message body id) w).0 ≡ ok tt)
  unfolding handle
  accepted (up, kept, up', valid, fresh, read, same) = ground arith

  rejected :
      Answers 400
      → ((handle env (message body id) w).1.posts ≡ sent_on w)
        × ((handle env (message body id) w).0 ≡ err (plain "webhook non-2xx"))
  unfolding handle
  rejected (up, kept, up', valid, fresh, read, same) = ground arith

  -- If Redis and the connection to the target do not fail, no reply of Redis is lost, the target
  -- answers as the stand-in does, its URL is accepted and the key of the message is not set: a message
  -- that holds an event is sent, once and as often again as net/http does, and its handling succeeds exactly if the stand-in can read the payload as a JSON object.
  pub handle-respond :
      env.reply w.calls ≡ fine
      → carried_out (env.lost_tries w.calls) ≡ false
      → env.reply (suc w.calls) ≡ fine
      → env.is_valid_target ≡ true
      → has_key id (env.clock w.calls) w.processed ≡ false
      → env.unmarshal_event body ≡ some ev
      → env.http_status (suc w.calls) ≡ (respond unmarshal incoming).status
      → let (r, v) = handle env (message body id) w in
        (v.posts ≡ w.posts ++ copies (suc (env.resends (suc w.calls))) (request body ev))
        × ((r ≡ ok tt) ↔ (unmarshal body ≡ none))
  unfolding respond
  handle-respond up kept up' valid fresh read same = elim (Option-cases (unmarshal body)) [
    | inl object ↦
        let (sent, done) = accepted (up, kept, up', valid, fresh, read, rw object at same) in
        (sent, (λ h. object, λ h. done))
    | inr (e, other) ↦
        let (sent, failed) = rejected (up, kept, up', valid, fresh, read, rw other at same) in
        (sent, (λ h. absurd (cc), λ h. absurd (cc)))
  ]
