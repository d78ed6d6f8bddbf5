-- ===== src/Tests/Delivering.antt =====
-- A message of the stream, sent, refused by the target, and handled again.
use geo_notifications_servic.Prelude.{
  ℕ, suc, ◌≡◌, ◌≤◌, ◌<◌, refl, ◌⊎◌, false, true, some, List, [], ◌∷◌, ◌++◌, pos, arith,
}
use geo_notifications_servic.Errs.{GoError, plain}
use geo_notifications_servic.Domain.{CheckCompleted}
use geo_notifications_servic.World.{World, Env, Post, fine, failed}
use geo_notifications_servic.World.Exec.{ok, err}
use geo_notifications_servic.Webhook.{handle, has_key, request, copies, carried_out, run}
use geo_notifications_servic.Webhook.Loop.{InOrder, run-InOrder}
use geo_notifications_servic.Webhook.Once.{Once}
use geo_notifications_servic.Webhook.Delivery.{
  message, handle-copies, handle-ok, handle_failure_is_final,
}
use geo_notifications_servic.Tests.Samples.{good, failing, relayed, refusing, start}

-- The request is sent again twice, and the last answer is an error.
abbrev resent : Env
resent = record refusing { resends = λ n. 2 }

handle-copies_example :
    ((handle resent (message "{}" (pos 7)) start).1.posts ≡ start.posts)
    ⊎ ((has_key (pos 7) (resent.clock start.calls) start.processed ≡ false)
        × ((ev : CheckCompleted) × (n : ℕ) × (resent.unmarshal_event "{}" ≡ some ev)
            × (((resent.reply (suc start.calls) ≡ fine)
                  × (n ≡ suc (resent.resends (suc start.calls))))
                ⊎ ((e : GoError) × (resent.reply (suc start.calls) ≡ failed n e)))
            × ((handle resent (message "{}" (pos 7)) start).1.posts
                ≡ start.posts ++ copies n (request "{}" ev))))
handle-copies_example = handle-copies resent "{}" (pos 7) start

-- The first reply of Redis to SETNX is lost, after it has set the key.
abbrev lossy : Env
lossy = record good { lost_tries = λ n. 1 ∷ [] }

lost_silently :
    ((handle lossy (message "{}" (pos 7)) start).0 ≡ ok tt)
    × ((handle lossy (message "{}" (pos 7)) start).1.posts ≡ [])
unfolding handle carried_out
lost_silently = (refl, refl)

handled : (handle good (message "{}" (pos 7)) start).0 ≡ ok tt
unfolding handle carried_out
handled = refl

handle-ok_example :
    (has_key (pos 7) (good.clock start.calls) start.processed ≡ true)
    ⊎ ((carried_out (good.lost_tries start.calls) ≡ true)
        × ((handle good (message "{}" (pos 7)) start).1.posts ≡ start.posts))
    ⊎ ((ev : CheckCompleted) × (good.unmarshal_event "{}" ≡ some ev)
        × (200 ≤ good.http_status (suc start.calls))
        × (good.http_status (suc start.calls) < 300)
        × ((handle good (message "{}" (pos 7)) start).1.posts
            ≡ start.posts ++ copies (suc (good.resends (suc start.calls))) (request "{}" ev)))
handle-ok_example = handle-ok good "{}" (pos 7) start handled

refused_once : (handle refusing (message "{}" (pos 7)) start).0 ≡ err (plain "webhook non-2xx")
unfolding handle carried_out
refused_once = refl

abbrev after : World
after = (handle refusing (message "{}" (pos 7)) start).1

soon : after.calls < 86400000000000
unfolding handle carried_out
soon = omega arith

handle_failure_is_final_example :
    ((handle refusing (message "{}" (pos 7)) after).0 ≡ ok tt)
    × ((handle refusing (message "{}" (pos 7)) after).1.posts ≡ after.posts)
handle_failure_is_final_example =
    handle_failure_is_final refusing "{}" (pos 7) start after (plain "webhook non-2xx") refused_once
      refl refl refl soon

-- The second read fails.
run-InOrder_example :
    (ps : List Post) × ((run (failing 7) (false ∷ false ∷ true ∷ []) 0 relayed).1.posts
      ≡ relayed.posts ++ ps)
    × InOrder ps relayed.stream
run-InOrder_example = run-InOrder (failing 7) (false ∷ false ∷ true ∷ []) 0 relayed

-- A day on which the clock stands, and a stream in which an event stands twice.
abbrev noon : Env
noon = record (failing 7) { clock = λ n. 5 }

abbrev doubled : World
doubled = record relayed { stream = relayed.stream ++ relayed.stream }
