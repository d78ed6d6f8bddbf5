-- ===== src/Queue.antt =====
-- internal/platform/redis/queue/queue.go: one XADD for each item, sent as one pipeline. A pipeline
-- that fails may have added some of its items, in their order. That go-redis sends one again is not
-- modelled.
use geo_notifications_servic.Prelude.{suc, List, [], ◌∷◌, ◌++◌, take}
use geo_notifications_servic.World.{Env, Reply, fine, failed, Item}
use geo_notifications_servic.World.Exec.{ok, err, M, pure}

unfoldable pub exec_pipeline : Reply → List Item → M (Unit {0})
exec_pipeline fine items w = (ok tt, record w { calls = suc w.calls; stream = w.stream ++ items })
exec_pipeline (failed reached e) items w =
    (err e, record w { calls = suc w.calls; stream = w.stream ++ take reached items })

unfoldable pub enqueue_batch : Env → List Item → M (Unit {0})
unfolding exec_pipeline
enqueue_batch env [] = pure tt
enqueue_batch env (it ∷ items) = λ w. exec_pipeline (env.reply w.calls) (it ∷ items) w
