-- ===== src/Main/Workers.antt =====
-- The workers end exactly when their context does.
use geo_notifications_servic.Prelude.{◌≡◌, refl, ℕ, zero, suc, true, false, none, some}
use geo_notifications_servic.Errs.{plain}
use geo_notifications_servic.World.{World, Env}
use geo_notifications_servic.Relay
use geo_notifications_servic.Webhook
use geo_notifications_servic.Main.{Host, signals, turns_of, workers}

module _ (env : Env) where
  relay-goes_on : (n : ℕ) (w : World) → (Relay.run env (signals false n) w).0 ≡ none
  unfolding Relay.run
  relay-goes_on zero w = refl
  relay-goes_on (suc n) w = relay-goes_on n (Relay.process env w).1

  relay-ends :
      (n : ℕ) (w : World) → (Relay.run env (signals true n) w).0 ≡ some (plain "context canceled")
  unfolding Relay.run
  relay-ends zero w = refl
  relay-ends (suc n) w = relay-ends n (Relay.process env w).1

  loop-ends :
      (n k : ℕ) (w : World)
      → (Webhook.loop env (turns_of true n) k w).0 ≡ some (plain "context canceled")
  unfolding Webhook.loop
  loop-ends zero k w = refl
  loop-ends (suc n) k w = let (w', k') = Webhook.iteration env k w in loop-ends n k' w'

  worker-ends :
      (n : ℕ) (w : World)
      → (Webhook.run env (turns_of true n) 0 w).0 ≡ some (plain "context canceled")
  unfolding Webhook.run
  worker-ends n w = loop-ends n 0 (record w { calls = suc w.calls })

module _ (host : Host) (env : Env) where
  pub workers-go_on : (w : World) → workers host env false w ≡ none
  unfolding workers
  workers-go_on w = rw (relay-goes_on env host.ticks w) refl

  pub workers-end : (w : World) → workers host env true w ≡ some (some (plain "context canceled"))
  unfolding workers
  workers-end w = rw (relay-ends env host.ticks w, worker-ends env host.turns w) refl
