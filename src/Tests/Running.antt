-- ===== src/Tests/Running.antt =====
-- Steps of two relays, the worker and a request that interleave.
use geo_notifications_servic.Prelude.{refl, pos, true, none, List, [], ◌∷◌, inl}
use geo_notifications_servic.World.{Env}
use geo_notifications_servic.Config.{Config, zero_config}
use geo_notifications_servic.Router.{App, post}
use geo_notifications_servic.System.{
  State, idle, Action, request, claim, push, finish, stop, deliver, run, main_app,
}
use geo_notifications_servic.System.Invariant.{contents, IsSound}
use geo_notifications_servic.System.Runs.{run-IsSound}
use geo_notifications_servic.Tests.Samples.{failing, relayed}
use geo_notifications_servic.Tests.Relaying.{traced}
use geo_notifications_servic.Tests.Serving.{gin, asking}

abbrev settings : Config
unfolding zero_config
settings = record zero_config {
  log_level = "info";
  active_incidents_ttl_seconds = 60;
  api_key = "secret";
  time_window_minutes = pos 60;
}

-- The seventh call fails.
abbrev shaky : Env
shaky = failing 6

abbrev app : App
app = main_app shaky (λ n. true) settings (λ n. none)

abbrev begun : State
begun = record { world = relayed; relays = λ n. idle; read = 0 }

begun-IsSound : IsSound (contents relayed) begun
begun-IsSound = record {
  lasting = λ it k. k;
  traced = traced;
  genuine = (inl refl, tt);
  sent = tt;
  held = λ n. tt;
}

abbrev steps : List Action
steps =
    claim 0
    ∷ request (record (asking ("location" ∷ "check" ∷ []) "") { method = post })
    ∷ claim 1
    ∷ push 1
    ∷ deliver
    ∷ push 0
    ∷ stop 1
    ∷ finish 0
    ∷ request (asking ("health" ∷ []) "")
    ∷ deliver
    ∷ []

run-IsSound_example : IsSound (contents relayed) (run shaky gin app steps begun)
run-IsSound_example =
    run-IsSound gin shaky (λ n. true) settings (λ n. none) (contents relayed) steps begun
      begun-IsSound
