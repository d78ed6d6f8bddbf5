-- ===== src/Handlers/System.antt =====
-- internal/http/handlers/system.go: the health of what the service depends on. Logging is left out.
use geo_notifications_servic.Prelude.{
  ℕ, Option, none, some, String, List, [], ◌∷◌, str_eq, if◌then◌else◌,
}
use geo_notifications_servic.Errs.{GoError, error_text}
use geo_notifications_servic.World.{Env}
use geo_notifications_servic.World.Exec.{M, pure, error_of, ◌>>=◌}

pub record Dependency : Type 0 where
  pub name : String
  pub ping : M (Unit {0})

-- `Error` is left out of the JSON where it is empty.
pub record DependencyStatus : Type 0 where
  pub status : String
  pub error : String

pub record HealthResponse : Type 0 where
  pub status : String
  pub timestamp : ℕ
  pub dependencies : List (String × DependencyStatus)

-- `resp.Dependencies[name] = …`
pub put_status :
    String → DependencyStatus → List (String × DependencyStatus) → List (String × DependencyStatus)
put_status name s [] = (name, s) ∷ []
put_status name s ((k, t) ∷ rest) =
    let later = put_status name s rest in if str_eq k name then (name, s) ∷ rest else (k, t) ∷ later

abbrev pub down : GoError → DependencyStatus
down e = record { status = "down"; error = error_text e }

abbrev pub up : DependencyStatus
up = record { status = "ok"; error = "" }

-- The response and the status code, after the ping of one dependency.
unfoldable pub noted : String → Option GoError → HealthResponse × ℕ → HealthResponse × ℕ
noted name (some e) (resp, code) = (
  record resp { status = "degraded"; dependencies = put_status name (down e) resp.dependencies },
  503,
)
noted name none (resp, code) =
    (record resp { dependencies = put_status name up resp.dependencies }, code)

unfoldable pub ping_all : List Dependency → HealthResponse × ℕ → M (HealthResponse × ℕ)
unfolding noted put_status
ping_all [] state = pure state
ping_all (d ∷ ds) state = error_of d.ping >>= λ e. ping_all ds (noted d.name e state)

unfoldable pub health : Env → List Dependency → M (HealthResponse × ℕ)
unfolding ping_all
health env deps w =
    ping_all deps (record { status = "ok"; timestamp = env.clock w.calls; dependencies = [] }, 200)
      w
