-- ===== src/Handlers/Health.antt =====
-- The status with which the health of the service is answered.
use geo_notifications_servic.Prelude.{
  ◌≡◌, ◌≢◌, refl, Bool, true, false, String, List, [], ◌∷◌, ℕ, if◌then◌else◌, All, Bool-cases, inl,
  inr, ap, ◌∙◌,
}
use geo_notifications_servic.World.{World, Env}
use geo_notifications_servic.World.Exec.{Result, ok, err, panicked, caught, continue}
use geo_notifications_servic.Handlers.System.{
  Dependency, HealthResponse, ping_all, health, noted, put_status, up, down,
}

-- A ping that does not panic.
abbrev pub IsCalm : Dependency → Type 0
IsCalm d = (w : World) (p : String) → (d.ping w).0 ≢ panicked p

succeeded : Result (Unit {0}) → Bool
succeeded (ok tt) = true
succeeded (err e) = false
succeeded (panicked p) = false

-- Whether each dependency answers its ping, where each is asked in turn.
unfoldable pub all_up : List Dependency → World → Bool
unfolding succeeded
all_up [] w = true
all_up (d ∷ ds) w =
    let later = all_up ds (d.ping w).1 in if succeeded (d.ping w).0 then later else false

-- A response of these pings, from a state of the response and the status.
abbrev Ends : Bool → HealthResponse × ℕ → Result (HealthResponse × ℕ) → Type 0
Ends up_ (resp, code) r =
    (final : HealthResponse × ℕ) × (r ≡ ok final)
    × (final.1 ≡ (if up_ then code else 503))
    × (final.0.status ≡ (if up_ then resp.status else "degraded"))

after_ping :
    (d : Dependency) (ds : List Dependency) (resp : HealthResponse) (code : ℕ) (v : World)
    → ((resp : HealthResponse) (code : ℕ)
        → Ends (all_up ds v) (resp, code) (ping_all ds (resp, code) v).0)
    → (r : Result (Unit {0})) → ((p : String) → r ≢ panicked p)
    → Ends
        (let later = all_up ds v in if succeeded r then later else false)
        (resp, code)
        (continue (caught r) (λ e. ping_all ds (noted d.name e (resp, code))) v).0
unfolding succeeded noted
after_ping d ds resp code v rest (ok tt) calm =
    rest (record resp { dependencies = put_status d.name up resp.dependencies }) code
after_ping d ds resp code v rest (panicked p) calm = absurd (calm p refl)
after_ping d ds resp code v rest (err e) calm =
    let (final, returned, status, text) =
      rest
        (record resp {
          status = "degraded";
          dependencies = put_status d.name (down e) resp.dependencies;
        })
        503 in
    elim (Bool-cases (all_up ds v)) [
      | inl all ↦ (final, returned, status ∙ rw all refl, text ∙ rw all refl)
      | inr some_ ↦ (final, returned, status ∙ rw some_ refl, text ∙ rw some_ refl)
    ]

ping_all-Ends :
    (ds : List Dependency) (resp : HealthResponse) (code : ℕ) (w : World)
    → All IsCalm ds
    → Ends (all_up ds w) (resp, code) (ping_all ds (resp, code) w).0
unfolding ping_all all_up
ping_all-Ends [] resp code w calm = ((resp, code), refl, refl, refl)
ping_all-Ends (d ∷ ds) resp code w (here, later) =
    after_ping d ds resp code (d.ping w).1
      (λ resp code. ping_all-Ends ds resp code (d.ping w).1 later) (d.ping w).0 (here w)

pub health-Ends :
    (env : Env) (deps : List Dependency) (w : World)
    → All IsCalm deps
    → (resp : HealthResponse) × ((health env deps w).0
        ≡ ok (resp, if all_up deps w then 200 else 503))
      × (resp.status ≡ (if all_up deps w then "ok" else "degraded"))
unfolding health
health-Ends env deps w calm =
    let ((resp, code), returned, status, text) = ping_all-Ends deps _ 200 w calm in
    (resp, returned ∙ ap (λ n. ok (resp, n)) status, text)
