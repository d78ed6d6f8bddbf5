-- ===== src/Main/Settling.antt =====
-- Lists of effects that close what they open.
use geo_notifications_servic.Prelude.{◌≡◌, refl, sym, ap, ◌∙◌, String, List, [], ◌∷◌, ◌++◌, map}
use mathlib.Core.List.{append_assoc}
use geo_notifications_servic.World.Exec.{Result, ok, err, panicked}
use geo_notifications_servic.Logger
use geo_notifications_servic.Logger.{
  Logger, Level, level_info, level_error, log_at, new_logger, parse_log_level, build_info,
}
use geo_notifications_servic.Main.{
  Resource, Effect, logged, opened, closed, returned, waiting, crashed, Outcome, say, close_all,
  and_then, proceed, error_args,
}

abbrev opened_here : Effect → List Resource → List Resource
opened_here (opened r) rest = r ∷ rest
opened_here _ rest = rest

abbrev closed_here : Effect → List Resource → List Resource
closed_here (closed r) rest = r ∷ rest
closed_here _ rest = rest

-- The resources that are opened, the last first, and those that are closed, in order.
abbrev pub opened_by : List Effect → List Resource → List Resource
opened_by [] held = held
opened_by (e ∷ es) held = opened_by es (opened_here e held)

abbrev pub closed_by : List Effect → List Resource
closed_by [] = []
closed_by (e ∷ es) = closed_here e (closed_by es)

-- From a point on at which these are held, the last first: all is closed when `main` ends, and
-- nothing while it goes on.
abbrev pub Settles : List Resource → Outcome → Type 0
Settles held (es, returned) = closed_by es ≡ opened_by es held
Settles held (es, crashed) = closed_by es ≡ opened_by es held
Settles held (es, waiting) = closed_by es ≡ []

-- Effects that neither open nor close a resource.
abbrev pub IsQuiet : List Effect → Type 0
IsQuiet es =
    (rest : List Effect) (held : List Resource)
    → (closed_by (es ++ rest) ≡ closed_by rest)
      × (opened_by (es ++ rest) held ≡ opened_by rest held)

pub IsQuiet-logged : (lines : List Logger.Effect) → IsQuiet (map logged lines)
IsQuiet-logged [] rest held = (refl, refl)
IsQuiet-logged (l ∷ lines) rest held = IsQuiet-logged lines rest held

pub IsQuiet-append : (es fs : List Effect) → IsQuiet es → IsQuiet fs → IsQuiet (es ++ fs)
IsQuiet-append es fs h k rest held =
    let (closed_, opened_) = h (fs ++ rest) held in
    let (closed', opened') = k rest held in
    rw (append_assoc es fs rest) (closed_ ∙ closed', opened_ ∙ opened')

pub Settles-quiet :
    (held : List Resource) (es : List Effect) (o : Outcome)
    → IsQuiet es
    → Settles held o
    → Settles held (and_then es o)
Settles-quiet held es (fs, returned) quiet h =
    let (closed_, opened_) = quiet fs held in closed_ ∙ h ∙ sym opened_
Settles-quiet held es (fs, crashed) quiet h =
    let (closed_, opened_) = quiet fs held in closed_ ∙ h ∙ sym opened_
Settles-quiet held es (fs, waiting) quiet h = (quiet fs held).0 ∙ h

closes : (held : List Resource) → closed_by (close_all held) ≡ held
closes [] = refl
closes (r ∷ held) = ap (λ l. r ∷ l) (closes held)

opens_none : (rs held : List Resource) → opened_by (close_all rs) held ≡ held
opens_none [] held = refl
opens_none (r ∷ rs) held = opens_none rs held

-- The deferred calls.
pub Settles-close :
    (held : List Resource) → closed_by (close_all held) ≡ opened_by (close_all held) held
Settles-close held = closes held ∙ sym (opens_none held held)

pub IsQuiet-say :
    (log : Logger) (level : Level) (msg : String) (args : List (String × String))
    → IsQuiet (say log level msg args)
IsQuiet-say log level msg args = IsQuiet-logged (log_at level log msg args)

pub IsQuiet-nil : IsQuiet []
IsQuiet-nil rest held = (refl, refl)

pub Settles-say :
    (log : Logger) (level : Level) (msg : String) (args : List (String × String))
    (held : List Resource) (o : Outcome)
    → Settles held o
    → Settles held (and_then (say log level msg args) o)
Settles-say log level msg args held o h =
    Settles-quiet held (say log level msg args) o (IsQuiet-say log level msg args) h

pub Settles-proceed {ℓ} :
    {A : Type ℓ} (log : Logger) (status : String) (held : List Resource) (r : Result A)
    (next : Outcome)
    → Settles held next
    → Settles held (proceed log status held r next)
Settles-proceed log status held (ok a) next h = h
Settles-proceed log status held (err e) next h =
    Settles-say log level_error "startup" (error_args status e) held (close_all held, returned)
      (Settles-close held)
Settles-proceed log status held (panicked p) next h = Settles-close held

pub Settles-opened :
    (r : Resource) (held : List Resource) (o : Outcome)
    → Settles (r ∷ held) o
    → Settles held (and_then (opened r ∷ []) o)
Settles-opened r held (es, returned) h = h
Settles-opened r held (es, crashed) h = h
Settles-opened r held (es, waiting) h = h
