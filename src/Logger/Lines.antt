-- ===== src/Logger/Lines.antt =====
-- What a logger writes, and which event functions it calls.
use geo_notifications_servic.Prelude.{
  ◌≡◌, inl, inr, Bool, ◌||◌, not, String, List, [], ◌∷◌, ◌++◌, leb_ℤ, ◌==ℤ◌, if◌then◌else◌, arith,
  Bool-cases,
}
use geo_notifications_servic.Logger.{
  Level, level_debug, level_info, level_warn, level_error, SlogRecord, to_record, Events, Effect,
  event, line, Logger, new_logger, log_at, log_any, write, handle, enabled,
}

-- The level at which a call is logged: its own, if it is one of the four.
abbrev pub effective : Level → Level
effective level =
    if level ==ℤ level_debug
    then level_debug
    else if level ==ℤ level_warn
    then level_warn
    else if level ==ℤ level_error
    then level_error
    else level_info

-- The event functions as a function of the level.
abbrev pub is_set : Events → Level → Bool
is_set events level =
    if level ==ℤ level_debug
    then events.debug
    else if level ==ℤ level_warn
    then events.warn
    else if level ==ℤ level_error
    then events.error
    else events.info

abbrev pub told : Events → SlogRecord → List Effect
told events r = if is_set events r.level then event r.level (to_record r) ∷ [] else []

-- One line, with the service before the attributes, and before it the call of the event function.
abbrev pub written : String → Events → SlogRecord → List Effect
written service events r =
    told events r ++ line (record r { attributes = ("service", service) ∷ r.attributes }) ∷ []

module _ (min_level : Level) (service : String) (events : Events) (msg : String)
    (args : List (String × String)) where
  abbrev logger : Bool → Logger
  logger discard = new_logger discard min_level service events

  abbrev record_at : Level → SlogRecord
  record_at level = record { level = level; message = msg; attributes = args }

  abbrev shown : Bool → Level → List Effect
  shown discard level =
      if discard || not (leb_ℤ min_level level)
      then []
      else written service events (record_at level)

  log_at-debug :
      (discard : Bool) → log_at level_debug (logger discard) msg args ≡ shown discard level_debug
  unfolding log_at write handle enabled new_logger
  log_at-debug discard = ground arith

  log_at-warn :
      (discard : Bool) → log_at level_warn (logger discard) msg args ≡ shown discard level_warn
  unfolding log_at write handle enabled new_logger
  log_at-warn discard = ground arith

  log_at-error :
      (discard : Bool) → log_at level_error (logger discard) msg args ≡ shown discard level_error
  unfolding log_at write handle enabled new_logger
  log_at-error discard = ground arith

  log_at-info :
      (discard : Bool) → log_at level_info (logger discard) msg args ≡ shown discard level_info
  unfolding log_at write handle enabled new_logger
  log_at-info discard = ground arith

  -- A call of a logger writes nothing if the output is discarded or its level is below the least one;
  -- otherwise it calls the event function of the level, if that is set, and then writes one line with
  -- the service before its attributes. A level that is none of the four counts as information.
  pub log_any-written :
      (discard : Bool) (level : Level)
      → log_any (logger discard) level msg args ≡ shown discard (effective level)
  unfolding log_any
  log_any-written discard level = elim (Bool-cases (level ==ℤ level_debug)) [
    | inl debug ↦ rw debug (log_at-debug discard)
    | inr not_debug ↦ rw not_debug (elim (Bool-cases (level ==ℤ level_warn)) [
      | inl warn ↦ rw warn (log_at-warn discard)
      | inr not_warn ↦ rw not_warn (elim (Bool-cases (level ==ℤ level_error)) [
        | inl error ↦ rw error (log_at-error discard)
        | inr other ↦ rw other (log_at-info discard)
      ])
    ])
  ]
