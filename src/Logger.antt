-- ===== src/Logger.antt =====
-- internal/platform/logger: what a call writes. The JSON encoding, the place of the call and the
-- time are slog's; `Effect` is a line that is written, or an event function that is called.
pub mod Lines
use geo_notifications_servic.Prelude.{
  ℕ, Bool, true, false, ◌||◌, ◌&&◌, not, Option, none, some, String, List, [], ◌∷◌, ◌++◌, ℤ, pos,
  negsuc, leb_ℤ, ◌==ℤ◌, str_eq, length, ◌==◌, if◌then◌else◌,
}
use Prim.Native.Char.{code}

-- slog's levels are numbers.
abbrev pub Level : Type 0
Level = ℤ

abbrev pub level_debug : Level
level_debug = negsuc 3

abbrev pub level_info : Level
level_info = pos 0

abbrev pub level_warn : Level
level_warn = pos 4

abbrev pub level_error : Level
level_error = pos 8

unfoldable pub parse_log_level : String → Level
parse_log_level level =
    if str_eq level "debug"
    then level_debug
    else if str_eq level "warn"
    then level_warn
    else if str_eq level "error"
    then level_error
    else level_info

-- slog's record, with its attributes in order.
pub record SlogRecord : Type 0 where
  pub level : Level
  pub message : String
  pub attributes : List (String × String)

-- `Record`: the attributes as a map, in which a later one replaces an earlier one of its key.
pub record LogRecord : Type 0 where
  pub message : String
  pub level : Level
  pub attributes : List (String × String)

put_attribute : String → String → List (String × String) → List (String × String)
put_attribute key value [] = (key, value) ∷ []
put_attribute key value ((k, v) ∷ rest) =
    let later = put_attribute key value rest in
    if str_eq k key then (key, value) ∷ rest else (k, v) ∷ later

put_attributes : List (String × String) → List (String × String) → List (String × String)
put_attributes [] atts = atts
put_attributes ((key, value) ∷ rest) atts = put_attributes rest (put_attribute key value atts)

unfoldable pub to_record : SlogRecord → LogRecord
unfolding put_attributes put_attribute
to_record r = record {
  message = r.message;
  level = r.level;
  attributes = put_attributes r.attributes [];
}

-- Which of the event functions are set.
pub record Events : Type 0 where
  pub debug : Bool
  pub info : Bool
  pub warn : Bool
  pub error : Bool

pub data Effect : Type 0 where
  event : Level → LogRecord → Effect
  line : SlogRecord → Effect

-- The handlers that `new` builds: slog's JSON handler, or `logHandler` around it. Both add the
-- attribute of the service to each line, and the events see the record without it.
pub data Handler : Type 0 where
  json_handler : (min_level : Level) (service : String) → Handler
  log_handler : Handler → Events → Handler

unfoldable pub enabled : Handler → Level → Bool
enabled (json_handler min_level service) level = leb_ℤ min_level level
enabled (log_handler h events) level = enabled h level

abbrev fired : Bool → SlogRecord → List Effect
fired true r = event r.level (to_record r) ∷ []
fired false r = []

events_of : Events → SlogRecord → List Effect
events_of events r =
    if r.level ==ℤ level_debug
    then fired events.debug r
    else if r.level ==ℤ level_error
    then fired events.error r
    else if r.level ==ℤ level_warn
    then fired events.warn r
    else if r.level ==ℤ level_info
    then fired events.info r
    else []

unfoldable pub handle : Handler → SlogRecord → List Effect
unfolding events_of
handle (json_handler min_level service) r =
    line (record r { attributes = ("service", service) ∷ r.attributes }) ∷ []
handle (log_handler h events) r = events_of events r ++ handle h r

pub record Logger : Type 0 where
  pub discard : Bool
  pub handler : Handler

-- `new`, whose argument `discard` says whether the writer is `io.Discard`.
unfoldable pub new_logger : (discard : Bool) → Level → String → Events → Logger
new_logger discard min_level service events =
    let h = json_handler min_level service in
    record {
      discard = discard;
      handler =
          if events.debug || events.info || events.warn || events.error
          then log_handler h events
          else h;
    }

abbrev pub no_events : Events
no_events = record { debug = false; info = false; warn = false; error = false }

-- `New`, `NewWithEvents` and `NewWithHandler`.
abbrev pub new : (discard : Bool) → Level → String → Logger
new discard min_level service = new_logger discard min_level service no_events

abbrev pub new_with_events : (discard : Bool) → Level → String → Events → Logger
new_with_events discard min_level service events = new_logger discard min_level service events

abbrev pub new_with_handler : Handler → Logger
new_with_handler h = record { discard = false; handler = h }

unfoldable pub write : Logger → Level → String → List (String × String) → List Effect
write log level msg args =
    let r : SlogRecord = record { level = level; message = msg; attributes = args } in
    if enabled log.handler level then handle log.handler r else []

-- `Debug`, `Debugc`, `Info`, `Infoc`, `Warn`, `Warnc`, `Error` and `Errorc`, by their level.
unfoldable pub log_at : Level → Logger → String → List (String × String) → List Effect
log_at level log msg args = if log.discard then [] else write log level msg args

-- `Log`: a level that is none of the four is logged as information.
unfoldable pub log_any : Logger → Level → String → List (String × String) → List Effect
log_any log level msg args =
    if level ==ℤ level_debug
    then log_at level_debug log msg args
    else if level ==ℤ level_warn
    then log_at level_warn log msg args
    else if level ==ℤ level_error
    then log_at level_error log msg args
    else log_at level_info log msg args

-- debug.go: `strings.ContainsAny` with the characters that a test picks, by their code points.
contains_any : (ℕ → Bool) → String → Bool
contains_any picks String.[] = false
contains_any picks (String.◌∷◌ c s) = let rest = contains_any picks s in picks (code c) || rest

-- One of: space, tab, carriage return, line feed, double quote, back quote.
abbrev needs_quotes : ℕ → Bool
needs_quotes n = n == 32 || n == 9 || n == 13 || n == 10 || n == 34 || n == 96

unfoldable pub quote_key : String → Bool
unfolding contains_any
quote_key key = str_eq key "" || contains_any (λ n. n == 61 || needs_quotes n) key

unfoldable pub quote_value : String → Bool
unfolding contains_any
quote_value value = contains_any needs_quotes value

quoted : (String → String) → List (String × String) → List (String × String)
quoted quote [] = []
quoted quote ((key, value) ∷ rest) =
    (if quote_key key then quote key else key, if quote_value value then quote value else value)
    ∷ quoted quote rest

-- What `debug.ReadBuildInfo` returns.
pub record BuildInfo : Type 0 where
  pub settings : List (String × String)
  pub go_version : String
  pub mod_version : String

-- `BuildInfo`, with `strconv.Quote`.
unfoldable pub build_info : (String → String) → Logger → Option BuildInfo → List Effect
unfolding quoted
build_info quote log none = log_at level_warn log "build info not available" []
build_info quote log (some info) = log_at level_info log "build info" (
    quoted quote info.settings
    ++ (("goversion", info.go_version) ∷ ("modversion", info.mod_version) ∷ []))
