-- ===== src/Middleware.antt =====
-- internal/platform/middleware: error.go and apikey.go. A handler records errors in the request's
-- context and may stop the chain; what is left of the context here is the recorded errors, and
-- whether a response has been written. Logging is left out.
pub mod Responses
use geo_notifications_servic.Prelude.{
  ℕ, String, Bool, true, false, ◌||◌, Option, none, some, List, [], ◌∷◌, str_eq, if◌then◌else◌,
}
use geo_notifications_servic.Errs.{
  Kind, invalid, not_found, unauthorized, forbidden, conflict, internal, Fields, GoError, Error,
  no_cause, new_error, as_error,
}

pub record ApiError : Type 0 where
  pub error : String
  pub kind : Kind
  pub code : String
  pub fields : Fields
  pub request_id : String

pub data LogLevel : Type 0 where
  error warn : LogLevel

pub record Response : Type 0 where
  pub status : ℕ
  pub resp : ApiError
  pub log_level : LogLevel

-- The response for an *errs.Error: its kind and its code are shown, its fields only if it is about
-- an invalid request.
map_found : Error → Kind → Response
map_found e invalid = record {
  status = 400;
  resp = record {
    error = "invalid request";
    kind = e.kind;
    code = e.code;
    fields = e.fields;
    request_id = "";
  };
  log_level = warn;
}
map_found e not_found = record {
  status = 404;
  resp = record { error = "not found"; kind = e.kind; code = e.code; fields = []; request_id = "" };
  log_level = warn;
}
map_found e unauthorized = record {
  status = 401;
  resp = record {
    error = "unauthorized";
    kind = e.kind;
    code = e.code;
    fields = [];
    request_id = "";
  };
  log_level = warn;
}
map_found e forbidden = record {
  status = 403;
  resp = record { error = "forbidden"; kind = e.kind; code = e.code; fields = []; request_id = "" };
  log_level = warn;
}
map_found e conflict = record {
  status = 409;
  resp = record { error = "conflict"; kind = e.kind; code = e.code; fields = []; request_id = "" };
  log_level = warn;
}
map_found e internal = record {
  status = 500;
  resp = record {
    error = "internal server error";
    kind = e.kind;
    code = e.code;
    fields = [];
    request_id = "";
  };
  log_level = error;
}

map_as : Option Error → Response
map_as (some e) = map_found e e.kind
map_as none = record {
  status = 500;
  resp = record {
    error = "internal server error";
    kind = internal;
    code = "";
    fields = [];
    request_id = "";
  };
  log_level = error;
}

unfoldable pub map_err : GoError → Response
unfolding map_found map_as
map_err e = map_as (as_error e)

last_error : GoError → List GoError → GoError
last_error e [] = e
last_error e (f ∷ fs) = last_error f fs

-- `Error`, after the other handlers have run: the response that it writes, if it writes one.
unfoldable pub respond : String → List GoError → Bool → Option Response
unfolding last_error
respond request_id [] written = none
respond request_id (e ∷ es) written =
    let r = map_err (last_error e es) in
    if written then none else some (record r { resp = record r.resp { request_id = request_id } })

-- `APIKey`: the error that stops the chain, if there is one. A header that is missing is empty.
unfoldable pub api_key : String → String → Option GoError
api_key expected got =
    let op : String = "http.middleware.apikey" in
    if str_eq expected ""
    then some (new_error internal "API_KEY_NOT_CONFIGURED" op "api key not configured" [] no_cause)
    else if str_eq got "" || (if str_eq got expected then false else true)
    then some (new_error unauthorized "INVALID_API_KEY" op "invalid api key" [] no_cause)
    else none
