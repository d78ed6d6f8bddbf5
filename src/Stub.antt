-- ===== src/Stub.antt =====
-- cmd/webhook-test/main.go: a server that stands in for the webhook's target. What net/http and
-- net/url do is a parameter; what the server prints of a request is left out.
pub mod Delivery
use geo_notifications_servic.Prelude.{
  ℕ, ◌⊎◌, inl, inr, Bool, true, false, Option, none, some, String, List, [], ◌∷◌, str_eq,
  if◌then◌else◌,
}
use geo_notifications_servic.Errs.{GoError, error_text}

-- The answer to a request: its status and text.
pub record Response : Type 0 where
  pub status : ℕ
  pub text : String

-- A request: whether it is a POST, its path, and its body, where that can be read.
pub record Incoming : Type 0 where
  pub is_post : Bool
  pub path : String
  pub body : Option String

-- encoding/json into a map: the error of a text.
abbrev pub IsObject : Type 0
IsObject = String → Option GoError

unfoldable pub decoded : Option GoError → Response
decoded (some e) = record { status = 400; text = "Invalid JSON\n" }
decoded none = record { status = 200; text = "OK" }

unfoldable pub posted : IsObject → Option String → Response
unfolding decoded
posted unmarshal none = record { status = 400; text = "Bad request\n" }
posted unmarshal (some body) = decoded (unmarshal body)

-- The function that `HandleFunc` is given.
unfoldable pub respond : IsObject → Incoming → Response
unfolding posted
respond unmarshal req =
    if req.is_post
    then posted unmarshal req.body
    else record { status = 405; text = "Method not allowed\n" }

-- `os.Getenv("WEBHOOK_URL")` or its default
unfoldable pub webhook_url : String → String
webhook_url value = if str_eq value "" then "http://localhost:9090/webhook" else value

-- What the server does, in order. It listens at an address for a path; Fatalf ends the program.
pub data Event : Type 0 where
  fatal : String → String → Event
  started : (addr path : String) → Event
  shutting_down closed : Event

pub record Url : Type 0 where
  pub host : String
  pub path : String

-- The outcome of `ListenAndServe` before a signal: an error other than ErrServerClosed, or none.
listened : Option GoError → List Event
listened (some e) = fatal "Server failed: " (error_text e) ∷ []
listened none = shutting_down ∷ closed ∷ []

parsed : Option GoError → GoError ⊎ Url → List Event
unfolding listened
parsed failure (inl e) = fatal "Invalid target URL: " (error_text e) ∷ []
parsed failure (inr url) = started url.host url.path ∷ listened failure

-- `main`, with the value of the variable, url.Parse, and how listening ends.
unfoldable pub main : String → (String → GoError ⊎ Url) → Option GoError → List Event
unfolding parsed
main value parse failure = parsed failure (parse (webhook_url value))
