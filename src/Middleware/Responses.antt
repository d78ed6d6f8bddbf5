-- ===== src/Middleware/Responses.antt =====
-- What a client is told of an error.
use geo_notifications_servic.Prelude.{
  ℕ, String, ◌≡◌, ◌≢◌, ◌↔◌, refl, sym, ap, ◌∙◌, true, false, none, some, List, [], ◌∷◌, inl, inr,
  Option-cases, Bool-cases, str_eq, eq_iff, arith,
}
use geo_notifications_servic.Errs.{
  Fields, Kind, invalid, not_found, unauthorized, forbidden, conflict, internal, GoError, Error,
  as_error, wrap_error, caused_by,
}
use geo_notifications_servic.Errs.Laws.{Report, wrap_all, report, report-wrap_all}
use geo_notifications_servic.Middleware.{
  Response, LogLevel, warn, map_err, api_key, map_as, map_found,
}

-- The status of each kind.
abbrev pub status_of : Kind → ℕ
status_of invalid = 400
status_of not_found = 404
status_of unauthorized = 401
status_of forbidden = 403
status_of conflict = 409
status_of internal = 500

abbrev pub text_of : Kind → String
text_of invalid = "invalid request"
text_of not_found = "not found"
text_of unauthorized = "unauthorized"
text_of forbidden = "forbidden"
text_of conflict = "conflict"
text_of internal = "internal server error"

abbrev pub level_of : Kind → LogLevel
level_of internal = LogLevel.error
level_of _ = warn

abbrev pub fields_of : Kind → Fields → Fields
fields_of invalid fields = fields
fields_of _ fields = []

-- The response for what is reported of an error.
abbrev pub described : Report → Response
described r = record {
  status = status_of r.kind;
  resp = record {
    error = text_of r.kind;
    kind = r.kind;
    code = r.code;
    fields = fields_of r.kind r.fields;
    request_id = "";
  };
  log_level = level_of r.kind;
}

map_found_lem :
    (e : Error) (k : Kind)
    → e.kind ≡ k
    → map_found e k ≡ described (record { kind = k; code = e.code; fields = e.fields })
unfolding map_found
map_found_lem e invalid h = rw h refl
map_found_lem e not_found h = rw h refl
map_found_lem e unauthorized h = rw h refl
map_found_lem e forbidden h = rw h refl
map_found_lem e conflict h = rw h refl
map_found_lem e internal h = rw h refl

pub map_err-found :
    (e : GoError) (found : Error) → as_error e ≡ some found → map_err e ≡ described (report e)
unfolding map_err map_as
map_err-found e found h = rw h (map_found_lem found found.kind refl)

pub wrap_error-found :
    (op : String) (e : GoError) → (found : Error) × (as_error (wrap_error op e) ≡ some found)
unfolding wrap_error as_error
wrap_error-found op e = elim (Option-cases (as_error e)) [
  | inl missing ↦ (
    record {
      kind = internal;
      code = "INTERNAL";
      op = op;
      msg = "internal error";
      fields = [];
      err = caused_by e;
    },
    rw (missing, wrap_error) refl,
  )
  | inr (found, h) ↦ (record found { op = op; err = caused_by e }, rw (h, wrap_error) refl)
]

-- An error that at least one operation has wrapped is answered by the kind, the code and the fields
-- of the error that was raised: the status and the text of its kind, its code, and its fields only
-- if it is about an invalid request.
pub map_err-wrap_all :
    (op : String) (ops : List String) (e : GoError)
    → map_err (wrap_all (op ∷ ops) e) ≡ described (report e)
map_err-wrap_all op ops e =
    let (found, h) = wrap_error-found op (wrap_all ops e) in
    map_err-found (wrap_all (op ∷ ops) e) found h ∙ ap described (report-wrap_all (op ∷ ops) e)

differs : (s t : String) → (s ≢ t) ↔ (str_eq s t ≡ false)
differs s t = elim (Bool-cases (str_eq s t)) [
  | inl same ↦ (λ h. absurd (h ((eq_iff s t).0 same)), λ h. absurd (cc))
  | inr other ↦ (λ h. other, λ h e. absurd (let same = (eq_iff s t).1 e in cc))
]

api_key_tests :
    (expected got : String)
    → (api_key expected got ≡ none)
      ↔ ((str_eq expected "" ≡ false) × (str_eq got "" ≡ false) × (str_eq got expected ≡ true))
unfolding api_key
api_key_tests expected got = ground arith

-- A request passes exactly if a key is configured and the request has it.
pub api_key_iff :
    (expected got : String) → (api_key expected got ≡ none) ↔ ((expected ≢ "") × (got ≡ expected))
api_key_iff expected got =
    let (to, from) = api_key_tests expected got in
    (
      λ h. ((differs expected "").1 (to h).0, (eq_iff got expected).0 (to h).2),
      λ (configured, same). from (
        (differs expected "").0 configured,
        (differs got "").0 (λ e. configured (sym same ∙ e)),
        (eq_iff got expected).1 same,
      ),
    )
