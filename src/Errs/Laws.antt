-- ===== src/Errs/Laws.antt =====
-- What wrapping keeps: a handler far up the stack sees the kind, the code and the fields of the
-- error that was raised first, and still finds the library's error below it.
use geo_notifications_servic.Prelude.{
  String, ◌≡◌, refl, Option, none, some, List, [], ◌∷◌, ◌⊎◌, inl, inr, ◌∙◌, Option-cases,
}
use geo_notifications_servic.Errs.{Kind, internal, Fields, GoError, Error, as_error, wrap_error}

-- What `mapErr` reports of an error once it has been wrapped: `Wrap` gives one that has no *errs.Error
-- the kind internal and the code INTERNAL.
pub record Report : Type 0 where
  pub kind : Kind
  pub code : String
  pub fields : Fields

abbrev report_of : Option Error → Report
report_of (some e) = record { kind = e.kind; code = e.code; fields = e.fields }
report_of none = record { kind = internal; code = "INTERNAL"; fields = [] }

abbrev pub report : GoError → Report
report e = report_of (as_error e)

-- The error after a chain of calls has wrapped it, the innermost call last in the list.
abbrev pub wrap_all : List String → GoError → GoError
wrap_all [] e = e
wrap_all (op ∷ ops) e = wrap_error op (wrap_all ops e)

pub report-wrap_error : (op : String) (e : GoError) → report (wrap_error op e) ≡ report e
unfolding wrap_error
report-wrap_error op e = elim (Option-cases (as_error e)) [
  | inl missing ↦ rw (missing, wrap_error)
  | inr (found, h) ↦ rw (h, wrap_error)
]

-- Wrapping by any chain of operations keeps the report.
pub report-wrap_all : (ops : List String) (e : GoError) → report (wrap_all ops e) ≡ report e
report-wrap_all [] e = refl
report-wrap_all (op ∷ ops) e = report-wrap_error op (wrap_all ops e) ∙ report-wrap_all ops e

-- What is kept of the *errs.Error of an error, when the error is wrapped: everything but the operation
-- and the cause. An error with none may get that of an internal error.
abbrev pub IsKept : Option Error → Option Error → Type 0
IsKept (some e) wrapped =
    (kept : Error) × (wrapped ≡ some kept)
    × (kept.kind ≡ e.kind)
    × (kept.code ≡ e.code)
    × (kept.msg ≡ e.msg)
    × (kept.fields ≡ e.fields)
IsKept none wrapped =
    (wrapped ≡ none)
    ⊎ ((kept : Error) × (wrapped ≡ some kept)
        × (kept.kind ≡ internal)
        × (kept.code ≡ "INTERNAL")
        × (kept.msg ≡ "internal error")
        × (kept.fields ≡ []))
