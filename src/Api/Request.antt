-- ===== src/Api/Request.antt =====
-- The function `request` of frontend/src/lib/api.ts.
use kafka_ui.Base.{
  ℕ, Bool, true, false, not, ◌&&◌, Option, none, some, if◌then◌else◌, leb, ◌==◌, Text, codes,
  truthy, starts_with,
}
use kafka_ui.Api.Errors.{Thrown, error_object, Settled, resolved, rejected}

-- What `res.json()` gives: it may fail, and a value may have a field `error`.
pub data Json : Type 0 where
  unparsable : Thrown → Json
  null_value : Json
  value : Option Text → Json

pub record Response : Type 0 where
  pub status : ℕ
  pub status_text : Text
  pub json : Json

-- `fetch`, settled.
pub data Reply : Type 0 where
  failed : Thrown → Reply
  replied : Response → Reply

pub record Outcome : Type 0 where
  pub result : Settled Json
  pub reloads : Bool

abbrev pub is_ok : Response → Bool
is_ok r = leb 200 r.status && leb r.status 299

abbrev pub new_error : Text → Thrown
new_error message = error_object (codes "Error") message

-- `null_error` is the TypeError of a field of null.
module _ (null_error : Thrown) where
  unfoldable pub error_of : Response → Thrown
  error_of r = elim r.json [
    | unparsable e ↦ new_error r.status_text
    | null_value ↦ null_error
    | value error ↦ elim error [
      | none ↦ new_error r.status_text
      | some t ↦ new_error (if truthy t then t else r.status_text)
    ]
  ]

  unfoldable pub request : Text → Reply → Outcome
  unfolding error_of
  request path (failed e) = record { result = rejected e; reloads = false }
  request path (replied r) =
      if not (is_ok r)
      then if r.status == 401 && not (starts_with path (codes "/auth/login"))
        then record { result = rejected (new_error (codes "Unauthorized")); reloads = true }
        else record { result = rejected (error_of r); reloads = false }
      else elim r.json [
        | unparsable e ↦ record { result = rejected e; reloads = false }
        | null_value ↦ record { result = resolved null_value; reloads = false }
        | value error ↦ record { result = resolved (value error); reloads = false }
      ]
