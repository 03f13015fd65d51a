-- ===== src/Api/Errors.antt =====
-- What a rejected promise carries, and frontend/src/lib/error-utils.ts.
use kafka_ui.Base.{Text, codes, if◌then◌else◌, truthy, ◌++◌}

-- `error_object name message` is an instance of Error, `other_value` anything else, with its String().
pub data Thrown : Type 0 where
  error_object : Text → Text → Thrown
  other_value : Text → Thrown

-- A promise that is resolved or rejected.
pub data Settled {ℓ} (A : Type ℓ) : Type ℓ where
  resolved : A → Settled A
  rejected : Thrown → Settled A

-- `String(e)`, by Error.prototype.toString on an Error.
unfoldable pub string_of : Thrown → Text
string_of (error_object name message) =
    if truthy name
    then if truthy message then name ++ (codes ": " ++ message) else name
    else message
string_of (other_value s) = s

unfoldable pub get_error_message : Thrown → Text
unfolding string_of
get_error_message (error_object name message) = message
get_error_message (other_value s) = string_of (other_value s)
