-- ===== src/Metrics/Format.antt =====
-- How MetricsPage.tsx writes numbers and times. JavaScript's numbers are a parameter with the
-- operations that are used, since a sample's value is a fraction; so are the formats of a locale.
pub mod Laws
use kafka_ui.Base.{
  ℕ, suc, ◌+◌, ◌*◌, ◌/◌, ◌%◌, Bool, true, false, ◌||◌, List, [], ◌∷◌, ◌++◌, any, if◌then◌else◌,
  Text, codes, text_eq, includes, leb, length, ℤ, pos, negsuc,
}
use kafka_ui.Api.Errors.{Settled, resolved, rejected}

pub record Numbers : Type 1 where
  pub Number : Type 0
  pub abs : Number → Number
  -- `value >= n` and `value / n`
  pub at_least : Number → ℕ → Bool
  pub over : Number → ℕ → Number
  pub to_fixed : Number → ℕ → Text
  pub is_integer : Number → Bool
  pub to_string : Number → Text

module _ (n : Numbers) where
  open n use {Number, abs, at_least, over, to_fixed, is_integer, to_string}

  unfoldable pub format_compact_number : Number → Text
  format_compact_number value =
      if at_least (abs value) 1000000000
      then to_fixed (over value 1000000000) 1 ++ codes "G"
      else if at_least (abs value) 1000000
      then to_fixed (over value 1000000) 1 ++ codes "M"
      else if at_least (abs value) 1000
      then to_fixed (over value 1000) 1 ++ codes "K"
      else if is_integer value
      then to_string value
      else to_fixed value 2

  unfoldable pub format_bytes : Number → Text
  format_bytes value =
      if at_least (abs value) 1073741824
      then to_fixed (over value 1073741824) 1 ++ codes " GB"
      else if at_least (abs value) 1048576
      then to_fixed (over value 1048576) 1 ++ codes " MB"
      else if at_least (abs value) 1024
      then to_fixed (over value 1024) 1 ++ codes " KB"
      else to_fixed value 0 ++ codes " B"

  unfoldable pub format_seconds : Number → Text
  format_seconds value =
      if at_least value 3600
      then to_fixed (over value 3600) 1 ++ codes "h"
      else if at_least value 60
      then to_fixed (over value 60) 1 ++ codes "m"
      else to_fixed value 1 ++ codes "s"

  unfoldable pub format_milliseconds : Number → Text
  format_milliseconds value =
      if at_least value 60000
      then to_fixed (over value 60000) 1 ++ codes "m"
      else if at_least value 1000
      then to_fixed (over value 1000) 1 ++ codes "s"
      else to_fixed value 0 ++ codes "ms"

  unfoldable pub format_metric_value : Number → Text → Text
  format_metric_value value name =
      if includes name (codes "bytes") || includes name (codes "memory")
      then format_bytes value
      else if includes name (codes "seconds") || includes name (codes "duration")
      then format_seconds value
      else if includes name (codes "milliseconds") || includes name (codes "_ms")
      then format_milliseconds value
      else if includes name (codes "rate") || includes name (codes "persec")
      then format_compact_number value ++ codes "/s"
      else format_compact_number value

-- The three ways in which a date is written, by `date`, `minutes` and `seconds`.
module _ (date minutes seconds : Text → Text) where
  unfoldable pub format_time : Text → Text → Text
  format_time iso range =
      if any (text_eq range)
        (codes "2d" ∷ codes "3d" ∷ codes "7d" ∷ codes "14d" ∷ codes "15d" ∷ codes "30d" ∷ [])
      then date iso
      else if any (text_eq range)
          (codes "4h" ∷ codes "6h" ∷ codes "12h" ∷ codes "24h" ∷ codes "1d" ∷ [])
      then minutes iso
      else seconds iso

-- `s.padStart(2, "0")`
abbrev pub pad_two : Text → Text
pad_two [] = codes "00"
pad_two (c ∷ []) = b'0' ∷ c ∷ []
pad_two s = s

-- `digits` is `String` of a natural number, `zone` the browser's time zone with its offset in minutes,
-- positive to the west of Greenwich.
unfoldable pub get_timezone : (ℕ → Text) → Settled (Text × ℤ) → Text
get_timezone digits (rejected e) = codes "Local"
get_timezone digits (resolved (tz, offset)) =
    let minutes : ℕ = elim offset [ pos n ↦ n | negsuc n ↦ suc n ] in
    let sign : Text = elim offset [
      | pos n ↦ if leb n 0 then codes "+" else codes "-"
      | negsuc n ↦ codes "+"
    ] in
    tz
    ++ (codes " (UTC"
        ++ (sign
            ++ (pad_two (digits (minutes / 60))
                ++ (codes ":" ++ (pad_two (digits (minutes % 60)) ++ codes ")")))))
