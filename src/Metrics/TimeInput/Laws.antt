-- ===== src/Metrics/TimeInput/Laws.antt =====
-- Which ranges the typed texts mean.
use kafka_ui.Base.{
  ℕ, ◌*◌, ◌≡◌, refl, true, false, Option, none, some, List, [], ◌∷◌, ◌++◌, any, text_eq, All,
  All-append, arith, Text, codes, truthy, trim, trim_start, is_space, is_digit, decimal, IsDigits,
  ℤ, pos, IsSolid,
}
use kafka_ui.Metrics.TimeInput.{
  is_dash, minus, lower, lower_all, unix_ms, is_unix, unix_range, unit_ms, drop_s, relative_ms,
  parse_trimmed, parse_time_input,
}
use kafka_ui.Metrics.TimeInput.Digits.{
  span_digits, span_all, digits-IsSolid, any-IsSolid, trim_start_solid, trim_solid, truthy_append,
}

-- A number of digits and a unit is not a pair of Unix times.
unix_range-unit :
    (ds : Text) (c : ℕ) (u : Text)
    → IsDigits ds
    → is_digit c ≡ false
    → is_dash c ≡ false
    → is_space c ≡ false
    → unix_range (ds ++ (c ∷ u)) ≡ none
unfolding unix_range
unix_range-unit ds c u h n d s =
    let start : trim_start (c ∷ u) ≡ c ∷ u = unfold trim_start in rw s refl in
    rw (span_digits ds c u h n, unix_range, start, d) (ground arith)

relative_ms-unit :
    (ds : Text) (c : ℕ) (u : Text) (ms : ℕ)
    → IsDigits ds
    → truthy ds ≡ true
    → is_digit c ≡ false
    → is_space c ≡ false
    → unit_ms (drop_s (lower_all (c ∷ u))) ≡ some ms
    → relative_ms (ds ++ (c ∷ u)) ≡ some (decimal ds * ms)
unfolding relative_ms
relative_ms-unit ds c u ms h filled n s unit =
    let start : trim_start (c ∷ u) ≡ c ∷ u = unfold trim_start in rw s refl in
    rw (span_digits ds c u h n, relative_ms, filled, start, unit, span_digits ds c u h n) refl

dash_solid : (d : ℕ) → is_dash d ≡ true → is_space d ≡ false
unfolding is_dash is_space
dash_solid d h = ground arith

dash_no_digit : (d : ℕ) → is_dash d ≡ true → is_digit d ≡ false
unfolding is_dash is_digit
dash_no_digit d h = ground arith

unix_range-digits :
    (from to : Text) (d : ℕ)
    → IsDigits from
    → IsDigits to
    → is_unix from ≡ true
    → is_unix to ≡ true
    → is_dash d ≡ true
    → unix_range (from ++ (d ∷ to)) ≡ some (unix_ms from, unix_ms to)
unfolding unix_range unix_ms
unix_range-digits from to d hf ht uf ut hd =
    let first = span_digits from d to hf (dash_no_digit d hd) in
    let start : trim_start (d ∷ to) ≡ d ∷ to = unfold trim_start in rw (dash_solid d hd) refl in
    rw
      (
        first,
        unix_range,
        start,
        trim_start_solid to (digits-IsSolid to ht),
        span_all to ht,
        first,
        uf,
        ut,
        hd,
      )
      refl

module _ (parse_date : Text → Option ℤ) (now : ℕ) where
  trimmed_lem :
      (ds : Text) (c : ℕ) (u : Text) (ms : ℕ)
      → unix_range (ds ++ (c ∷ u)) ≡ none
      → relative_ms (ds ++ (c ∷ u)) ≡ some (decimal ds * ms)
      → parse_trimmed parse_date now (ds ++ (c ∷ u)) ≡ some (minus now (decimal ds * ms), pos now)
  unfolding parse_trimmed
  trimmed_lem ds c u ms no_unix relative = rw (no_unix, parse_trimmed, relative) refl

  unit_lem :
      (ds : Text) (c : ℕ) (u : Text) (ms : ℕ)
      → IsDigits ds
      → truthy ds ≡ true
      → is_digit c ≡ false
      → is_dash c ≡ false
      → IsSolid (c ∷ u)
      → unit_ms (drop_s (lower_all (c ∷ u))) ≡ some ms
      → parse_time_input parse_date now (ds ++ (c ∷ u))
        ≡ some (minus now (decimal ds * ms), pos now)
  unfolding parse_time_input
  unit_lem ds c u ms h filled n d solid unit =
      let whole : trim (ds ++ (c ∷ u)) ≡ ds ++ (c ∷ u) =
        trim_solid (ds ++ (c ∷ u)) (All-append _ ds (c ∷ u) (digits-IsSolid ds h) solid) in
      rw (parse_time_input, whole, truthy_append ds c u)
        (trimmed_lem ds c u ms (unix_range-unit ds c u h n d solid.0)
          (relative_ms-unit ds c u ms h filled n solid.0 unit))

  -- The units as they may be typed after a number, each with its length.
  abbrev pub typed_units : List (Text × ℕ)
  typed_units =
      (codes "m", 60000)
      ∷ (codes "min", 60000)
      ∷ (codes "mins", 60000)
      ∷ (codes "h", 3600000)
      ∷ (codes "H", 3600000)
      ∷ (codes "hour", 3600000)
      ∷ (codes "Hours", 3600000)
      ∷ (codes "d", 86400000)
      ∷ (codes "day", 86400000)
      ∷ (codes "days", 86400000)
      ∷ (codes "w", 604800000)
      ∷ (codes "weeks", 604800000)
      ∷ (codes "mo", 2592000000)
      ∷ (codes "MONTHS", 2592000000)
      ∷ []

  typed :
      (ds : Text) (c : ℕ) (u : Text) (ms : ℕ)
      → IsDigits ds
      → truthy ds ≡ true
      → is_digit c ≡ false
      → is_dash c ≡ false
      → any is_space (c ∷ u) ≡ false
      → unit_ms (drop_s (lower_all (c ∷ u))) ≡ some ms
      → parse_time_input parse_date now (ds ++ (c ∷ u))
        ≡ some (minus now (decimal ds * ms), pos now)
  typed ds c u ms h f n d s unit = unit_lem ds c u ms h f n d (any-IsSolid (c ∷ u) s) unit

  -- A whole number with a unit asks for that long a time before now, up to now.
  parse_time_input-units :
      (ds : Text)
      → IsDigits ds
      → truthy ds ≡ true
      → All
          (λ u.
            parse_time_input parse_date now (ds ++ u.0)
            ≡ some (minus now (decimal ds * u.1), pos now))
          typed_units
  unfolding is_digit is_dash is_space unit_ms drop_s lower text_eq
  parse_time_input-units ds h f = (
    typed ds b'm' ([]) 60000 h f refl refl refl refl,
    (
      typed ds b'm' (b'i' ∷ b'n' ∷ []) 60000 h f refl refl refl refl,
      (
        typed ds b'm' (b'i' ∷ b'n' ∷ b's' ∷ []) 60000 h f refl refl refl refl,
        (
          typed ds b'h' ([]) 3600000 h f refl refl refl refl,
          (
            typed ds b'H' ([]) 3600000 h f refl refl refl refl,
            (
              typed ds b'h' (b'o' ∷ b'u' ∷ b'r' ∷ []) 3600000 h f refl refl refl refl,
              (
                typed ds b'H' (b'o' ∷ b'u' ∷ b'r' ∷ b's' ∷ []) 3600000 h f refl refl refl refl,
                (
                  typed ds b'd' ([]) 86400000 h f refl refl refl refl,
                  (
                    typed ds b'd' (b'a' ∷ b'y' ∷ []) 86400000 h f refl refl refl refl,
                    (
                      typed ds b'd' (b'a' ∷ b'y' ∷ b's' ∷ []) 86400000 h f refl refl refl refl,
                      (
                        typed ds b'w' ([]) 604800000 h f refl refl refl refl,
                        (
                          typed ds b'w' (b'e' ∷ b'e' ∷ b'k' ∷ b's' ∷ []) 604800000 h f refl refl
                              refl refl,
                          (
                            typed ds b'm' (b'o' ∷ []) 2592000000 h f refl refl refl refl,
                            (
                              typed ds b'M' (b'O' ∷ b'N' ∷ b'T' ∷ b'H' ∷ b'S' ∷ []) 2592000000 h f
                                  refl refl refl refl,
                              tt,
                            ),
                          ),
                        ),
                      ),
                    ),
                  ),
                ),
              ),
            ),
          ),
        ),
      ),
    ),
  )

  -- Two Unix times of nine to thirteen digits with a dash between them mean the range from the one
  -- to the other, each taken for seconds below 10^12 and for milliseconds from there on.
  parse_time_input-unix :
      (from to : Text) (d : ℕ)
      → IsDigits from
      → IsDigits to
      → is_unix from ≡ true
      → is_unix to ≡ true
      → is_dash d ≡ true
      → parse_time_input parse_date now (from ++ (d ∷ to)) ≡ some (unix_ms from, unix_ms to)
  unfolding parse_time_input parse_trimmed
  parse_time_input-unix from to d hf ht uf ut hd =
      let solid : IsSolid (from ++ (d ∷ to)) =
        All-append _ from (d ∷ to) (digits-IsSolid from hf)
          (dash_solid d hd, digits-IsSolid to ht) in
      rw
        (
          parse_time_input,
          trim_solid (from ++ (d ∷ to)) solid,
          truthy_append from d to,
          parse_trimmed,
          unix_range-digits from to d hf ht uf ut hd,
        )
        refl
