-- ===== src/Metrics/TimeInput.antt =====
-- `parseTimeInput` and the durations of MetricsPage.tsx. Times are milliseconds since 1970. The
-- library chrono-node is a parameter, `none` where it finds no date.
pub mod Digits
pub mod Laws
use kafka_ui.Base.{
  ℕ, zero, suc, ◌+◌, ◌-◌, ◌*◌, Bool, true, false, not, ◌&&◌, ◌||◌, Option, none, some, List, [],
  ◌∷◌, ◌++◌, length, all, any, if◌then◌else◌, ltb, leb, ◌==◌, Text, codes, truthy, trim, trim_start,
  is_space, is_digit, decimal, ℤ, pos, negsuc, text_eq,
}

-- The longest run of units with a property at the front, and what is left.
unfoldable pub span : (ℕ → Bool) → Text → Text × Text
span p [] = ([], [])
span p (c ∷ t) = let (run, rest) = span p t in if p c then (c ∷ run, rest) else ([], c ∷ t)

unfoldable pub is_dash : ℕ → Bool
is_dash c = c == b'-' || c == 0x2013

-- `a - b` on naturals.
unfoldable pub minus : ℕ → ℕ → ℤ
minus a b = if leb b a then pos (a - b) else negsuc (b - a - 1)

unfoldable pub lower : ℕ → ℕ
lower c = if leb b'A' c && leb c b'Z' then c + 32 else c

abbrev pub lower_all : Text → Text
lower_all [] = []
lower_all (c ∷ t) = lower c ∷ lower_all t

abbrev pub Range : Type 0
Range = ℤ × ℤ

-- A number below 10^12 counts seconds.
unfoldable pub unix_ms : Text → ℤ
unix_ms ds = let n = decimal ds in pos (if ltb n 1000000000000 then n * 1000 else n)

abbrev pub is_unix : Text → Bool
is_unix ds = leb 9 (length ds) && leb (length ds) 13

-- /^(\d{9,13})\s*[-–]\s*(\d{9,13})$/; a run of digits is followed by something else, so each group
-- is the whole run.
unfoldable pub unix_range : Text → Option Range
unfolding span is_dash unix_ms trim_start
unix_range t =
    let (from, rest) = span is_digit t in
    elim (trim_start rest) [
      | [] ↦ none
      | d ∷ after ↦
          let (to, left) = span is_digit (trim_start after) in
          if is_unix from && is_dash d && is_unix to && not (truthy left)
          then some (unix_ms from, unix_ms to)
          else none
    ]

-- The units of `msMap`.
unfoldable pub unit_ms : Text → Option ℕ
unit_ms u =
    if text_eq u (codes "m") || text_eq u (codes "min")
    then some 60000
    else if text_eq u (codes "h") || text_eq u (codes "hour")
    then some 3600000
    else if text_eq u (codes "d") || text_eq u (codes "day")
    then some 86400000
    else if text_eq u (codes "w") || text_eq u (codes "week")
    then some 604800000
    else if text_eq u (codes "mo") || text_eq u (codes "month")
    then some 2592000000
    else none

-- The text without one "s" at its end.
unfoldable pub drop_s : Text → Text
drop_s [] = []
drop_s (c ∷ []) = if c == b's' then [] else c ∷ []
drop_s (c ∷ d ∷ t) = c ∷ drop_s (d ∷ t)

-- /^(\d+)\s*(m|min|h|hour|d|day|w|week|mo|month)s?$/i; no unit ends in "s".
unfoldable pub relative_ms : Text → Option ℕ
unfolding span lower unit_ms drop_s trim_start
relative_ms t =
    let (n, rest) = span is_digit t in
    if not (truthy n) then none else elim (unit_ms (drop_s (lower_all (trim_start rest)))) [
      | none ↦ none
      | some ms ↦ some (decimal n * ms)
    ]

abbrev pub has_line_end : Text → Bool
has_line_end t = any (λ c. c == 10 || c == 13 || c == 0x2028 || c == 0x2029) t

-- What follows a word, in any case, at the front.
unfoldable pub strip_word : Text → Text → Option Text
unfolding lower
strip_word [] t = some t
strip_word (w ∷ ws) [] = none
strip_word (w ∷ ws) (c ∷ t) = if lower c == w then strip_word ws t else none

-- What follows a run of one or more blanks.
unfoldable pub strip_blanks : Text → Option Text
unfolding trim_start
strip_blanks [] = none
strip_blanks (c ∷ t) = if is_space c then some (trim_start t) else none

abbrev pub non_empty_line : Text → Option Text
non_empty_line t = if truthy t && not (has_line_end t) then some t else none

abbrev pub then_do {ℓ} : {A : Type ℓ} {B : Type ℓ} → Option A → (A → Option B) → Option B
then_do none f = none
then_do (some a) f = f a

-- /^since\s+(.+)$/i
unfoldable pub since_group : Text → Option Text
unfolding strip_word strip_blanks
since_group t =
    then_do (strip_word (codes "since") t) (λ u. then_do (strip_blanks u) non_empty_line)

abbrev pub reverse_onto : Text → Text → Text
reverse_onto [] acc = acc
reverse_onto (c ∷ t) acc = reverse_onto t (c ∷ acc)

-- /^(.+)\s+to\s+now$/i, read from the end; the group takes all the blanks but one.
unfoldable pub to_now_group : Text → Option Text
unfolding strip_word strip_blanks
to_now_group t = then_do (strip_word (codes "won") (reverse_onto t [])) (λ u.
    then_do (strip_blanks u) (λ v. then_do (strip_word (codes "ot") v) (λ w. elim w [
      | [] ↦ none
      | c ∷ before ↦
          if is_space c
          then then_do (non_empty_line before) (λ b. some (reverse_onto b []))
          else none
    ])))

-- The parts before and after the first dash between blanks, /\s+[-–]\s+/; `before` is reversed.
unfoldable pub dash_parts : Text → Text → Option (Text × Text)
unfolding is_dash trim_start strip_blanks
dash_parts before [] = none
dash_parts before (c ∷ t) =
    let later = dash_parts (c ∷ before) t in
    let here : Option (Text × Text) = elim (trim_start (c ∷ t)) [
      | [] ↦ none
      | d ∷ after ↦
          if is_dash d
          then then_do (strip_blanks after) (λ to. some (reverse_onto before [], to))
          else none
    ] in
    if is_space c then elim here [ none ↦ later | some parts ↦ some parts ] else later

module _ (parse_date : Text → Option ℤ) (now : ℕ) where
  abbrev pub until_now : Option ℤ → Option Range
  until_now none = none
  until_now (some from) = some (from, pos now)

  -- The cases that fall through to the next where chrono finds nothing.
  abbrev pub or_next : Option Range → Option Range → Option Range
  or_next none next = next
  or_next (some r) next = some r

  abbrev pub dash_range : Text → Option Range
  dash_range t = elim (dash_parts [] t) [
    | none ↦ none
    | some (from_text, to_text) ↦
        if truthy from_text
        then then_do (parse_date from_text)
            (λ from. then_do (parse_date to_text) (λ to. some (from, to)))
        else none
  ]

  -- Of a text that is trimmed and not empty.
  unfoldable pub parse_trimmed : Text → Option Range
  parse_trimmed t = elim (unix_range t) [
    | some r ↦ some r
    | none ↦ elim (relative_ms t) [
      | some ms ↦ some (minus now ms, pos now)
      | none ↦ or_next (then_do (since_group t) (λ u. until_now (parse_date u))) (
          or_next (then_do (to_now_group t) (λ u. until_now (parse_date u)))
            (or_next (dash_range t) (until_now (parse_date t))))
    ]
  ]

  unfoldable pub parse_time_input : Text → Option Range
  parse_time_input input = let t = trim input in if not (truthy t) then none else parse_trimmed t
