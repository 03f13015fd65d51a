-- ===== src/Metrics/Picker.antt =====
-- The range picker of MetricsPage.tsx and the request that follows from it, with `api.metrics.get`
-- of lib/api.ts.
pub mod Laws
pub mod Requests
use kafka_ui.Base.{
  ℕ, ◌+◌, ◌*◌, Bool, true, false, not, ◌&&◌, ◌||◌, Option, none, some, List, [], ◌∷◌, ◌++◌,
  get_elem?, if◌then◌else◌, leb, Text, codes, truthy, text_eq, is_digit, decimal, ℤ, pos, negsuc,
}
use kafka_ui.Metrics.TimeInput.{span, Range, parse_time_input}

pub record Preset : Type 0 where
  pub key : Text
  pub duration : Text
  pub live : Bool

abbrev pub preset : Text → Text → Preset
preset key duration = record { key = key; duration = duration; live = false }

abbrev pub presets : List Preset
presets =
    record { key = codes "live"; duration = codes "live"; live = true }
    ∷ preset (codes "15m") (codes "15m")
    ∷ preset (codes "1h") (codes "1h")
    ∷ preset (codes "4h") (codes "4h")
    ∷ preset (codes "1d") (codes "1d")
    ∷ preset (codes "2d") (codes "2d")
    ∷ preset (codes "3d") (codes "3d")
    ∷ preset (codes "7d") (codes "7d")
    ∷ preset (codes "15d") (codes "15d")
    ∷ preset (codes "1mo") (codes "30d")
    ∷ []

abbrev pub more_presets : List Preset
more_presets =
    preset (codes "45m") (codes "45m")
    ∷ preset (codes "12h") (codes "12h")
    ∷ preset (codes "2w") (codes "14d")
    ∷ []

abbrev pub all_presets : List Preset
all_presets = presets ++ more_presets

abbrev pub find_preset : Text → List Preset → Option Preset
find_preset key [] = none
find_preset key (p ∷ ps) = if text_eq p.key key then some p else find_preset key ps

-- /^(\d+)(m|h|d)$/
unfoldable pub parse_duration_ms : Text → ℕ
unfolding span
parse_duration_ms d =
    let (n, unit) = span is_digit d in
    if not (truthy n)
    then 3600000
    else if text_eq unit (codes "m")
    then decimal n * 60000
    else if text_eq unit (codes "h")
    then decimal n * 3600000
    else if text_eq unit (codes "d")
    then decimal n * 86400000
    else 3600000

-- The range by which the axis is labelled; `ms` is the length of the custom range, `none` is NaN.
unfoldable pub effective_range : Option (Option ℤ) → Text → Text
effective_range none preset = preset
effective_range (some none) preset = codes "1h"
effective_range (some (some (negsuc n))) preset = codes "1h"
effective_range (some (some (pos ms))) preset =
    if leb (168 * 3600000) ms
    then codes "30d"
    else if leb (72 * 3600000) ms
    then codes "7d"
    else if leb (24 * 3600000) ms
    then codes "1d"
    else if leb (4 * 3600000) ms
    then codes "4h"
    else codes "1h"

-- `live_from` is `liveStartRef.current`.
pub record Picker : Type 0 where
  pub is_open : Bool
  pub selected_preset : Option Text
  pub custom_range : Option (Text × Text)
  pub input_value : Text
  pub show_more : Bool
  pub show_calendar : Bool
  pub cal_from : Text
  pub cal_to : Text
  pub live_from : Option Text

abbrev pub initial_picker : Picker
initial_picker = record {
  is_open = false;
  selected_preset = some (codes "1h");
  custom_range = none;
  input_value = [];
  show_more = false;
  show_calendar = false;
  cal_from = [];
  cal_to = [];
  live_from = none;
}

abbrev pub is_live : Picker → Bool
is_live p = elim p.selected_preset [ none ↦ false | some k ↦ text_eq k (codes "live") ]

-- `now` is the current time as text.
unfoldable pub select_preset : Text → Preset → Picker → Picker
select_preset now q p = record p {
  selected_preset = some q.key;
  custom_range = none;
  input_value = [];
  live_from = if q.live then some now else none;
  is_open = false;
}

unfoldable pub set_custom : Text → Text → Picker → Picker
set_custom from to p = record p {
  custom_range = some (from, to);
  selected_preset = none;
  is_open = false;
}

-- `iso` is `toISOString`, `none` where it throws, and `local_iso` that of a calendar field's date.
module _ (iso : ℤ → Option Text) (local_iso : Text → Option Text)
    (parse_date : Text → Option ℤ) where
  -- An exception leaves the state as it was.
  unfoldable pub submit : ℕ → Text → Picker → Picker
  unfolding set_custom
  submit now input p = elim (parse_time_input parse_date now input) [
    | none ↦ p
    | some (from, to) ↦ elim (iso from) [
      | none ↦ p
      | some f ↦ elim (iso to) [ none ↦ p | some t ↦ set_custom f t p ]
    ]
  ]

  unfoldable pub example_click : ℕ → Text → Picker → Picker
  unfolding submit
  example_click now example p = submit now example (record p { input_value = example })

  unfoldable pub calendar_apply : Text → Picker → Picker
  unfolding set_custom
  calendar_apply now p =
      if truthy p.cal_from
      then elim (local_iso p.cal_from) [
        | none ↦ p
        | some f ↦ elim (if truthy p.cal_to then local_iso p.cal_to else some now) [
          | none ↦ p
          | some t ↦ set_custom f t p
        ]
      ]
      else p

-- What the request asks for.
pub data Asked : Type 0 where
  window : Text → Option Text → Asked
  past : Text → Asked
  nothing : Asked

-- `api.metrics.get`
unfoldable pub metrics_query : Option Text → Option Text → Option Text → Asked
metrics_query range from to =
    let by_range : Asked = elim range [
      | none ↦ nothing
      | some r ↦ if truthy r then past r else nothing
    ] in
    elim from [
      | none ↦ by_range
      | some f ↦
          if truthy f
          then window f (elim to [ none ↦ none | some t ↦ if truthy t then some t else none ])
          else by_range
    ]

abbrev pub duration_of : Option Text → Text
duration_of none = codes "1h"
duration_of (some k) = elim (find_preset k all_presets) [ none ↦ codes "1h" | some q ↦ q.duration ]

abbrev pub api_range : Picker → Option Text
api_range p = elim p.custom_range [
  | some r ↦ none
  | none ↦ if is_live p then none else some (duration_of p.selected_preset)
]

-- The query's function, at the time `now`.
unfoldable pub asked : Text → Picker → Asked
unfolding metrics_query
asked now p =
    let otherwise : Asked = elim p.custom_range [
      | some (from, to) ↦ metrics_query none (some from) (some to)
      | none ↦ metrics_query (api_range p) none none
    ] in
    if is_live p
    then elim p.live_from [
      | none ↦ otherwise
      | some f ↦ if truthy f then metrics_query none (some f) (some now) else otherwise
    ]
    else otherwise

-- `refetchInterval` in milliseconds, `none` for false.
unfoldable pub refetch_interval : Picker → Option ℕ
refetch_interval p = elim p.selected_preset [
  | none ↦ none
  | some k ↦ elim p.custom_range [ some r ↦ none | none ↦ some (if is_live p then 5000 else 30000) ]
]

pub data Event : Type 0 where
  -- The time as a number and as text, when an event reads it.
  preset_clicked : ℕ → Text → Event
  input_typed : Text → Event
  entered : ℕ → Event
  example_clicked : ℕ → Text → Event
  cal_from_typed cal_to_typed : Text → Event
  applied : Text → Event
  calendar_toggled more_toggled : Event
  opened_changed : Bool → Event

module _ (iso : ℤ → Option Text) (local_iso : Text → Option Text)
    (parse_date : Text → Option ℤ) where
  -- The controls are in the popover, but for the one that opens it.
  abbrev pub in_popover : Picker → (Picker → Picker) → Picker
  in_popover p change = if p.is_open then change p else p

  unfoldable pub act : Picker → Event → Picker
  unfolding select_preset submit example_click calendar_apply
  act p (preset_clicked i now) = in_popover p (λ q.
      elim (get_elem? (if q.show_more then all_presets else presets) i) [
        | none ↦ q
        | some r ↦ select_preset now r q
      ])
  act p (input_typed v) = in_popover p (λ q. record q { input_value = v })
  act p (entered now) = in_popover p (λ q. submit iso local_iso parse_date now q.input_value q)
  act p (example_clicked now v) = in_popover p (example_click iso local_iso parse_date now v)
  act p (cal_from_typed v) =
      in_popover p (λ q. if q.show_calendar then record q { cal_from = v } else q)
  act p (cal_to_typed v) =
      in_popover p (λ q. if q.show_calendar then record q { cal_to = v } else q)
  act p (applied now) =
      in_popover p
        (λ q. if q.show_calendar then calendar_apply iso local_iso parse_date now q else q)
  act p calendar_toggled = in_popover p (λ q. record q { show_calendar = not q.show_calendar })
  act p more_toggled = in_popover p (λ q. record q { show_more = not q.show_more })
  act p (opened_changed b) = record p { is_open = b }

  unfoldable pub run : Picker → List Event → Picker
  unfolding act
  run p [] = p
  run p (e ∷ es) = run (act p e) es
