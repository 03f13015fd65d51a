-- ===== src/Metrics/Tests.antt =====
-- The metrics page's theorems on concrete input.
use kafka_ui.Base.{
  ◌↔◌, ◌≡◌, ◌⊎◌, refl, true, false, Option, none, some, List, [], ◌∷◌, if◌then◌else◌, All, Text,
  codes, ℤ, pos, text_eq, is_digit, is_space, trim, decimal, trim_start, ℕ, ◌/◌, leb, map, keep,
  concat, includes, starts_with,
}
use kafka_ui.Metrics.TimeInput.{
  minus, parse_time_input, parse_trimmed, unix_range, relative_ms, since_group, to_now_group,
  dash_parts,
}
use kafka_ui.Api.Messages.{Headers}
use kafka_ui.Metrics.Format.{Numbers, format_metric_value, format_seconds, format_milliseconds}
use kafka_ui.Metrics.Format.Laws.{milliseconds_as_seconds}
use kafka_ui.Metrics.Groups.{
  MetricDetail, MetricGroup, has_metrics, filtered_groups, is_metric_match, initial_section,
  toggle_expanded, on_select, charts, metric_row,
}
use kafka_ui.Metrics.Groups.Laws.{IsFound, filtered_groups-metrics}
use kafka_ui.Metrics.Picker.{
  initial_picker, parse_duration_ms, effective_range, Event, opened_changed, preset_clicked, run,
}
use kafka_ui.Metrics.Picker.Requests.{IsCustom, IsLiveView, IsPast, run-asked}

-- A library that knows two dates.
abbrev parse_date : Text → Option ℤ
parse_date t =
    if text_eq t (codes "Mar 1")
    then some (pos 1000)
    else if text_eq t (codes "Mar 2")
    then some (pos 2000)
    else none

parsed : Unit {0}
unfolding parse_time_input parse_trimmed unix_range relative_ms since_group to_now_group dash_parts
    trim text_eq is_digit decimal trim_start is_space minus
parsed = tt

ranges :
    (parse_time_input parse_date 9000 (codes "Mar 1 - Mar 2") ≡ some (pos 1000, pos 2000))
    × (parse_time_input parse_date 9000 (codes "since Mar 2") ≡ some (pos 2000, pos 9000))
    × (parse_time_input parse_date 9000 (codes " Mar 1 to now ") ≡ some (pos 1000, pos 9000))
    × (parse_time_input parse_date 90000000 (codes "2 Hours") ≡ some (pos 82800000, pos 90000000))
    × (parse_time_input parse_date 9000 (codes "soon") ≡ none)
unfolding parsed
ranges = (refl, refl, refl, refl, refl)

durations :
    (parse_duration_ms (codes "15m") ≡ 900000)
    × (parse_duration_ms (codes "30d") ≡ 2592000000)
    × (parse_duration_ms (codes "live") ≡ 3600000)
    × (effective_range (some (some (pos 100000000))) (codes "1h") ≡ codes "1d")
unfolding parse_duration_ms effective_range is_digit text_eq decimal
durations = (refl, refl, refl, refl)

abbrev clicks : List Event
clicks = opened_changed true ∷ preset_clicked 0 (codes "2026") ∷ []

run-asked_example :
    let p = run (λ n. some (codes "t")) (λ t. some t) parse_date initial_picker clicks in
    IsCustom p (codes "2027") ⊎ (IsLiveView p (codes "2027") ⊎ IsPast p (codes "2027"))
run-asked_example = run-asked (λ n. some (codes "t")) (λ t. some t) parse_date clicks (codes "2027")

-- Natural numbers, of which every one is an integer.
abbrev naturals : Numbers
naturals = record {
  Number = ℕ;
  abs = λ v. v;
  at_least = λ v n. leb n v;
  over = λ v n. v / n;
  to_fixed = λ v n. b'#' ∷ [];
  is_integer = λ v. true;
  to_string = λ v. b'#' ∷ [];
}

milliseconds-IsNamed :
    (includes (codes "lag_milliseconds") (codes "milliseconds") ≡ true)
    × (includes (codes "lag_milliseconds") (codes "bytes") ≡ false)
    × (includes (codes "lag_milliseconds") (codes "memory") ≡ false)
unfolding includes
milliseconds-IsNamed = (refl, refl, refl)

-- Three seconds and a half, which the metric's own unit would write as seconds: they are shown as
-- most of an hour.
shown_milliseconds :
    (format_milliseconds naturals 3500 ≡ codes "#s") × (format_seconds naturals 3500 ≡ codes "#m")
unfolding format_milliseconds format_seconds
shown_milliseconds = (refl, refl)

milliseconds_as_seconds_example :
    format_metric_value naturals 3500 (codes "lag_milliseconds") ≡ format_seconds naturals 3500
milliseconds_as_seconds_example =
    milliseconds_as_seconds naturals 3500 (codes "lag_milliseconds") milliseconds-IsNamed.0
      milliseconds-IsNamed.1 milliseconds-IsNamed.2

abbrev metric : Text → Text → MetricDetail ℕ
metric name help = record {
  name = name;
  help = help;
  metric_type = codes "gauge";
  current = record { labels = some ((codes "topic", codes "t1") ∷ []); value = 7 } ∷ [];
  history = (codes "0", 1) ∷ (codes "1", 2) ∷ [];
}

abbrev group : Text → List (MetricDetail ℕ) → MetricGroup ℕ
group name ms = record { name = name; prefix = codes "kafka_"; metrics = ms }

abbrev groups : List (MetricGroup ℕ)
groups =
    group (codes "Log") (metric (codes "kafka_log_size") (codes "") ∷ [])
    ∷ group (codes "Net") (
        metric (codes "kafka_net_in") (codes "bytes")
        ∷ metric (codes "kafka_net_out") (codes "")
        ∷ [])
    ∷ []

abbrev write_labels : Headers → Text
write_labels h = codes "{}"

searched :
    map {B = Text × List Text}
      (λ (g : MetricGroup ℕ). (g.name, map (λ (m : MetricDetail ℕ). m.name) g.metrics))
      (filtered_groups (λ t. t) write_labels (codes "in") groups)
    ≡ (codes "Net", codes "kafka_net_in" ∷ []) ∷ []
unfolding filtered_groups is_metric_match includes starts_with
searched = refl

-- A row is clicked, then the section closed and opened again.
charted :
    let s = on_select (codes "kafka_net_in") initial_section in
    (map
        (λ (m : MetricDetail ℕ). m.name)
        (charts s
          (group (codes "Net") (metric (codes "kafka_net_in") [] ∷ metric (codes "b") [] ∷ [])))
      ≡ codes "kafka_net_in" ∷ [])
    × (toggle_expanded (toggle_expanded s) ≡ s)
    × (on_select (codes "kafka_net_in") s ≡ initial_section)
unfolding on_select charts toggle_expanded text_eq
charted = (refl, refl, refl)

row_cells :
    (metric_row naturals 0 (codes "kafka_") (metric (codes "kafka_net_in") [])).1
    ≡ codes "topic=t1" ∷ []
unfolding metric_row
row_cells = refl

filtered_groups-metrics_example :
    (concat (
        map
          (λ (g : MetricGroup ℕ). g.metrics)
          (filtered_groups (λ t. t) write_labels (codes "in") groups))
      ≡ keep
          (is_metric_match (λ t. t) write_labels (codes "in"))
          (concat (map (λ (g : MetricGroup ℕ). g.metrics) groups)))
    × All
        (λ (g : MetricGroup ℕ). has_metrics g ≡ true)
        (filtered_groups (λ t. t) write_labels (codes "in") groups)
    × ((m : MetricDetail ℕ)
        → (is_metric_match (λ t. t) write_labels (codes "in") m ≡ true)
          ↔ IsFound (λ t. t) write_labels (codes "in") m)
filtered_groups-metrics_example = filtered_groups-metrics (λ t. t) write_labels (codes "in") groups
