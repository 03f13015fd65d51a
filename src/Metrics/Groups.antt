-- ===== src/Metrics/Groups.antt =====
-- The groups of metrics on MetricsPage.tsx: the search, the section of a group and the row of a metric.
-- `toLowerCase` and `JSON.stringify` of a sample's labels are parameters.
pub mod Laws
use kafka_ui.Base.{
  ℕ, Bool, true, false, not, ◌&&◌, ◌||◌, Option, none, some, List, [], ◌∷◌, ◌++◌, map, keep, length,
  leb, get_elem?, if◌then◌else◌, Text, codes, text_eq, includes, starts_with,
}
use kafka_ui.Api.Messages.{Headers}
use kafka_ui.Metrics.Format.{Numbers, format_metric_value}

pub record MetricSample (Number : Type 0) : Type 0 where
  pub labels : Option Headers
  pub value : Number

pub record MetricDetail (Number : Type 0) : Type 0 where
  pub name : Text
  pub help : Text
  pub metric_type : Text
  pub current : List (MetricSample Number)
  pub history : List (Text × Number)

pub record MetricGroup (Number : Type 0) : Type 0 where
  pub name : Text
  pub prefix : Text
  pub metrics : List (MetricDetail Number)

abbrev drop_text : Text → Text → Text
drop_text [] t = t
drop_text (d ∷ u) [] = []
drop_text (d ∷ u) (c ∷ t) = drop_text u t

-- `t.replace(u, "")` for texts: the first occurrence goes.
unfoldable pub remove_first : Text → Text → Text
remove_first [] u = []
remove_first (c ∷ t) u = if starts_with (c ∷ t) u then drop_text u (c ∷ t) else c ∷ remove_first t u

-- The labels of the first sample.
abbrev pub first_labels : {Number : Type 0} → MetricDetail Number → Option Headers
first_labels m = elim m.current [ [] ↦ none | s ∷ rest ↦ s.labels ]

abbrev pub has_metrics : {Number : Type 0} → MetricGroup Number → Bool
has_metrics g = leb 1 (length g.metrics)

module _ (to_lower_case : Text → Text) (stringify : Headers → Text) {Number : Type 0} where
  unfoldable pub is_metric_match : Text → MetricDetail Number → Bool
  is_metric_match search m =
      includes (to_lower_case m.name) (to_lower_case search)
      || (includes (to_lower_case m.help) (to_lower_case search) || (elim (first_labels m) [
        | none ↦ false
        | some ls ↦ includes (to_lower_case (stringify ls)) (to_lower_case search)
      ]))

  abbrev pub narrow : Text → MetricGroup Number → MetricGroup Number
  narrow search g = record g { metrics = keep (is_metric_match search) g.metrics }

  unfoldable pub filtered_groups : Text → List (MetricGroup Number) → List (MetricGroup Number)
  filtered_groups search groups = keep has_metrics (map (narrow search) groups)

-- The state of `MetricGroupSection`.
pub record Section : Type 0 where
  pub expanded : Bool
  pub selected_metric : Option Text

abbrev pub initial_section : Section
initial_section = record { expanded = true; selected_metric = none }

abbrev pub is_selected : Section → Text → Bool
is_selected s name = elim s.selected_metric [ none ↦ false | some t ↦ text_eq t name ]

unfoldable pub toggle_expanded : Section → Section
toggle_expanded s = record s { expanded = not s.expanded }

-- A click on a row, which is there while the section is expanded.
unfoldable pub on_select : Text → Section → Section
on_select name s =
    if s.expanded
    then record s { selected_metric = if is_selected s name then none else some name }
    else s

-- The metrics whose chart is drawn.
unfoldable pub charts :
    {Number : Type 0} → Section → MetricGroup Number → List (MetricDetail Number)
charts s g =
    if s.expanded
    then keep (λ m. is_selected s m.name && leb 2 (length m.history)) g.metrics
    else []

-- The cells of a row: the short name, the labels, the value and the type. `zero` is the number 0.
module _ (n : Numbers) (zero : n.Number) where
  unfoldable pub metric_row : Text → MetricDetail n.Number → Text × List Text × Text × Text
  metric_row prefix m = (
    remove_first m.name prefix,
    elim (first_labels m) [
      | none ↦ []
      | some ls ↦ map (λ (l : Text × Text). l.0 ++ (codes "=" ++ l.1)) ls
    ],
    format_metric_value n (elim m.current [ [] ↦ zero | s ∷ rest ↦ s.value ]) m.name,
    m.metric_type,
  )
