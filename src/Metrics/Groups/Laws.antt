-- ===== src/Metrics/Groups/Laws.antt =====
-- What the search and a click show of the metrics.
use mathlib.Core.Path.{subst}
use kafka_ui.Base.{
  Bool, ◌||◌, Option, none, some, ◌↔◌, ◌⊎◌, Occurs, includes, includes_iff, keep-append, ◌≡◌, refl,
  sym, ap, ◌∙◌, true, false, List, [], ◌∷◌, ◌++◌, map, keep, concat, length, leb, All, Text,
  Bool-cases, inl, inr, arith,
}
use kafka_ui.Api.Messages.{Headers}
use kafka_ui.Metrics.Groups.{
  MetricDetail, MetricGroup, first_labels, is_metric_match, has_metrics, filtered_groups,
}

none_kept {ℓ} : {A : Type ℓ} (xs : List A) → leb 1 (length xs) ≡ false → xs ≡ []
none_kept [] e = refl
none_kept (x ∷ xs) e = absurd (ground arith)

-- What the search box looks for in a metric: the text, whatever its case, stands in the name, in the
-- help, or in what JSON writes for the labels of the first sample.
abbrev pub IsFound :
    {Number : Type 0} → (Text → Text) → (Headers → Text) → Text → MetricDetail Number → Type 0
IsFound to_lower_case stringify search m =
    Occurs (to_lower_case search) (to_lower_case m.name)
    ⊎ (Occurs (to_lower_case search) (to_lower_case m.help)
        ⊎ ((ls : Headers) × (first_labels m ≡ some ls)
            × Occurs (to_lower_case search) (to_lower_case (stringify ls))))

or_iff : {P Q : Type 0} (b c : Bool) → (b ≡ true) ↔ P → (c ≡ true) ↔ Q → ((b || c) ≡ true) ↔ (P ⊎ Q)
or_iff true c p q = (λ h. inl (p.0 refl), λ h. refl)
or_iff false c p q =
    (λ h. inr (q.0 h), λ h. elim h [ inl x ↦ absurd (let e = p.1 x in cc) | inr y ↦ q.1 y ])

labels_iff :
    (find : Headers → Bool) (P : Headers → Type 0) (o : Option Headers)
    → ((ls : Headers) → (find ls ≡ true) ↔ P ls)
    → ((elim o [ none ↦ false | some ls ↦ find ls ]) ≡ true)
      ↔ ((ls : Headers) × (o ≡ some ls) × P ls)
labels_iff find P none found =
    (λ h. absurd (let e : false ≡ true = h in cc), λ h. absurd (let e = h.1 in cc))
labels_iff find P (some ls) found = (
  λ h. (ls, refl, (found ls).0 h),
  λ h. (let e : ls ≡ h.0 = cc in subst (λ l. find l ≡ true) (sym e) ((found h.0).1 h.2)),
)

module _ (to_lower_case : Text → Text) (stringify : Headers → Text) {Number : Type 0}
    (search : Text) where
  is_metric_match_iff :
      (m : MetricDetail Number)
      → (is_metric_match to_lower_case stringify search m ≡ true)
        ↔ IsFound to_lower_case stringify search m
  unfolding is_metric_match
  is_metric_match_iff m =
      let low = to_lower_case search in
      or_iff _ _ (includes_iff (to_lower_case m.name) low) (
        or_iff _ _ (includes_iff (to_lower_case m.help) low) (
          labels_iff (λ ls. includes (to_lower_case (stringify ls)) low)
            (λ ls. Occurs low (to_lower_case (stringify ls))) (first_labels m)
            (λ ls. includes_iff (to_lower_case (stringify ls)) low)))

  matching_shown :
      (gs : List (MetricGroup Number))
      → (concat (
            map
              (λ (g : MetricGroup Number). g.metrics)
              (filtered_groups to_lower_case stringify search gs))
          ≡ keep
              (is_metric_match to_lower_case stringify search)
              (concat (map (λ (g : MetricGroup Number). g.metrics) gs)))
        × All
            (λ (g : MetricGroup Number). has_metrics g ≡ true)
            (filtered_groups to_lower_case stringify search gs)
  unfolding filtered_groups
  matching_shown [] = (refl, tt)
  matching_shown (g ∷ gs) =
      let (same, full) = matching_shown gs in
      let first = keep (is_metric_match to_lower_case stringify search) g.metrics in
      let rest =
        keep (is_metric_match to_lower_case stringify search)
          (concat (map (λ (h : MetricGroup Number). h.metrics) gs)) in
      let split =
        keep-append (is_metric_match to_lower_case stringify search) g.metrics
          (concat (map (λ (h : MetricGroup Number). h.metrics) gs)) in
      elim (Bool-cases (leb 1 (length first))) [
        | inl e ↦ rw e ((ap (first ++◌) same ∙ sym split, (e, full)))
        | inr e ↦ rw e ((same ∙ sym (split ∙ ap (◌++ rest) (none_kept first e)), full))
      ]

  -- The groups that are shown hold exactly the metrics that match, in their order, and none of them
  -- is empty; and a metric matches exactly if the searched text stands, whatever its case, in its
  -- name, in its help, or in the JSON of its first sample's labels.
  pub filtered_groups-metrics :
      (gs : List (MetricGroup Number))
      → (concat (
            map
              (λ (g : MetricGroup Number). g.metrics)
              (filtered_groups to_lower_case stringify search gs))
          ≡ keep
              (is_metric_match to_lower_case stringify search)
              (concat (map (λ (g : MetricGroup Number). g.metrics) gs)))
        × All
            (λ (g : MetricGroup Number). has_metrics g ≡ true)
            (filtered_groups to_lower_case stringify search gs)
        × ((m : MetricDetail Number)
            → (is_metric_match to_lower_case stringify search m ≡ true)
              ↔ IsFound to_lower_case stringify search m)
  filtered_groups-metrics gs =
      let (same, full) = matching_shown gs in (same, full, is_metric_match_iff)
