-- ===== src/Metrics/Picker/Requests.antt =====
-- The request that follows from what is picked.
use kafka_ui.Base.{
  ◌≡◌, ◌≢◌, refl, sym, ap, ◌∙◌, ◌⊎◌, inl, inr, true, false, Option, none, some, List, [], ◌∷◌, All,
  if◌then◌else◌, Text, codes, truthy, text_eq, text_eq_iff, ℤ, Option-cases, Bool-cases,
}
use kafka_ui.Metrics.Picker.{
  Preset, all_presets, find_preset, Picker, initial_picker, is_live, Asked, window, past, nothing,
  metrics_query, duration_of, api_range, asked, refetch_interval, Event, run,
}
use kafka_ui.Metrics.Picker.Laws.{IsPicked, initial_picker-IsPicked, run-IsPicked}

abbrev pub given : Text → Option Text
given t = if truthy t then some t else none

-- The window of a custom range, of a live view, or the past of a preset.
abbrev pub window_of : Text → Text → Asked
window_of from to = if truthy from then window from (given to) else nothing

abbrev pub IsCustom : Picker → Text → Type 0
IsCustom p now =
    (from : Text) × (to : Text) × (p.custom_range ≡ some (from, to))
    × (p.selected_preset ≡ none)
    × (asked now p ≡ window_of from to)
    × (refetch_interval p ≡ none)

abbrev pub IsLiveView : Picker → Text → Type 0
IsLiveView p now =
    (since : Text) × (p.custom_range ≡ none)
    × (p.selected_preset ≡ some (codes "live"))
    × (p.live_from ≡ some since)
    × (asked now p ≡ window_of since now)
    × (refetch_interval p ≡ some 5000)

abbrev pub IsPast : Picker → Text → Type 0
IsPast p now =
    (key : Text) × (p.custom_range ≡ none)
    × (p.selected_preset ≡ some key)
    × (asked now p ≡ past (duration_of (some key)))
    × (refetch_interval p ≡ some 30000)

filled_durations : All (λ q. truthy q.duration ≡ true) all_presets
filled_durations = (
  refl,
  (
    refl,
    (refl, (refl, (refl, (refl, (refl, (refl, (refl, (refl, (refl, (refl, (refl, tt))))))))))),
  ),
)

found_filled :
    (key : Text) (qs : List Preset)
    → All (λ q. truthy q.duration ≡ true) qs
    → truthy (elim (find_preset key qs) [ none ↦ codes "1h" | some q ↦ q.duration ]) ≡ true
found_filled key [] h = refl
found_filled key (q ∷ qs) h = elim (Bool-cases (text_eq q.key key)) [
  | inl same ↦ rw same h.0
  | inr other ↦ rw other (found_filled key qs h.1)
]

custom_lem :
    (p : Picker) (now from to : Text)
    → p.custom_range ≡ some (from, to)
    → p.selected_preset ≡ none
    → IsCustom p now
unfolding asked metrics_query refetch_interval
custom_lem p now from to c s = (from, to, c, s, rw (s, asked, c) refl, rw s refl)

asked_window :
    (since now : Text)
    → (if truthy since
        then metrics_query none (some since) (some now)
        else metrics_query none none none)
      ≡ window_of since now
unfolding metrics_query
asked_window [] now = refl
asked_window (c ∷ since) now = refl

past_query : (d : Text) → truthy d ≡ true → metrics_query (some d) none none ≡ past d
unfolding metrics_query
past_query d h = rw h refl

live_lem :
    (p : Picker) (now since : Text)
    → p.custom_range ≡ none
    → p.selected_preset ≡ some (codes "live")
    → p.live_from ≡ some since
    → IsLiveView p now
unfolding asked metrics_query refetch_interval text_eq
live_lem p now since c s l =
    let none_given : api_range p ≡ none = rw (c, s) refl in
    (since, c, s, l, rw (s, asked, l, c, none_given) (asked_window since now), rw (s, c) refl)

past_lem :
    (p : Picker) (now key : Text)
    → p.custom_range ≡ none
    → p.selected_preset ≡ some key
    → text_eq key (codes "live") ≡ false
    → IsPast p now
unfolding asked metrics_query refetch_interval
past_lem p now key c s other =
    let idle : is_live p ≡ false = rw s other in
    let given_range : api_range p ≡ some (duration_of (some key)) = rw (c, idle, s) refl in
    (
      key,
      c,
      s,
      rw (idle, asked, c, given_range)
          (past_query (duration_of (some key)) (found_filled key all_presets filled_durations)),
      rw (s, c, other) refl,
    )

some_of : {A : Type 0} (o : Option A) → o ≢ none → (a : A) × (o ≡ some a)
some_of none n = absurd (n refl)
some_of (some a) n = (a, refl)

picked_lem :
    (p : Picker) (now : Text) → IsPicked p → IsCustom p now ⊎ (IsLiveView p now ⊎ IsPast p now)
picked_lem p now h = elim (Option-cases p.custom_range) [
  | inr ((from, to), c) ↦ inl (
      custom_lem p now from to c
        (h.custom (λ e. let clash : some (from, to) ≡ none = sym c ∙ e in cc)))
  | inl c ↦
      let (key, s) = some_of p.selected_preset (h.preset c) in
      elim (Bool-cases (text_eq key (codes "live"))) [
        | inr other ↦ inr (inr (past_lem p now key c s other))
        | inl on ↦
            let live : p.selected_preset ≡ some (codes "live") =
              s ∙ ap some ((text_eq_iff key (codes "live")).0 on) in
            let (since, l) = some_of p.live_from (h.since (rw s on)) in
            inr (inl (live_lem p now since c live l))
      ]
]

-- Whatever was clicked and typed, the page is in one of three states and asks for what it shows: a
-- custom range, asked for as it is and never again by itself; a live view, asked for from its start
-- up to now every five seconds; or a preset, asked for by its duration every thirty.
pub run-asked :
    (iso : ℤ → Option Text) (local_iso : Text → Option Text) (parse_date : Text → Option ℤ)
    (es : List Event) (now : Text)
    → let p = run iso local_iso parse_date initial_picker es in
      IsCustom p now ⊎ (IsLiveView p now ⊎ IsPast p now)
run-asked iso local_iso parse_date es now =
    picked_lem (run iso local_iso parse_date initial_picker es) now
      (run-IsPicked iso local_iso parse_date initial_picker es initial_picker-IsPicked)
