-- ===== src/Metrics/Picker/Laws.antt =====
-- What the metrics page asks for.
use kafka_ui.Base.{
  ℕ, zero, suc, ◌≡◌, ◌≢◌, refl, sym, ap, ◌∙◌, inl, inr, true, false, not, Option, none, some, List,
  [], ◌∷◌, get_elem?, All, if◌then◌else◌, if_elim, Text, codes, truthy, text_eq, ℤ, Option-cases,
}
use kafka_ui.Metrics.TimeInput.{parse_time_input}
use kafka_ui.Metrics.Picker.{
  Preset, presets, all_presets, Picker, initial_picker, is_live, select_preset, set_custom, submit,
  example_click, calendar_apply, Event, preset_clicked, input_typed, entered, example_clicked,
  cal_from_typed, cal_to_typed, applied, calendar_toggled, more_toggled, opened_changed, in_popover,
  act, run,
}

-- Either a preset is selected or a custom range is set, and a live view knows since when.
pub record IsPicked (p : Picker) : Type 0 where
  pub preset : p.custom_range ≡ none → (p.selected_preset ≢ none)
  pub custom : p.custom_range ≢ none → p.selected_preset ≡ none
  pub since : is_live p ≡ true → p.live_from ≢ none

pub initial_picker-IsPicked : IsPicked initial_picker
unfolding text_eq
initial_picker-IsPicked = record {
  preset = λ e f. cc;
  custom = λ n. absurd (n refl);
  since = λ e. cc;
}

set_custom-IsPicked : (f t : Text) (p : Picker) → IsPicked (set_custom f t p)
unfolding set_custom
set_custom-IsPicked f t p = record { preset = λ e. cc; custom = λ n. refl; since = λ e. cc }

-- A preset named "live" is the live one.
abbrev Named : Preset → Type 0
Named q = q.live ≡ text_eq q.key (codes "live")

presets-Named : All Named presets
unfolding text_eq
presets-Named = (refl, (refl, (refl, (refl, (refl, (refl, (refl, (refl, (refl, (refl, tt))))))))))

all_presets-Named : All Named all_presets
unfolding text_eq
all_presets-Named = (
  refl,
  (
    refl,
    (refl, (refl, (refl, (refl, (refl, (refl, (refl, (refl, (refl, (refl, (refl, tt))))))))))),
  ),
)

get_elem?-All :
    (P : Preset → Type 0) (qs : List Preset) (i : ℕ) (q : Preset)
    → All P qs
    → get_elem? qs i ≡ some q
    → P q
get_elem?-All P [] i q h e = cc
get_elem?-All P (r ∷ qs) zero q h e = let same : r ≡ q = cc in rw (sym same) h.0
get_elem?-All P (r ∷ qs) (suc i) q h e = get_elem?-All P qs i q h.1 e

select_preset-IsPicked :
    (now : Text) (q : Preset) (p : Picker) → Named q → IsPicked (select_preset now q p)
unfolding select_preset
select_preset-IsPicked now q p named = record {
  preset = λ e f. cc;
  custom = λ n. absurd (n refl);
  since = λ e. let on : q.live ≡ true = named ∙ e in rw on (λ f. cc);
}

module _ (iso : ℤ → Option Text) (local_iso : Text → Option Text)
    (parse_date : Text → Option ℤ) where
  submit-IsPicked :
      (now : ℕ) (input : Text) (p : Picker)
      → IsPicked p
      → IsPicked (submit iso local_iso parse_date now input p)
  unfolding submit
  submit-IsPicked now input p h = elim (Option-cases (parse_time_input parse_date now input)) [
    | inl no_range ↦ rw (no_range, submit) h
    | inr ((from, to), found) ↦ elim (Option-cases (iso from)) [
      | inl bad ↦ rw (found, submit, bad) h
      | inr (f, good) ↦ elim (Option-cases (iso to)) [
        | inl bad ↦ rw (found, submit, good, bad) h
        | inr (t, fine) ↦ rw (found, submit, good, fine) (set_custom-IsPicked f t p)
      ]
    ]
  ]

  calendar_apply-IsPicked :
      (now : Text) (p : Picker)
      → IsPicked p
      → IsPicked (calendar_apply iso local_iso parse_date now p)
  unfolding calendar_apply
  calendar_apply-IsPicked now p h =
      if_elim IsPicked (truthy p.cal_from)
        (λ _. elim (Option-cases (local_iso p.cal_from)) [
          | inl bad ↦ rw bad h
          | inr (f, good) ↦
              elim (Option-cases (if truthy p.cal_to then local_iso p.cal_to else some now)) [
                | inl bad ↦ rw (good, bad) h
                | inr (t, fine) ↦ rw (good, fine) (set_custom-IsPicked f t p)
              ]
        ])
        (λ _. h)

  in_popover-IsPicked :
      (p : Picker) (change : Picker → Picker)
      → IsPicked (change p)
      → IsPicked p
      → IsPicked (in_popover iso local_iso parse_date p change)
  in_popover-IsPicked p change hc h = if_elim IsPicked p.is_open (λ _. hc) (λ _. h)

  -- A change of the other fields only.
  same-IsPicked :
      (p q : Picker)
      → q.selected_preset ≡ p.selected_preset
      → q.custom_range ≡ p.custom_range
      → q.live_from ≡ p.live_from
      → IsPicked p
      → IsPicked q
  same-IsPicked p q s c l h = record {
    preset = λ e f. h.preset (sym c ∙ e) (sym s ∙ f);
    custom = λ n. s ∙ h.custom (λ e. n (c ∙ e));
    since = λ e f.
        h.since (ap (λ x. elim x [ none ↦ false | some k ↦ text_eq k (codes "live") ]) (sym s) ∙ e)
          (sym l ∙ f);
  }

  preset_click-IsPicked :
      (i : ℕ) (now : Text) (p : Picker)
      → IsPicked p
      → (qs : List Preset) → All Named qs
      → IsPicked (elim (get_elem? qs i) [ none ↦ p | some r ↦ select_preset now r p ])
  preset_click-IsPicked i now p h qs named = elim (Option-cases (get_elem? qs i)) [
    | inl absent ↦ rw absent h
    | inr (q, at) ↦ rw at (select_preset-IsPicked now q p (get_elem?-All Named qs i q named at))
  ]

  act-IsPicked : (p : Picker) (e : Event) → IsPicked p → IsPicked (act iso local_iso parse_date p e)
  unfolding act example_click
  act-IsPicked p (preset_clicked i now) h =
      if_elim IsPicked p.is_open
        (λ _.
          preset_click-IsPicked i now p h (if p.show_more then all_presets else presets)
            (if_elim (All Named) p.show_more (λ _. all_presets-Named) (λ _. presets-Named)))
        (λ _. h)
  act-IsPicked p (input_typed v) h =
      if_elim IsPicked p.is_open
        (λ _. same-IsPicked p (record p { input_value = v }) refl refl refl h) (λ _. h)
  act-IsPicked p (entered now) h =
      if_elim IsPicked p.is_open (λ _. submit-IsPicked now p.input_value p h) (λ _. h)
  act-IsPicked p (example_clicked now v) h =
      if_elim IsPicked p.is_open
        (λ _.
          submit-IsPicked now v (record p { input_value = v })
            (same-IsPicked p (record p { input_value = v }) refl refl refl h))
        (λ _. h)
  act-IsPicked p (cal_from_typed v) h =
      if_elim IsPicked p.is_open
        (λ _.
          if_elim IsPicked p.show_calendar
            (λ _. same-IsPicked p (record p { cal_from = v }) refl refl refl h) (λ _. h))
        (λ _. h)
  act-IsPicked p (cal_to_typed v) h =
      if_elim IsPicked p.is_open
        (λ _.
          if_elim IsPicked p.show_calendar
            (λ _. same-IsPicked p (record p { cal_to = v }) refl refl refl h) (λ _. h))
        (λ _. h)
  act-IsPicked p (applied now) h =
      if_elim IsPicked p.is_open
        (λ _. if_elim IsPicked p.show_calendar (λ _. calendar_apply-IsPicked now p h) (λ _. h))
        (λ _. h)
  act-IsPicked p calendar_toggled h =
      if_elim IsPicked p.is_open
        (λ _. same-IsPicked p (record p { show_calendar = not p.show_calendar }) refl refl refl h)
        (λ _. h)
  act-IsPicked p more_toggled h =
      if_elim IsPicked p.is_open
        (λ _. same-IsPicked p (record p { show_more = not p.show_more }) refl refl refl h) (λ _. h)
  act-IsPicked p (opened_changed b) h = same-IsPicked p (record p { is_open = b }) refl refl refl h

  pub run-IsPicked :
      (p : Picker) (es : List Event) → IsPicked p → IsPicked (run iso local_iso parse_date p es)
  unfolding run
  run-IsPicked p [] h = h
  run-IsPicked p (e ∷ es) h =
      run-IsPicked (act iso local_iso parse_date p e) es (act-IsPicked p e h)
