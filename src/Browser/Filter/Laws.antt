-- ===== src/Browser/Filter/Laws.antt =====
-- The shown result belongs to the filter on the screen.
use kafka_ui.Base.{
  ℕ, zero, suc, ◌≡◌, refl, sym, ap, ◌∙◌, ◌⊎◌, inl, inr, Bool, true, false, not, ◌||◌, Option, none,
  some, List, [], ◌∷◌, map, get_elem?, erase_idx, any, All, if◌then◌else◌, if_elim, arith, Text,
  truthy, trim, Option-cases, text_eq,
}
use kafka_ui.Api.Errors.{Settled, resolved, rejected}
use kafka_ui.Browser.Filter.{
  CelResult, Request, cancel, FilterState, initial_filter, clean_up, run_effect, type_filter,
  fire_timer, settle, Event, typed, timer_fired, answered, answer, act, run,
}

abbrev pub is_live : Request → Bool
is_live r = not r.cancelled

cancelled_lem : (rs : List Request) → any is_live (map cancel rs) ≡ false
cancelled_lem [] = refl
cancelled_lem (r ∷ rs) = cancelled_lem rs

any-erase_idx :
    (rs : List Request) (i : ℕ) (r : Request)
    → get_elem? rs i ≡ some r
    → is_live r ≡ false
    → any is_live (erase_idx rs i) ≡ any is_live rs
any-erase_idx [] i r h k = cc
any-erase_idx (q ∷ rs) zero r h k = let same : q ≡ r = cc in rw (same, k) refl
any-erase_idx (q ∷ rs) (suc i) r h k = ap (λ b. is_live q || b) (any-erase_idx rs i r h k)

-- A request that is not cancelled is about the given filter, which is not blank.
abbrev IsAbout : Text → Text → Type 0
IsAbout t u = (u ≡ t) × (truthy (trim t) ≡ true)

abbrev AllAbout : Text → List Request → Type 0
AllAbout t rs = All (λ r. is_live r ≡ true → IsAbout t r.expression) rs

dead-AllAbout : (t : Text) (rs : List Request) → AllAbout t (map cancel rs)
dead-AllAbout t [] = tt
dead-AllAbout t (r ∷ rs) = ((λ h. cc), dead-AllAbout t rs)

erase_idx-AllAbout :
    (t : Text) (rs : List Request) (i : ℕ) → AllAbout t rs → AllAbout t (erase_idx rs i)
erase_idx-AllAbout t [] i h = tt
erase_idx-AllAbout t (r ∷ rs) zero h = h.1
erase_idx-AllAbout t (r ∷ rs) (suc i) h = (h.0, erase_idx-AllAbout t rs i h.1)

get_elem?-AllAbout :
    (t : Text) (rs : List Request) (i : ℕ) (r : Request)
    → get_elem? rs i ≡ some r
    → AllAbout t rs
    → is_live r ≡ true
    → IsAbout t r.expression
get_elem?-AllAbout t [] i r e h = cc
get_elem?-AllAbout t (q ∷ rs) zero r e h =
    let same : q ≡ r = cc in
    λ k. let (e, f) = h.0 (ap is_live same ∙ k) in (ap (λ x. x.expression) (sym same) ∙ e, f)
get_elem?-AllAbout t (q ∷ rs) (suc i) r e h = get_elem?-AllAbout t rs i r e h.1

module _ (validate : Text → Settled CelResult) where
  -- What the server says of a filter, if there is one to ask about.
  pub verdict : Text → Option CelResult
  verdict t =
      if truthy (trim t)
      then elim (validate t) [ resolved r ↦ some r | rejected e ↦ none ]
      else none

  -- Nothing stale is shown, and a check that is announced is under way.
  pub record IsCurrent (s : FilterState) : Type 0 where
    pub about : AllAbout s.filter s.requests
    pub pending : (t : Text) → s.timer ≡ some t → IsAbout s.filter t
    pub shown : s.validating ≡ false → s.valid ≡ verdict s.filter
    pub busy : s.validating ≡ true → (s.timer ≡ some s.filter) ⊎ (any is_live s.requests ≡ true)

  initial_filter-IsCurrent : IsCurrent initial_filter
  unfolding verdict trim
  initial_filter-IsCurrent = record {
    about = tt;
    pending = λ u e. cc;
    shown = λ _. refl;
    busy = λ e. cc;
  }

  type_filter-IsCurrent : (t : Text) (s : FilterState) → IsCurrent s → IsCurrent (type_filter t s)
  unfolding type_filter run_effect clean_up verdict
  type_filter-IsCurrent t s c =
      if_elim IsCurrent (text_eq t s.filter) (λ _. c)
        (λ _.
          if_elim IsCurrent (not (truthy (trim t)))
            (λ blank. record {
              about = dead-AllAbout t s.requests;
              pending = λ u e. cc;
              shown =
                  λ _. let none_left : truthy (trim t) ≡ false = ground arith in rw none_left refl;
              busy = λ e. cc;
            })
            (λ filled. record {
              about = dead-AllAbout t s.requests;
              pending = λ u e. let same : u ≡ t = cc in (same, ground arith);
              shown = λ e. cc;
              busy = λ _. inl refl;
            }))

  fire_timer-IsCurrent : (s : FilterState) → IsCurrent s → IsCurrent (fire_timer s)
  unfolding fire_timer
  fire_timer-IsCurrent s c = elim (Option-cases s.timer) [
    | inl idle ↦ rw (idle, fire_timer) c
    | inr (t, set) ↦
        rw (set, fire_timer)
          (record {
            about = ((λ _. c.pending t set), c.about);
            pending = λ u e. cc;
            shown = c.shown;
            busy = λ _. inr refl;
          })
  ]

  of_answer : (o : Settled CelResult) → Option CelResult
  of_answer (resolved r) = some r
  of_answer (rejected e) = none

  settle_value :
      (o : Settled CelResult) (s : FilterState)
      → settle o s ≡ record s { valid = of_answer o; validating = false }
  unfolding settle of_answer
  settle_value (resolved r) s = refl
  settle_value (rejected e) s = refl

  of_answer_elim :
      (o : Settled CelResult) → (elim o [ resolved r ↦ some r | rejected e ↦ none ]) ≡ of_answer o
  unfolding of_answer
  of_answer_elim (resolved r) = refl
  of_answer_elim (rejected e) = refl

  verdict_value : (t : Text) → truthy (trim t) ≡ true → verdict t ≡ of_answer (validate t)
  unfolding verdict
  verdict_value t h = rw h (of_answer_elim (validate t))

  settle-IsCurrent :
      (i : ℕ) (s : FilterState)
      → IsCurrent s
      → (t : Text) → IsAbout s.filter t
      → IsCurrent (settle (validate t) (record s { requests = erase_idx s.requests i }))
  settle-IsCurrent i s c t (same, filled) =
      rw (settle_value (validate t) (record s { requests = erase_idx s.requests i })) (record {
        about = erase_idx-AllAbout s.filter s.requests i c.about;
        pending = c.pending;
        shown = λ _. ap (λ u. of_answer (validate u)) same ∙ sym (verdict_value s.filter filled);
        busy = λ e. cc;
      })

  answer-IsCurrent : (i : ℕ) (s : FilterState) → IsCurrent s → IsCurrent (answer validate i s)
  unfolding answer settle
  answer-IsCurrent i s c = elim (Option-cases (get_elem? s.requests i)) [
    | inl gone ↦ rw (gone, answer) c
    | inr (r, found) ↦
        rw (found, answer)
          (if_elim IsCurrent r.cancelled
            (λ dead.
              let left = any-erase_idx s.requests i r found (ap not dead) in
              record {
                about = erase_idx-AllAbout s.filter s.requests i c.about;
                pending = c.pending;
                shown = c.shown;
                busy = λ e. elim (c.busy e) [ inl t ↦ inl t | inr live ↦ inr (left ∙ live) ];
              })
            (λ alive.
              settle-IsCurrent i s c r.expression
                (get_elem?-AllAbout s.filter s.requests i r found c.about (ap not alive))))
  ]

  act-IsCurrent : (s : FilterState) (e : Event) → IsCurrent s → IsCurrent (act validate s e)
  unfolding act
  act-IsCurrent s (typed t) c = type_filter-IsCurrent t s c
  act-IsCurrent s timer_fired c = fire_timer-IsCurrent s c
  act-IsCurrent s (answered i) c = answer-IsCurrent i s c

  run-IsCurrent : (s : FilterState) (es : List Event) → IsCurrent s → IsCurrent (run validate s es)
  unfolding run
  run-IsCurrent s [] c = c
  run-IsCurrent s (e ∷ es) c = run-IsCurrent (act validate s e) es (act-IsCurrent s e c)

  -- Whatever the user types and in whatever order the answers come: when no check is announced, the
  -- result shown is what the server says of the filter on the screen, or none for a blank filter or
  -- a failed request; while one is announced, a timer for this filter or a request that is not
  -- cancelled is under way.
  pub run_shows_current :
      (es : List Event)
      → let s = run validate initial_filter es in
        (s.validating ≡ false → s.valid ≡ verdict s.filter)
        × (s.validating ≡ true → (s.timer ≡ some s.filter) ⊎ (any is_live s.requests ≡ true))
  run_shows_current es =
      let c = run-IsCurrent initial_filter es initial_filter-IsCurrent in (c.shown, c.busy)

  fire-answer :
      (s : FilterState) (t : Text)
      → s.timer ≡ some t
      → run validate s (timer_fired ∷ answered 0 ∷ [])
        ≡ record s { valid = of_answer (validate t); validating = false; timer = none }
  unfolding run act fire_timer answer
  fire-answer s t set = rw (set, fire_timer, settle_value) refl

  -- A check comes to its end: from a reachable state, when the timer fires and the request that it
  -- sends is answered, nothing is announced any more and the verdict on the filter is shown.
  run_check_ends :
      (es : List Event) (t : Text)
      → (run validate initial_filter es).timer ≡ some t
      → let s = run validate initial_filter es in
        let s' = run validate s (timer_fired ∷ answered 0 ∷ []) in
        (s'.validating ≡ false) × (s'.valid ≡ verdict s.filter) × (s'.filter ≡ s.filter)
  run_check_ends es t set =
      let s = run validate initial_filter es in
      let (same, filled) =
        (run-IsCurrent initial_filter es initial_filter-IsCurrent).pending t set in
      let after = fire-answer s t set in
      rw after
        (refl, ap (λ u. of_answer (validate u)) same ∙ sym (verdict_value s.filter filled), refl)
