-- ===== src/Wizard/Flow/Invariant.antt =====
-- The invariant of the wizard, kept by every event.
use kafka_ui.Base.{
  ◌-◌, if_elim, not, ◌∙◌, ℕ, zero, suc, ◌≤◌, ◌<◌, ◌≡◌, refl, ap, Bool, true, false, Option, some,
  List, [], ◌∷◌, length, get_elem?, erase_idx, All, if◌then◌else◌, arith, Bool-cases, Option-cases,
  ◌+◌, inl, inr, ◌==◌, ◌&&◌, ltb,
}
use kafka_ui.Api.Clusters.{
  AddClusterRequest, ClusterCall, add_cluster, update_cluster, delete_cluster, test_connection,
  TestConnectionResult,
}
use kafka_ui.Wizard.State.{WizardState, merge}
use kafka_ui.Wizard.Steps.{StepEdit, name_typed, bootstrap_typed, step_of, is_shown, partial_of}
use kafka_ui.Api.Errors.{resolved, rejected, Settled}
use kafka_ui.Wizard.Flow.{
  Wizard, initial_wizard, connection_ok, can_next, handle_next, handle_enter, handle_test,
  handle_save, test_settles, save_settles, on_step_click, Event, edited, next_clicked, skip_clicked,
  enter_pressed, back_clicked, step_clicked, test_clicked, save_clicked, test_settled, save_settled,
  act, run, is_last_step,
}

-- A request that the wizard may send: its connection data passed the checks of the first step, an
-- existing cluster is never added nor a new one updated, and no second test is asked of the server.
abbrev pub IsSound : Bool → ClusterCall → Type 0
IsSound editing (add_cluster d validate) =
    (connection_ok d ≡ true) × (editing ≡ false) × (validate ≡ false)
IsSound editing (update_cluster name d validate) =
    (connection_ok d ≡ true) × (editing ≡ true) × (validate ≡ false) × (name ≡ d.name)
IsSound editing (delete_cluster name) = ⊥
IsSound editing (test_connection d) = connection_ok d ≡ true

pub record IsValid (w : Wizard) : Type 0 where
  pub in_range : w.state.step ≤ 6
  pub checked : 0 < w.state.step → connection_ok w.state.request ≡ true
  pub one_test : length w.tests ≡ (if w.state.testing then 1 else 0)
  pub one_save : length w.saves ≡ (if w.state.saving then 1 else 0)
  pub sound : All (IsSound w.editing) w.calls

connection_ok-merge :
    (d : AddClusterRequest) (e : StepEdit)
    → 0 < step_of e
    → connection_ok (merge d (partial_of d e)) ≡ connection_ok d
unfolding connection_ok merge step_of partial_of
connection_ok-merge d (name_typed v) h = absurd (omega arith)
connection_ok-merge d (bootstrap_typed v) h = absurd (omega arith)
connection_ok-merge d _ h = refl

module _ (w : Wizard) (v : IsValid w) where
  -- An event that changes the step or the data, and neither flag.
  moved-IsValid :
      (s : WizardState)
      → s.step ≤ 6
      → (0 < s.step → connection_ok s.request ≡ true)
      → s.testing ≡ w.state.testing
      → s.saving ≡ w.state.saving
      → IsValid (record w { state = s })
  moved-IsValid s le ok t k = record {
    in_range = le;
    checked = ok;
    one_test = rw t v.one_test;
    one_save = rw k v.one_save;
    sound = v.sound;
  }

  edited-IsValid : (e : StepEdit) → IsValid (act w (edited e))
  unfolding act
  edited-IsValid e =
      if_elim IsValid (w.state.step == step_of e && is_shown w.state.request e)
        (λ t.
          moved-IsValid _ v.in_range
            (λ (h : 0 < w.state.step).
              ground (arith, connection_ok-merge w.state.request e, v.checked h))
            refl refl)
        (λ _. v)

  next-IsValid : IsValid (handle_next w)
  unfolding handle_next
  next-IsValid =
      if_elim IsValid (not (is_last_step w.state) && can_next w.state)
        (λ t.
          moved-IsValid (record w.state { step = w.state.step + 1 }) (next_le t) (λ h. next_ok t)
            refl refl)
        (λ _. v)
    where
      next_le : (not (is_last_step w.state) && can_next w.state) ≡ true → w.state.step + 1 ≤ 6
      next_le t = let le = v.in_range in ground arith

      next_ok :
          (not (is_last_step w.state) && can_next w.state) ≡ true
          → connection_ok w.state.request ≡ true
      next_ok t = elim (Bool-cases (w.state.step == 0)) [
        | inl e ↦ ground arith
        | inr e ↦ v.checked (ground arith)
      ]

  test-IsValid : (w.state.step == 6 && not w.state.testing) ≡ true → IsValid (handle_test w)
  unfolding handle_test
  test-IsValid t =
      let ok : connection_ok w.state.request ≡ true = v.checked (ground arith) in
      record {
        in_range = v.in_range;
        checked = λ h. ok;
        one_test = ground arith;
        one_save = v.one_save;
        sound = (ok, v.sound);
      }

  save_call-IsSound :
      (editing : Bool) (d : AddClusterRequest)
      → connection_ok d ≡ true
      → IsSound editing (if editing then update_cluster d.name d false else add_cluster d false)
  save_call-IsSound true d ok = (ok, refl, refl, refl)
  save_call-IsSound false d ok = (ok, refl, refl)

  save-IsValid : (is_last_step w.state && not w.state.saving) ≡ true → IsValid (handle_save w)
  unfolding handle_save
  save-IsValid t =
      let ok : connection_ok w.state.request ≡ true = v.checked (ground arith) in
      record {
        in_range = v.in_range;
        checked = λ h. ok;
        one_test = v.one_test;
        one_save = ground arith;
        sound = (save_call-IsSound w.editing w.state.request ok, v.sound);
      }

  back-IsValid : IsValid (act w back_clicked)
  unfolding act
  back-IsValid =
      if_elim IsValid (ltb 0 w.state.step)
        (λ t.
          moved-IsValid (record w.state { step = w.state.step - 1 })
            (let le = v.in_range in omega arith) (λ h. v.checked (omega arith)) refl refl)
        (λ _. v)

  on_step_click_lem :
      (i : ℕ)
      → let s = on_step_click w.state i in
        (s.step ≤ w.state.step)
        × (s.request ≡ w.state.request)
        × (s.testing ≡ w.state.testing)
        × (s.saving ≡ w.state.saving)
  unfolding on_step_click
  on_step_click_lem i = ground arith

erase_one :
    (xs : List AddClusterRequest) (i : ℕ) (d : AddClusterRequest)
    → length xs ≤ 1
    → get_elem? xs i ≡ some d
    → length (erase_idx xs i) ≡ 0
erase_one [] i d h e = cc
erase_one (x ∷ []) zero d h e = refl
erase_one (x ∷ []) (suc i) d h e = cc
erase_one (x ∷ y ∷ xs) i d h e = absurd (omega arith)

at_most_one : (n : ℕ) (b : Bool) → n ≡ (if b then 1 else 0) → n ≤ 1
at_most_one n b h = ground arith

module _ (w : Wizard) (v : IsValid w) where
  step_clicked-IsValid : (i : ℕ) → IsValid (act w (step_clicked i))
  unfolding act
  step_clicked-IsValid i =
      let (le, same, t, s) = on_step_click_lem w v i in
      if_elim IsValid (ltb i 7)
        (λ _.
          moved-IsValid w v (on_step_click w.state i) (let at = v.in_range in omega arith)
            (λ h. ap connection_ok same ∙ v.checked (omega arith)) t s)
        (λ _. v)

  test_settles_lem :
      (o : Settled TestConnectionResult)
      → let s = test_settles w.state o in
        (s.step ≡ w.state.step)
        × (s.request ≡ w.state.request)
        × (s.testing ≡ false)
        × (s.saving ≡ w.state.saving)
  unfolding test_settles
  test_settles_lem (resolved r) = (refl, refl, refl, refl)
  test_settles_lem (rejected e) = (refl, refl, refl, refl)

  test_settled-IsValid :
      (i : ℕ) (o : Settled TestConnectionResult) → IsValid (act w (test_settled i o))
  unfolding act
  test_settled-IsValid i o = elim (Option-cases (get_elem? w.tests i)) [
    | inl gone ↦ rw (gone, act) v
    | inr (d, found) ↦
        let (step, same, t, s) = test_settles_lem o in
        rw (found, act)
          (record {
            in_range = rw step v.in_range;
            checked = λ h. rw same (v.checked (rw step at h));
            one_test = rw t (erase_one w.tests i d (at_most_one _ _ v.one_test) found);
            one_save = rw s v.one_save;
            sound = v.sound;
          })
  ]

  save_settles_lem :
      (o : Settled (Unit {0}))
      → let s = (save_settles w.state o).0 in
        (s.step ≡ w.state.step)
        × (s.request ≡ w.state.request)
        × (s.saving ≡ false)
        × (s.testing ≡ w.state.testing)
  unfolding save_settles
  save_settles_lem (resolved r) = (refl, refl, refl, refl)
  save_settles_lem (rejected e) = (refl, refl, refl, refl)

  save_settled-IsValid : (i : ℕ) (o : Settled (Unit {0})) → IsValid (act w (save_settled i o))
  unfolding act
  save_settled-IsValid i o = elim (Option-cases (get_elem? w.saves i)) [
    | inl gone ↦ rw (gone, act) v
    | inr (d, found) ↦
        let (step, same, s, t) = save_settles_lem o in
        rw (found, act)
          (record {
            in_range = rw step v.in_range;
            checked = λ h. rw same (v.checked (rw step at h));
            one_test = rw t v.one_test;
            one_save = rw s (erase_one w.saves i d (at_most_one _ _ v.one_save) found);
            sound = v.sound;
          })
  ]

-- Every event keeps the invariant.
pub act-IsValid : (w : Wizard) (e : Event) → IsValid w → IsValid (act w e)
unfolding act
act-IsValid w (edited e) v = edited-IsValid w v e
act-IsValid w next_clicked v = if_elim IsValid _ (λ _. next-IsValid w v) (λ _. v)
act-IsValid w skip_clicked v = if_elim IsValid _ (λ _. next-IsValid w v) (λ _. v)
act-IsValid w enter_pressed v =
    unfold handle_enter in if_elim IsValid _ (λ _. next-IsValid w v) (λ _. v)
act-IsValid w back_clicked v = back-IsValid w v
act-IsValid w (step_clicked i) v = step_clicked-IsValid w v i
act-IsValid w test_clicked v = if_elim IsValid _ (test-IsValid w v) (λ _. v)
act-IsValid w (save_clicked c) v =
    if_elim IsValid _ (λ t. if_elim IsValid _ (λ _. v) (λ _. save-IsValid w v t)) (λ _. v)
act-IsValid w (test_settled i o) v = test_settled-IsValid w v i o
act-IsValid w (save_settled i o) v = save_settled-IsValid w v i o

pub initial_wizard-IsValid : (initial : Option AddClusterRequest) → IsValid (initial_wizard initial)
initial_wizard-IsValid initial = record {
  in_range = omega arith;
  checked = λ h. absurd (omega arith);
  one_test = refl;
  one_save = refl;
  sound = tt;
}

pub run-IsValid : (w : Wizard) (es : List Event) → IsValid w → IsValid (run w es)
unfolding run
run-IsValid w [] v = v
run-IsValid w (e ∷ es) v = run-IsValid (act w e) es (act-IsValid w e v)
