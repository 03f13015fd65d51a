-- ===== src/Wizard/Flow/Moves.antt =====
-- How the wizard moves between its steps.
use kafka_ui.Base.{
  if_elim, ℕ, zero, suc, ◌+◌, ◌≤◌, ◌<◌, ◌≡◌, ◌≢◌, refl, ap, ◌∙◌, ◌⊎◌, inl, inr, true, not, ◌&&◌,
  arith, Option-cases, ◌==◌, ltb, replicate, get_elem?,
}
use kafka_ui.Api.Clusters.{TestConnectionResult}
use kafka_ui.Wizard.Steps.{step_of, is_shown}
use kafka_ui.Api.Errors.{resolved, rejected, Settled}
use kafka_ui.Wizard.Flow.{
  Wizard, connection_ok, can_next, is_last_step, handle_next, handle_enter, handle_save,
  handle_test, on_step_click, test_settles, save_settles, Event, edited, next_clicked, skip_clicked,
  enter_pressed, back_clicked, step_clicked, test_clicked, save_clicked, test_settled, save_settled,
  act, run, is_none,
}

-- From `w` to `w'`: not forward, or one step on, and then only from a step that may be left.
abbrev pub MovesFrom : Wizard → Wizard → Type 0
MovesFrom w w' =
    (w'.state.step ≤ w.state.step)
    ⊎ ((w'.state.step ≡ w.state.step + 1) × (can_next w.state ≡ true) × (w.state.step ≢ 6))

module _ (w : Wizard) where
  stays : MovesFrom w w
  stays = inl (omega arith)

  next_moves : MovesFrom w (handle_next w)
  unfolding handle_next
  next_moves = ground arith

  step_click_moves : (i : ℕ) → (on_step_click w.state i).step ≤ w.state.step
  unfolding on_step_click
  step_click_moves i = ground arith

  test_settles_stays :
      (o : Settled TestConnectionResult) → (test_settles w.state o).step ≤ w.state.step
  unfolding test_settles
  test_settles_stays (resolved r) = omega arith
  test_settles_stays (rejected e) = omega arith

  save_settles_stays : (o : Settled (Unit {0})) → (save_settles w.state o).0.step ≤ w.state.step
  unfolding save_settles
  save_settles_stays (resolved r) = omega arith
  save_settles_stays (rejected e) = omega arith

-- Each event goes back, stays, or goes one step on, the last only if the step may be left: no
-- control skips the check of the connection data.
pub act-MovesFrom : (w : Wizard) (e : Event) → MovesFrom w (act w e)
unfolding act handle_test handle_save
act-MovesFrom w (edited e) =
    if_elim (MovesFrom w) (w.state.step == step_of e && is_shown w.state.request e)
      (λ _. inl (omega arith)) (λ _. stays w)
act-MovesFrom w next_clicked = if_elim (MovesFrom w) _ (λ _. next_moves w) (λ _. stays w)
act-MovesFrom w skip_clicked = if_elim (MovesFrom w) _ (λ _. next_moves w) (λ _. stays w)
act-MovesFrom w enter_pressed =
    unfold handle_enter in if_elim (MovesFrom w) _ (λ _. next_moves w) (λ _. stays w)
act-MovesFrom w back_clicked = ground arith
act-MovesFrom w (step_clicked i) =
    if_elim (MovesFrom w) (ltb i 7) (λ _. inl (step_click_moves w i)) (λ _. stays w)
act-MovesFrom w test_clicked =
    if_elim (MovesFrom w) (w.state.step == 6 && not w.state.testing) (λ _. inl (omega arith))
      (λ _. stays w)
act-MovesFrom w (save_clicked c) =
    if_elim (MovesFrom w) (is_last_step w.state && not w.state.saving)
      (λ _.
        if_elim (MovesFrom w) (is_none w.state.test_result && not c) (λ _. stays w)
          (λ _. inl (omega arith)))
      (λ _. stays w)
act-MovesFrom w (test_settled i o) = elim (Option-cases (get_elem? w.tests i)) [
  | inl gone ↦ rw (gone, act) (stays w)
  | inr (d, found) ↦ rw (found, act) (inl (test_settles_stays w o))
]
act-MovesFrom w (save_settled i o) = elim (Option-cases (get_elem? w.saves i)) [
  | inl gone ↦ rw (gone, act) (stays w)
  | inr (d, found) ↦ rw (found, act) (inl (save_settles_stays w o))
]

-- One click on "Next" from a step that may be left.
next_click :
    (w : Wizard)
    → connection_ok w.state.request ≡ true
    → w.state.step < 6
    → ((act w next_clicked).state.step ≡ w.state.step + 1)
      × ((act w next_clicked).state.request ≡ w.state.request)
unfolding act handle_next
next_click w ok h = ground arith

-- With good connection data the Review step is always within reach, by "Next" alone.
pub run-next_reaches_review :
    (n : ℕ) (w : Wizard)
    → connection_ok w.state.request ≡ true
    → w.state.step + n ≡ 6
    → ((run w (replicate n next_clicked)).state.step ≡ 6)
      × ((run w (replicate n next_clicked)).state.request ≡ w.state.request)
unfolding run
run-next_reaches_review zero w ok h = (omega arith, refl)
run-next_reaches_review (suc n) w ok h =
    let (step, same) = next_click w ok (omega arith) in
    let (there, kept) =
      run-next_reaches_review n (act w next_clicked) (ap connection_ok same ∙ ok) (omega arith) in
    (there, kept ∙ same)
