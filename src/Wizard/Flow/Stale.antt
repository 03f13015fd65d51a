-- ===== src/Wizard/Flow/Stale.antt =====
-- What the result of a connection test says about the data on the screen.
use kafka_ui.Base.{◌≡◌, ◌≢◌, refl, false, ◌&&◌, none, some, [], ◌∷◌, ◌==◌, Bool-cases, inl, inr}
use kafka_ui.Api.Clusters.{AddClusterRequest, TestConnectionResult}
use kafka_ui.Wizard.Steps.{StepEdit, step_of, is_shown}
use kafka_ui.Api.Errors.{resolved}
use kafka_ui.Wizard.Flow.{
  Wizard, handle_save, test_settles, edited, save_clicked, test_settled, act,
}

-- A change of the data takes back the result of the last test, and leaves the requests under way.
edited_takes_back_test :
    (w : Wizard) (e : StepEdit)
    → ((act w (edited e)).state.request ≢ w.state.request)
    → ((act w (edited e)).state.test_result ≡ none) × ((act w (edited e)).tests ≡ w.tests)
unfolding act
edited_takes_back_test w e ne =
    elim (Bool-cases (w.state.step == step_of e && is_shown w.state.request e)) [
      | inl t ↦ rw (t, act) (refl, refl)
      | inr f ↦ absurd (ne (rw (f, act) refl))
    ]

-- If a test of other data was under way when the data were changed, its result is shown for the
-- new data when it comes, and on the last step the new data are then saved with no question.
pub stale_test_lets_save :
    (w : Wizard) (d : AddClusterRequest) (result : TestConnectionResult)
    → w.tests ≡ d ∷ []
    → w.state.request ≢ d
    → w.state.step ≡ 6
    → w.state.saving ≡ false
    → let w' = act w (test_settled 0 (resolved result)) in
      (w'.state.test_result ≡ some result)
      × (w'.state.request ≢ d)
      × ((act w' (save_clicked false)).saves ≡ w.state.request ∷ w.saves)
unfolding act test_settles handle_save
stale_test_lets_save w d result one other last free = rw (one, act, last, free) (refl, other, refl)
