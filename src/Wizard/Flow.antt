-- ===== src/Wizard/Flow.antt =====
-- The component of ClusterWizard.tsx: its handlers, the controls that it renders, and the requests
-- that are under way. A promise that settles later is an event of its own.
pub mod Invariant
pub mod Laws
pub mod Moves
pub mod Stale
use kafka_ui.Base.{
  ℕ, zero, suc, ◌+◌, ◌-◌, Bool, true, false, not, ◌&&◌, ◌||◌, Option, none, some, List, [], ◌∷◌,
  ◌++◌, length, get_elem?, erase_idx, any, ltb, ◌==◌, if◌then◌else◌, Text, codes, truthy, trim,
}
use kafka_ui.Api.Clusters.{
  AddClusterRequest, TestConnectionResult, ClusterCall, add_cluster, update_cluster,
  test_connection,
}
use kafka_ui.Api.Errors.{Thrown, Settled, resolved, rejected, string_of, get_error_message}
use kafka_ui.Wizard.ConnectionStep.{validate_bootstrap, validate_name}
use kafka_ui.Wizard.State.{
  WizardState, reducer, set_step, update_data, set_test_result, set_testing, set_saving, set_error,
  initial_state,
}
use kafka_ui.Wizard.Steps.{StepEdit, step_of, is_shown, partial_of}

abbrev pub steps : List Text
steps =
    codes "Connection"
    ∷ codes "Security"
    ∷ codes "Auth"
    ∷ codes "Schema Registry"
    ∷ codes "Kafka Connect"
    ∷ codes "KSQL"
    ∷ codes "Review"
    ∷ []

abbrev pub required_steps : List ℕ
required_steps = 0 ∷ 6 ∷ []

abbrev pub is_none {ℓ} : {A : Type ℓ} → Option A → Bool
is_none none = true
is_none (some a) = false

-- `tests` and `saves` hold the data of the requests under way, `calls` every request that was sent,
-- the last first, and `saved` how often `onSaved` was called.
pub record Wizard : Type 0 where
  pub state : WizardState
  pub editing : Bool
  pub tests : List AddClusterRequest
  pub saves : List AddClusterRequest
  pub calls : List ClusterCall
  pub saved : ℕ

abbrev pub initial_wizard : Option AddClusterRequest → Wizard
initial_wizard initial = record {
  state = initial_state initial;
  editing = not (is_none initial);
  tests = [];
  saves = [];
  calls = [];
  saved = 0;
}

unfoldable pub connection_ok : AddClusterRequest → Bool
connection_ok d =
    truthy (trim d.name)
    && truthy (trim d.bootstrap_servers)
    && is_none (validate_name d.name)
    && is_none (validate_bootstrap d.bootstrap_servers)

unfoldable pub can_next : WizardState → Bool
can_next s = if s.step == 0 then connection_ok s.request else true

abbrev pub is_optional_step : WizardState → Bool
is_optional_step s = not (any (λ n. n == s.step) required_steps)

abbrev pub is_last_step : WizardState → Bool
is_last_step s = s.step == length steps - 1

unfoldable pub handle_test : Wizard → Wizard
unfolding reducer
handle_test w =
    let d = w.state.request in
    record w {
      state = reducer (reducer w.state (set_testing true)) (set_test_result none);
      tests = d ∷ w.tests;
      calls = test_connection d ∷ w.calls;
    }

-- What `handleTest` does when `testConnection` settles.
unfoldable pub test_settles : WizardState → Settled TestConnectionResult → WizardState
unfolding reducer string_of
test_settles s (resolved result) =
    reducer (reducer s (set_test_result (some result))) (set_testing false)
test_settles s (rejected e) =
    let result : TestConnectionResult = record {
      status = codes "error";
      error = some (string_of e);
    } in
    reducer (reducer s (set_test_result (some result))) (set_testing false)

unfoldable pub handle_save : Wizard → Wizard
unfolding reducer
handle_save w =
    let d = w.state.request in
    record w {
      state = reducer (reducer w.state (set_saving true)) (set_error none);
      saves = d ∷ w.saves;
      calls = (if w.editing then update_cluster d.name d false else add_cluster d false) ∷ w.calls;
    }

-- What `handleSave` does when the request settles; the number says whether `onSaved` was called.
unfoldable pub save_settles : WizardState → Settled (Unit {0}) → WizardState × ℕ
unfolding reducer get_error_message
save_settles s (resolved u) = (reducer s (set_saving false), 1)
save_settles s (rejected e) =
    (reducer (reducer s (set_error (some (get_error_message e)))) (set_saving false), 0)

unfoldable pub handle_next : Wizard → Wizard
unfolding reducer can_next
handle_next w =
    if not (is_last_step w.state) && can_next w.state
    then record w { state = reducer w.state (set_step (w.state.step + 1)) }
    else w

unfoldable pub handle_enter : Wizard → Wizard
unfolding handle_next
handle_enter w = if not (is_last_step w.state) && can_next w.state then handle_next w else w

-- A step's button in WizardStepper.tsx.
pub data StepMark : Type 0 where
  completed active pending : StepMark

unfoldable pub step_mark : ℕ → ℕ → StepMark
step_mark current i = if ltb i current then completed else if i == current then active else pending

unfoldable pub on_step_click : WizardState → ℕ → WizardState
unfolding step_mark reducer
on_step_click s i = elim (step_mark s.step i) [ completed ↦ reducer s (set_step i) | _ ↦ s ]

pub data Event : Type 0 where
  edited : StepEdit → Event
  next_clicked skip_clicked enter_pressed back_clicked : Event
  step_clicked : ℕ → Event
  test_clicked : Event
  -- the answer to "Connection was not tested. Save anyway?"
  save_clicked : Bool → Event
  test_settled : ℕ → Settled TestConnectionResult → Event
  save_settled : ℕ → Settled (Unit {0}) → Event

-- One event. A control that is not rendered, or disabled, does nothing.
unfoldable pub act : Wizard → Event → Wizard
unfolding reducer handle_next handle_enter handle_test handle_save test_settles save_settles
    on_step_click
act w (edited e) =
    if w.state.step == step_of e && is_shown w.state.request e
    then record w { state = reducer w.state (update_data (partial_of w.state.request e)) }
    else w
act w next_clicked = if not (is_last_step w.state) && can_next w.state then handle_next w else w
act w skip_clicked =
    if is_optional_step w.state && not (is_last_step w.state) then handle_next w else w
act w enter_pressed = handle_enter w
act w back_clicked =
    if ltb 0 w.state.step
    then record w { state = reducer w.state (set_step (w.state.step - 1)) }
    else w
act w (step_clicked i) =
    if ltb i (length steps) then record w { state = on_step_click w.state i } else w
act w test_clicked = if w.state.step == 6 && not w.state.testing then handle_test w else w
act w (save_clicked confirmed) =
    if is_last_step w.state && not w.state.saving
    then if is_none w.state.test_result && not confirmed then w else handle_save w
    else w
act w (test_settled i outcome) = elim (get_elem? w.tests i) [
  | none ↦ w
  | some d ↦ record w { state = test_settles w.state outcome; tests = erase_idx w.tests i }
]
act w (save_settled i outcome) = elim (get_elem? w.saves i) [
  | none ↦ w
  | some d ↦
      let (s, n) = save_settles w.state outcome in
      record w { state = s; saves = erase_idx w.saves i; saved = w.saved + n }
]

unfoldable pub run : Wizard → List Event → Wizard
run w [] = w
run w (e ∷ es) = run (act w e) es
