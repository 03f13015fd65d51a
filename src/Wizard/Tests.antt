-- ===== src/Wizard/Tests.antt =====
-- The wizard's theorems at concrete data.
use kafka_ui.Base.{
  ◌≡◌, ◌≢◌, refl, ◌↔◌, ◌⊎◌, true, false, none, some, List, [], ◌∷◌, All, codes, trim, length, split,
  parse_int, is_digit, ◌++◌, ap, arith, ◌≤◌, replicate,
}
use kafka_ui.Api.Errors.{resolved}
use kafka_ui.Api.Clusters.{AddClusterRequest, NamedEndpoint, TestConnectionResult}
use kafka_ui.Wizard.ConnectionStep.{
  port_of, validate_bootstrap, validate_name, bad_port, is_name_char, is_host_char,
}
use kafka_ui.Wizard.ConnectionStep.Laws.{
  IsBootstrap, InRange, validate_bootstrap_iff, validate_bootstrap-bad_port_iff,
}
use kafka_ui.Wizard.State.{blank_request, merge, reducer}
use kafka_ui.Wizard.ConnectionStep.Endpoints.{Parsed}
use kafka_ui.Wizard.Steps.{
  name_typed, bootstrap_typed, connect_added, partial_of, step_of, is_shown,
}
use kafka_ui.Regex.{matches}
use kafka_ui.Wizard.Steps.Laws.{IsCompact, partial_of-IsCompact, blank_request-IsCompact}
use kafka_ui.Wizard.Flow.{
  Wizard, initial_wizard, Event, edited, next_clicked, test_clicked, save_clicked, test_settled,
  act, run, connection_ok, can_next, handle_next, handle_test, handle_save,
}
use kafka_ui.Wizard.Flow.Laws.{IsChecked, run-IsChecked, run_one_request}
use kafka_ui.Wizard.Flow.Moves.{MovesFrom, act-MovesFrom, run-next_reaches_review}
use kafka_ui.Wizard.Flow.Stale.{stale_test_lets_save}

abbrev local : AddClusterRequest
local = record blank_request {
  name = codes "dev-1";
  bootstrap_servers = codes "localhost:9092, b:9093";
}

abbrev typing : List Event
typing = edited (name_typed local.name) ∷ edited (bootstrap_typed local.bootstrap_servers) ∷ []

abbrev clicks : List Event
clicks = replicate 6 next_clicked

abbrev session : List Event
session = typing ++ clicks ++ test_clicked ∷ save_clicked true ∷ []

-- The wizard at the review step, with a test of other data under way.
abbrev reviewing : Wizard
reviewing = record (initial_wizard none) {
  state = record (initial_wizard none).state { step = 6; request = local };
  tests = blank_request ∷ [];
}

abbrev passed : TestConnectionResult
passed = record { status = codes "ok"; error = none }

abbrev entry : NamedEndpoint
entry = record { name = codes "c"; url = codes "http://c:8083" }

abbrev rename : NamedEndpoint → NamedEndpoint
rename e = record e { name = codes "d" }

abbrev ready : Wizard
ready = record (initial_wizard none) {
  state = record (initial_wizard none).state { request = local };
}

checks : Unit {0}
unfolding connection_ok validate_name validate_bootstrap trim matches is_name_char is_host_char
    is_digit split parse_int
checks = tt

session_sends : length (run (initial_wizard none) session).calls ≡ 2
unfolding checks run act handle_next handle_test handle_save can_next port_of step_of is_shown
    partial_of reducer
session_sends = refl

local_is_ok : connection_ok local ≡ true
unfolding checks
local_is_ok = refl

bad_port_test : validate_bootstrap (codes " a:9, b:70000") ≡ some bad_port
unfolding checks
bad_port_test = refl

differs : local ≢ blank_request
differs e = let bad : length local.name ≡ 0 = ap (λ d. length d.name) e in absurd (omega arith)

run-IsChecked_example :
    All
      (IsChecked (run (initial_wizard none) session).editing)
      (run (initial_wizard none) session).calls
run-IsChecked_example = run-IsChecked none session

validate_bootstrap_iff_example :
    (validate_bootstrap (codes " a:1, b:65535 ") ≡ none)
    ↔ ((trim (codes " a:1, b:65535 ") ≡ []) ⊎ IsBootstrap (trim (codes " a:1, b:65535 ")))
validate_bootstrap_iff_example = validate_bootstrap_iff (codes " a:1, b:65535 ")

stale_test_lets_save_example :
    let w' = act reviewing (test_settled 0 (resolved passed)) in
    (w'.state.test_result ≡ some passed)
    × (w'.state.request ≢ blank_request)
    × ((act w' (save_clicked false)).saves ≡ local ∷ [])
stale_test_lets_save_example =
    stale_test_lets_save reviewing blank_request passed refl differs refl refl

run-next_reaches_review_example :
    ((run ready (replicate 6 next_clicked)).state.step ≡ 6)
    × ((run ready (replicate 6 next_clicked)).state.request ≡ local)
run-next_reaches_review_example = run-next_reaches_review 6 ready local_is_ok refl

run_one_request_example :
    let w = run (initial_wizard none) session in
    ((length w.tests ≤ 1) × ((w.state.testing ≡ true) ↔ (length w.tests ≡ 1)))
    × ((length w.saves ≤ 1) × ((w.state.saving ≡ true) ↔ (length w.saves ≡ 1)))
run_one_request_example = run_one_request none session

act-MovesFrom_example : MovesFrom ready (act ready next_clicked)
act-MovesFrom_example = act-MovesFrom ready next_clicked

validate_bootstrap-bad_port_iff_example :
    (validate_bootstrap (codes "a:9, b:70000") ≡ some bad_port)
    ↔ ((p : Parsed (trim (codes "a:9, b:70000"))) × ¬ All InRange (p.first ∷ p.others))
validate_bootstrap-bad_port_iff_example = validate_bootstrap-bad_port_iff (codes "a:9, b:70000")

partial_of-IsCompact_example :
    IsCompact (merge blank_request (partial_of blank_request (connect_added)))
unfolding is_shown
partial_of-IsCompact_example =
    partial_of-IsCompact blank_request connect_added refl blank_request-IsCompact

name_changed : (act ready (edited (name_typed []))).state.request ≢ ready.state.request
unfolding act step_of is_shown partial_of reducer merge
name_changed e = let bad : 0 ≡ length local.name = ap (λ d. length d.name) e in absurd (omega arith)
