-- ===== src/Wizard/Flow/Laws.antt =====
-- What the wizard sends to the server, and how it moves between its steps.
use kafka_ui.Base.{
  ℕ, ◌+◌, ◌≤◌, ◌≡◌, ◌≢◌, refl, ◌↔◌, ◌⊎◌, inl, inr, Bool, true, false, Option, none, some, List, [],
  ◌∷◌, length, All, All-map, if◌then◌else◌, arith, and_parts, Text, truthy, trim,
}
use kafka_ui.Regex.Classes.{InClass}
use kafka_ui.Api.Clusters.{
  AddClusterRequest, ClusterCall, add_cluster, update_cluster, delete_cluster, test_connection,
}
use kafka_ui.Wizard.ConnectionStep.{is_name_char, validate_name, validate_bootstrap}
use kafka_ui.Wizard.ConnectionStep.Laws.{IsBootstrap, validate_name_iff, validate_bootstrap_iff}
use kafka_ui.Wizard.Flow.{
  Wizard, initial_wizard, connection_ok, is_none, handle_save, Event, save_clicked, act, run,
}
use kafka_ui.Wizard.Flow.Invariant.{IsSound, initial_wizard-IsValid, run-IsValid}

-- A name of letters, digits, "-" and "_", and a list of endpoints.
abbrev pub IsConnection : AddClusterRequest → Type 0
IsConnection d =
    (trim d.name ≢ []) × InClass is_name_char (trim d.name) × IsBootstrap (trim d.bootstrap_servers)

eq-none_of_is_none {ℓ} : {A : Type ℓ} (o : Option A) → is_none o ≡ true → o ≡ none
eq-none_of_is_none none h = refl
eq-none_of_is_none (some a) h = cc

ne-nil_of_truthy : (t : Text) → truthy t ≡ true → t ≢ []
ne-nil_of_truthy [] h e = cc
ne-nil_of_truthy (c ∷ t) h e = cc

truthy_of_ne-nil : (t : Text) → t ≢ [] → truthy t ≡ true
truthy_of_ne-nil [] h = absurd (h refl)
truthy_of_ne-nil (c ∷ t) h = refl

connection_ok_parts :
    (d : AddClusterRequest)
    → connection_ok d ≡ true
    → (truthy (trim d.name) ≡ true)
      × (truthy (trim d.bootstrap_servers) ≡ true)
      × (validate_name d.name ≡ none)
      × (validate_bootstrap d.bootstrap_servers ≡ none)
unfolding connection_ok
connection_ok_parts d h =
    let (abc, boot) = and_parts _ _ h in
    let (ab, name) = and_parts _ _ abc in
    let (a, b) = and_parts _ _ ab in (a, b, eq-none_of_is_none _ name, eq-none_of_is_none _ boot)

connection_ok_sound : (d : AddClusterRequest) → connection_ok d ≡ true → IsConnection d
connection_ok_sound d h =
    let (named, served, name, boot) = connection_ok_parts d h in
    let ok = (validate_bootstrap_iff d.bootstrap_servers).0 boot in
    (ne-nil_of_truthy _ named, (validate_name_iff d.name).0 name, filled served ok)
  where
    filled :
        truthy (trim d.bootstrap_servers) ≡ true
        → (trim d.bootstrap_servers ≡ []) ⊎ IsBootstrap (trim d.bootstrap_servers)
        → IsBootstrap (trim d.bootstrap_servers)
    filled t (inl e) = absurd (ne-nil_of_truthy _ t e)
    filled t (inr b) = b

-- A request as it may leave the wizard: an addition of a new cluster or an update addressed to the
-- name in its own body, in both cases without a second test by the server, or a test of the
-- connection; always with a cluster name and bootstrap servers that are well formed.
abbrev pub IsChecked : Bool → ClusterCall → Type 0
IsChecked editing (add_cluster d validate) = IsConnection d × (editing ≡ false) × (validate ≡ false)
IsChecked editing (update_cluster name d validate) =
    IsConnection d × (editing ≡ true) × (validate ≡ false) × (name ≡ d.name)
IsChecked editing (delete_cluster name) = ⊥
IsChecked editing (test_connection d) = IsConnection d

IsChecked-IsSound : (editing : Bool) (c : ClusterCall) → IsSound editing c → IsChecked editing c
IsChecked-IsSound editing (add_cluster d b) (ok, e, v) = (connection_ok_sound d ok, e, v)
IsChecked-IsSound editing (update_cluster n d b) (ok, e, v, same) =
    (connection_ok_sound d ok, e, v, same)
IsChecked-IsSound editing (delete_cluster n) h = h
IsChecked-IsSound editing (test_connection d) ok = connection_ok_sound d ok

-- Whatever the user does and in whatever order the requests settle, each request that the wizard
-- sends is checked: it has a nonblank name of letters, digits, "-" and "_" and a list of endpoints
-- with ports from 1 to 65535 (both cut of the blanks around them), it adds a cluster only
-- without and updates one only with initial data, and an update goes to the name in its own body.
pub run-IsChecked :
    (initial : Option AddClusterRequest) (es : List Event)
    → All
        (IsChecked (run (initial_wizard initial) es).editing)
        (run (initial_wizard initial) es).calls
run-IsChecked initial es =
    let w = run (initial_wizard initial) es in
    All-map _ _ (IsChecked-IsSound w.editing) w.calls
      (run-IsValid _ es (initial_wizard-IsValid initial)).sound

flag_lem : (b : Bool) (n : ℕ) → n ≡ (if b then 1 else 0) → (n ≤ 1) × ((b ≡ true) ↔ (n ≡ 1))
flag_lem true n h = (omega arith, ((λ _. h), (λ _. refl)))
flag_lem false n h = (omega arith, ((λ e. cc), (λ e. absurd (omega arith))))

-- At most one test and one save are under way, and the two flags of the state say which.
pub run_one_request :
    (initial : Option AddClusterRequest) (es : List Event)
    → let w = run (initial_wizard initial) es in
      ((length w.tests ≤ 1) × ((w.state.testing ≡ true) ↔ (length w.tests ≡ 1)))
      × ((length w.saves ≤ 1) × ((w.state.saving ≡ true) ↔ (length w.saves ≡ 1)))
run_one_request initial es =
    let v = run-IsValid _ es (initial_wizard-IsValid initial) in
    (flag_lem _ _ v.one_test, flag_lem _ _ v.one_save)

-- The save button sends a request exactly on the last step, when no save is under way, and when a
-- test result is shown or the user confirms.
save_clicked_iff :
    (w : Wizard) (confirmed : Bool)
    → (length (act w (save_clicked confirmed)).calls ≡ length w.calls + 1) ↔ (
        (w.state.step ≡ 6)
        × (w.state.saving ≡ false)
        × ((w.state.test_result ≢ none) ⊎ (confirmed ≡ true)))
unfolding act handle_save
save_clicked_iff w confirmed = ground arith
