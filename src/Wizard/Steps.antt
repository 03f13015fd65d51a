-- ===== src/Wizard/Steps.antt =====
-- The change handlers of frontend/src/components/wizard/steps: what each control passes to
-- `onChange`, and when the control is shown.
pub mod Laws
pub mod Entries
use kafka_ui.Base.{
  ℕ, Bool, true, false, Option, none, some, List, [], ◌∷◌, ◌++◌, length, set, erase_idx, get_elem?,
  any, ltb, if◌then◌else◌, Text, codes, truthy, text_eq,
}
use kafka_ui.Api.Clusters.{Tls, Sasl, Endpoint, NamedEndpoint, AddClusterRequest}
use kafka_ui.Wizard.State.{Partial, no_change, given_or}

-- `s || undefined`
abbrev pub or_undefined : Text → Option Text
or_undefined s = if truthy s then some s else none

-- SecurityStep
unfoldable pub check_tls : Option Tls → Bool → Option Tls
check_tls tls checked =
    if checked
    then some (record { enabled = true; ca_file = elim tls [ none ↦ none | some t ↦ t.ca_file ] })
    else none

unfoldable pub change_ca_file : Text → Option Tls
change_ca_file value = some (record { enabled = true; ca_file = or_undefined value })

abbrev pub tls_enabled : Option Tls → Bool
tls_enabled none = false
tls_enabled (some t) = t.enabled

-- AuthStep
abbrev pub mechanisms : List Text
mechanisms = codes "PLAIN" ∷ codes "SCRAM-SHA-256" ∷ codes "SCRAM-SHA-512" ∷ []

abbrev pub mechanism_of : Option Sasl → Text
mechanism_of none = []
mechanism_of (some s) = s.mechanism

abbrev pub username_of : Option Sasl → Text
username_of none = []
username_of (some s) = s.username

abbrev pub password_of : Option Sasl → Text
password_of none = []
password_of (some s) = s.password

unfoldable pub choose_mechanism : Option Sasl → Text → Option Sasl
choose_mechanism sasl v =
    if text_eq v (codes "none")
    then none
    else some (record { mechanism = v; username = username_of sasl; password = password_of sasl })

unfoldable pub change_username : Option Sasl → Text → Option Sasl
change_username sasl v =
    some (record { mechanism = mechanism_of sasl; username = v; password = password_of sasl })

unfoldable pub change_password : Option Sasl → Text → Option Sasl
change_password sasl v =
    some (record { mechanism = mechanism_of sasl; username = username_of sasl; password = v })

-- SchemaRegistryStep and KsqlStep
unfoldable pub change_url : Text → Option Endpoint
change_url v = if truthy v then some (record { url = v }) else none

-- KafkaConnectStep
abbrev pub entries_of : Option (List NamedEndpoint) → List NamedEndpoint
entries_of none = []
entries_of (some entries) = entries

unfoldable pub add_entry : Option (List NamedEndpoint) → Option (List NamedEndpoint)
add_entry kc = some (entries_of kc ++ (record { name = []; url = [] } ∷ []))

unfoldable pub remove_entry : Option (List NamedEndpoint) → ℕ → Option (List NamedEndpoint)
remove_entry kc i =
    let next = erase_idx (entries_of kc) i in if ltb 0 (length next) then some next else none

unfoldable pub update_entry :
    (NamedEndpoint → NamedEndpoint) → Option (List NamedEndpoint) → ℕ → Option (List NamedEndpoint)
update_entry change kc i = elim (get_elem? (entries_of kc) i) [
  | none ↦ some (entries_of kc)
  | some entry ↦ some (set (entries_of kc) i (change entry))
]

-- One change by the user, in any of the steps.
pub data StepEdit : Type 0 where
  name_typed bootstrap_typed : Text → StepEdit
  tls_checked : Bool → StepEdit
  ca_file_typed : Text → StepEdit
  mechanism_chosen username_typed password_typed : Text → StepEdit
  registry_url_typed : Text → StepEdit
  connect_added : StepEdit
  connect_removed : ℕ → StepEdit
  connect_name_typed connect_url_typed : ℕ → Text → StepEdit
  ksql_url_typed : Text → StepEdit

-- The step that `renderStep` shows the control in.
unfoldable pub step_of : StepEdit → ℕ
step_of (name_typed v) = 0
step_of (bootstrap_typed v) = 0
step_of (tls_checked b) = 1
step_of (ca_file_typed v) = 1
step_of (mechanism_chosen v) = 2
step_of (username_typed v) = 2
step_of (password_typed v) = 2
step_of (registry_url_typed v) = 3
step_of connect_added = 4
step_of (connect_removed i) = 4
step_of (connect_name_typed i v) = 4
step_of (connect_url_typed i v) = 4
step_of (ksql_url_typed v) = 5

-- The conditions under which the steps render a control, and the values that a select offers.
unfoldable pub is_shown : AddClusterRequest → StepEdit → Bool
is_shown d (ca_file_typed v) = tls_enabled d.tls
is_shown d (mechanism_chosen v) = any (text_eq v) (codes "none" ∷ mechanisms)
is_shown d (username_typed v) = truthy (mechanism_of d.sasl)
is_shown d (password_typed v) = truthy (mechanism_of d.sasl)
is_shown d (connect_removed i) = ltb i (length (entries_of d.kafka_connect))
is_shown d (connect_name_typed i v) = ltb i (length (entries_of d.kafka_connect))
is_shown d (connect_url_typed i v) = ltb i (length (entries_of d.kafka_connect))
is_shown d _ = true

-- What `dispatch({ type: "UPDATE_DATA", data })` receives.
unfoldable pub partial_of : AddClusterRequest → StepEdit → Partial
unfolding check_tls change_ca_file choose_mechanism change_username change_password change_url
    add_entry remove_entry update_entry
partial_of d (name_typed v) = record no_change {
  name = some v;
  bootstrap_servers = some d.bootstrap_servers;
}
partial_of d (bootstrap_typed v) = record no_change {
  name = some d.name;
  bootstrap_servers = some v;
}
partial_of d (tls_checked b) = record no_change { tls = some (check_tls d.tls b) }
partial_of d (ca_file_typed v) = record no_change { tls = some (change_ca_file v) }
partial_of d (mechanism_chosen v) = record no_change { sasl = some (choose_mechanism d.sasl v) }
partial_of d (username_typed v) = record no_change { sasl = some (change_username d.sasl v) }
partial_of d (password_typed v) = record no_change { sasl = some (change_password d.sasl v) }
partial_of d (registry_url_typed v) = record no_change { schema_registry = some (change_url v) }
partial_of d connect_added = record no_change { kafka_connect = some (add_entry d.kafka_connect) }
partial_of d (connect_removed i) = record no_change {
  kafka_connect = some (remove_entry d.kafka_connect i);
}
partial_of d (connect_name_typed i v) = record no_change {
  kafka_connect = some (update_entry (λ e. record e { name = v }) d.kafka_connect i);
}
partial_of d (connect_url_typed i v) = record no_change {
  kafka_connect = some (update_entry (λ e. record e { url = v }) d.kafka_connect i);
}
partial_of d (ksql_url_typed v) = record no_change { ksql = some (change_url v) }
