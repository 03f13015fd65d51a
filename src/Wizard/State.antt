-- ===== src/Wizard/State.antt =====
-- The state of ClusterWizard.tsx and its reducer.
use kafka_ui.Base.{ℕ, Bool, false, Option, none, some, List, Text, codes}
use kafka_ui.Api.Clusters.{
  Tls, Sasl, Endpoint, NamedEndpoint, AddClusterRequest, TestConnectionResult,
}

-- Partial<AddClusterRequest>: `none` is an absent key, `some none` a key that is undefined.
pub record Partial : Type 0 where
  pub name : Option Text
  pub bootstrap_servers : Option Text
  pub tls : Option (Option Tls)
  pub sasl : Option (Option Sasl)
  pub schema_registry : Option (Option Endpoint)
  pub kafka_connect : Option (Option (List NamedEndpoint))
  pub ksql : Option (Option Endpoint)
  pub metrics : Option (Option Endpoint)

abbrev pub no_change : Partial
no_change = record {
  name = none;
  bootstrap_servers = none;
  tls = none;
  sasl = none;
  schema_registry = none;
  kafka_connect = none;
  ksql = none;
  metrics = none;
}

abbrev pub given_or {ℓ} : {A : Type ℓ} → Option A → A → A
given_or none a = a
given_or (some b) a = b

-- `{ ...state.data, ...action.data }`
unfoldable pub merge : AddClusterRequest → Partial → AddClusterRequest
merge d p = record {
  name = given_or p.name d.name;
  bootstrap_servers = given_or p.bootstrap_servers d.bootstrap_servers;
  tls = given_or p.tls d.tls;
  sasl = given_or p.sasl d.sasl;
  schema_registry = given_or p.schema_registry d.schema_registry;
  kafka_connect = given_or p.kafka_connect d.kafka_connect;
  ksql = given_or p.ksql d.ksql;
  metrics = given_or p.metrics d.metrics;
}

pub record WizardState : Type 0 where
  pub step : ℕ
  pub request : AddClusterRequest
  pub test_result : Option TestConnectionResult
  pub testing : Bool
  pub saving : Bool
  pub error : Option Text

pub data Action : Type 0 where
  set_step : ℕ → Action
  update_data : Partial → Action
  set_test_result : Option TestConnectionResult → Action
  set_testing : Bool → Action
  set_saving : Bool → Action
  set_error : Option Text → Action

unfoldable pub reducer : WizardState → Action → WizardState
unfolding merge
reducer s (set_step n) = record s { step = n }
reducer s (update_data p) = record s { request = merge s.request p; test_result = none }
reducer s (set_test_result r) = record s { test_result = r }
reducer s (set_testing b) = record s { testing = b }
reducer s (set_saving b) = record s { saving = b }
reducer s (set_error e) = record s { error = e }

abbrev pub blank_request : AddClusterRequest
blank_request = record {
  name = codes "";
  bootstrap_servers = codes "";
  tls = none;
  sasl = none;
  schema_registry = none;
  kafka_connect = none;
  ksql = none;
  metrics = none;
}

-- The initial state; `initialData` is given when a cluster is edited.
abbrev pub initial_state : Option AddClusterRequest → WizardState
initial_state initial = record {
  step = 0;
  request = given_or initial blank_request;
  test_result = none;
  testing = false;
  saving = false;
  error = none;
}
