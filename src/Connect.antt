-- ===== src/Connect.antt =====
-- frontend/src/pages/KafkaConnectPage.tsx: a page with a list, and the buttons that restart, pause and
-- resume the connector of a row. ConnectorDetailPage.tsx is in Connect/Detail.antt. `JSON.parse` is a
-- parameter.
pub mod Laws
pub mod Detail
pub mod Tests
use kafka_ui.Base.{
  ℕ, ◌+◌, Bool, true, false, not, ◌&&◌, ◌||◌, Option, none, some, List, [], ◌∷◌, any, get_elem?,
  erase_idx, if◌then◌else◌, Text, codes, truthy, text_eq, includes,
}
use kafka_ui.Api.Errors.{Thrown, error_object, Settled, resolved, rejected, get_error_message}
use kafka_ui.Api.Bodies.{
  Json, null_json, bool_json, number_json, text_json, array_json, object_json,
}
use kafka_ui.Api.Routes.{
  Call, connect_create, connect_delete, connect_restart, connect_pause, connect_resume,
}
use kafka_ui.ListPage
use kafka_ui.ListPage.{Shape, Rights, Page, Event, initial_page, filtered, is_free}
use kafka_ui.Search.{is_match}

pub record ConnectorInfo : Type 0 where
  pub name : Text
  pub connector_type : Text
  pub state : Text
  pub worker_id : Text
  pub connect_cluster : Text

pub record NewConnector : Type 0 where
  pub name : Text
  pub config : Text

pub data ConnectorEdit : Type 0 where
  name_typed config_typed : Text → ConnectorEdit

abbrev pub new_connector : NewConnector
new_connector = record { name = []; config = [] }

unfoldable pub edit_connector : ConnectorEdit → NewConnector → NewConnector
edit_connector (name_typed v) f = record f { name = v }
edit_connector (config_typed v) f = record f { config = v }

-- Both fields are `required`, so the browser submits neither of them empty.
abbrev pub has_config : NewConnector → Bool
has_config f = truthy f.name && truthy f.config

abbrev pub connector_target : ConnectorInfo → Option Text
connector_target c = if truthy c.name then some c.name else none

abbrev pub is_running : ConnectorInfo → Bool
is_running c = text_eq c.state (codes "RUNNING")

pub data RowAction : Type 0 where
  restarts pauses resumes : RowAction

abbrev pub same_action : RowAction → RowAction → Bool
same_action restarts restarts = true
same_action pauses pauses = true
same_action resumes resumes = true
same_action _ _ = false

-- A running connector has "Pause", any other "Resume".
abbrev pub is_offered : RowAction → ConnectorInfo → Bool
is_offered restarts c = true
is_offered pauses c = is_running c
is_offered resumes c = not (is_running c)

-- `pending` holds the mutations of the rows' buttons that are under way.
pub record ConnectPage : Type 0 where
  pub page : Page ConnectorInfo NewConnector Text
  pub pending : List RowAction

pub data ConnectEvent : Type 0 where
  on_page : Event ConnectorInfo ConnectorEdit → ConnectEvent
  row_clicked : RowAction → ℕ → ConnectEvent
  row_settled : ℕ → Settled (Unit {0}) → ConnectEvent

abbrev no_object : Settled Call
no_object = rejected (error_object (codes "Error") (codes "Config must be a JSON object"))

-- The mutation's function, from what `JSON.parse` gives.
unfoldable pub connector_call : Text → Text → Settled Json → Settled Call
connector_call cluster name (rejected e) = rejected e
connector_call cluster name (resolved (object_json config)) =
    resolved (connect_create cluster (record { name = name; config = config }))
connector_call cluster name (resolved (array_json items)) = no_object
connector_call cluster name (resolved null_json) = no_object
connector_call cluster name (resolved (bool_json b)) = no_object
connector_call cluster name (resolved (number_json n)) = no_object
connector_call cluster name (resolved (text_json t)) = no_object

abbrev pub row_call : Text → RowAction → Text → Call
row_call cluster restarts name = connect_restart cluster name
row_call cluster pauses name = connect_pause cluster name
row_call cluster resumes name = connect_resume cluster name

module _ (to_lower_case : Text → Text) where
  -- An error of the query that is shown as a hint, with no way to retry.
  unfoldable pub is_not_configured : Thrown → Bool
  is_not_configured e = includes (to_lower_case (get_error_message e)) (codes "not configured")

  module _ (parse : Text → Settled Json) (cluster : Text) where
    unfoldable pub connect_page : Shape ConnectorInfo NewConnector ConnectorEdit Text
    connect_page = record {
      matches = λ search c. is_match to_lower_case search c.name;
      initial = new_connector;
      edit = edit_connector;
      is_complete = has_config;
      submit = λ f. connector_call cluster f.name (parse f.config);
      target = connector_target;
      delete = λ name. connect_delete cluster name;
      waits = true;
    }

    -- A button of a row; `manages` is the user's right.
    unfoldable pub click_row : Bool → ConnectPage → RowAction → ℕ → ConnectPage
    click_row manages p a i =
        if is_free p.page && manages && not (any (same_action a) p.pending)
        then elim (get_elem? (filtered connect_page p.page) i) [
          | none ↦ p
          | some c ↦
              if is_offered a c
              then record p {
                page = record p.page { calls = row_call cluster a c.name ∷ p.page.calls };
                pending = a ∷ p.pending;
              }
              else p
        ]
        else p

    unfoldable pub settle_row : ConnectPage → ℕ → Settled (Unit {0}) → ConnectPage
    settle_row p i (resolved u) = elim (get_elem? p.pending i) [
      | none ↦ p
      | some a ↦ record p {
        page = record p.page { refreshes = p.page.refreshes + 1 };
        pending = erase_idx p.pending i;
      }
    ]
    settle_row p i (rejected e) = record p { pending = erase_idx p.pending i }

    unfoldable pub act : Bool → ConnectPage → ConnectEvent → ConnectPage
    act manages p (on_page e) = record p {
      page = ListPage.act connect_page (record { creates = manages; deletes = manages }) p.page e;
    }
    act manages p (row_clicked a i) = click_row manages p a i
    act manages p (row_settled i r) = settle_row p i r

    unfoldable pub run : Bool → ConnectPage → List ConnectEvent → ConnectPage
    run manages p [] = p
    run manages p (e ∷ es) = run manages (act manages p e) es

    abbrev pub initial_connect : ConnectPage
    initial_connect = record { page = initial_page connect_page; pending = [] }
