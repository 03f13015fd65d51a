-- ===== src/Connect/Detail.antt =====
-- frontend/src/pages/ConnectorDetailPage.tsx, for a user who may manage connectors. `JSON.parse`,
-- `JSON.stringify` of a configuration and `toUpperCase` are parameters.
pub mod Laws
use kafka_ui.Base.{
  ℕ, ◌+◌, Bool, true, false, not, ◌&&◌, ◌||◌, Option, none, some, List, [], ◌∷◌, any, keep,
  if◌then◌else◌, Text, codes, text_eq, inl, inr, Option-cases, Bool-cases, arith,
}
use kafka_ui.Api.Errors.{Thrown, Settled, resolved, rejected, get_error_message}
use kafka_ui.Api.Messages.{Headers}
use kafka_ui.Api.Bodies.{Json, object_json, text_fields}

pub record ConnectorDetail : Type 0 where
  pub name : Text
  pub state : Text
  pub config : Headers

pub data Action : Type 0 where
  restart pause resume delete : Action
  -- The body is what the text parses to.
  update : Json → Action

abbrev pub same_kind : Action → Action → Bool
same_kind restart restart = true
same_kind pause pause = true
same_kind resume resume = true
same_kind delete delete = true
same_kind (update v) (update w) = true
same_kind _ _ = false

pub data DetailView : Type 0 where
  loading : DetailView
  failed : Thrown → DetailView
  loaded : ConnectorDetail → DetailView

-- `pending` are the mutations under way, `calls` those that were sent, the last one first (the
-- GETs of the connector are not recorded); `left` says
-- that the page has gone to the list of connectors.
pub record DetailPage : Type 0 where
  pub view : DetailView
  pub edit_open : Bool
  pub delete_open : Bool
  pub config_json : Text
  pub config_error : Option Text
  pub update_error : Option Thrown
  pub pending : List Action
  pub calls : List Action
  pub refreshes : ℕ
  pub left : Bool

abbrev pub initial_detail : DetailPage
initial_detail = record {
  view = loading;
  edit_open = false;
  delete_open = false;
  config_json = [];
  config_error = none;
  update_error = none;
  pending = [];
  calls = [];
  refreshes = 0;
  left = false;
}

abbrev pub is_update : Action → Bool
is_update (update v) = true
is_update _ = false

abbrev pub is_pending : Action → DetailPage → Bool
is_pending a p = any (same_kind a) p.pending

-- `mutate`
unfoldable pub mutate : Action → DetailPage → DetailPage
mutate a p = record p { pending = a ∷ p.pending; calls = a ∷ p.calls }

-- A button that is disabled while its own mutation is under way.
abbrev pub press : Action → DetailPage → DetailPage
press a p = if is_pending a p then p else mutate a p

abbrev pub settled : Action → DetailPage → DetailPage
settled a p = record p { pending = keep (λ b. not (same_kind a b)) p.pending }

unfoldable pub settle : Action → Settled (Unit {0}) → DetailPage → DetailPage
settle (update v) (rejected e) p = record (settled (update v) p) { update_error = some e }
settle a (rejected e) p = settled a p
settle (update v) (resolved u) p = record (settled (update v) p) {
  edit_open = false;
  refreshes = p.refreshes + 1;
}
settle delete (resolved u) p = record (settled delete p) {
  left = true;
  refreshes = p.refreshes + 1;
}
settle a (resolved u) p = record (settled a p) { refreshes = p.refreshes + 1 }

pub data DetailEvent : Type 0 where
  fetched : Settled ConnectorDetail → DetailEvent
  restart_clicked toggle_clicked : DetailEvent
  delete_clicked delete_confirmed delete_cancelled : DetailEvent
  edit_clicked edit_closed : DetailEvent
  config_typed : Text → DetailEvent
  save_clicked : DetailEvent
  action_settled : Action → Settled (Unit {0}) → DetailEvent

-- A control of the page, which is there once the connector is, and behind no dialog.
abbrev pub on_page : DetailPage → (ConnectorDetail → DetailPage) → DetailPage
on_page p f = elim p.view [
  | loading ↦ p
  | failed e ↦ p
  | loaded c ↦ if p.edit_open || p.delete_open then p else f c
]

abbrev pub in_dialog : Bool → DetailPage → DetailPage → DetailPage
in_dialog open_flag p p' = elim p.view [
  | loading ↦ p
  | failed e ↦ p
  | loaded c ↦ if open_flag then p' else p
]

-- The message under the text.
abbrev pub shown_error : DetailPage → Option Text
shown_error p = elim p.config_error [
  | some t ↦ some t
  | none ↦ elim p.update_error [ none ↦ none | some e ↦ some (get_error_message e) ]
]

unfoldable pub open_edit_dialog : (Headers → Text) → ConnectorDetail → DetailPage → DetailPage
open_edit_dialog stringify c p = record p { config_json = stringify c.config; edit_open = true }

unfoldable pub handle_save_config : (Text → Settled Json) → DetailPage → DetailPage
unfolding mutate
handle_save_config parse p = elim (parse p.config_json) [
  | rejected e ↦ record p { config_error = some (codes "Invalid JSON configuration") }
  | resolved v ↦ mutate (update v) (record p { config_error = none; update_error = none })
]

module _ (parse : Text → Settled Json) (stringify : Headers → Text)
    (to_upper_case : Text → Text) where
  abbrev pub is_paused : ConnectorDetail → Bool
  is_paused c = text_eq (to_upper_case c.state) (codes "PAUSED")

  unfoldable pub step : DetailPage → DetailEvent → DetailPage
  unfolding mutate
  step p (fetched (resolved c)) = record p { view = loaded c }
  step p (fetched (rejected e)) = record p { view = failed e }
  step p restart_clicked = on_page p (λ c. press restart p)
  step p toggle_clicked = on_page p (λ c. press (if is_paused c then resume else pause) p)
  step p delete_clicked =
      on_page p (λ c. if is_pending delete p then p else record p { delete_open = true })
  step p delete_confirmed =
      in_dialog p.delete_open p (record (mutate delete p) { delete_open = false })
  step p delete_cancelled = in_dialog p.delete_open p (record p { delete_open = false })
  step p edit_clicked = on_page p (λ c. open_edit_dialog stringify c p)
  step p edit_closed = in_dialog p.edit_open p (record p { edit_open = false })
  step p (config_typed v) = in_dialog p.edit_open p (record p { config_json = v })
  step p save_clicked =
      in_dialog p.edit_open p (if any is_update p.pending then p else handle_save_config parse p)
  step p (action_settled a r) = if is_pending a p then settle a r p else p

  -- The page is gone once it has led to the list.
  unfoldable pub act : DetailPage → DetailEvent → DetailPage
  unfolding step
  act p e = if p.left then p else step p e
