-- ===== src/Browser/Page.antt =====
-- The page of TopicMessagesPage.tsx: the toolbar, the filter, the query and the live tail together.
pub mod Laws
use kafka_ui.Base.{
  ℕ, ◌+◌, Bool, true, false, not, ◌&&◌, ◌||◌, Option, none, some, ◌++◌, if◌then◌else◌, Text, codes,
  truthy, text_eq, ◌≡◌, refl,
}
use kafka_ui.Api.Errors.{Settled}
use kafka_ui.Api.Messages.{BrowseParams}
use kafka_ui.LiveTail.{Hook, disconnected, connecting, connected, connect, disconnect, clear}
use kafka_ui.Browser.Filter.{CelResult, FilterState, type_filter}
use kafka_ui.Browser.Browse.{Toolbar, OffsetMode, fetch_params, limit_of}

-- `params` and `nonce` are the key of the query.
pub record BrowserPage : Type 0 where
  pub toolbar : Toolbar
  pub check : FilterState
  pub params : Option BrowseParams
  pub nonce : ℕ
  pub expanded : Option Text
  pub hook : Hook

abbrev pub is_live : Hook → Bool
is_live h = elim h.state [ disconnected ↦ false | connecting ↦ true | connected ↦ true ]

-- The address of the live tail, from the two parameters of the route.
abbrev pub ws_url : Option Text → Option Text → Option Text
ws_url none topic_name = none
ws_url (some cluster_name) none = none
ws_url (some cluster_name) (some topic_name) =
    if truthy cluster_name && truthy topic_name
    then some (
        codes "/ws/clusters/"
        ++ (cluster_name ++ (codes "/topics/" ++ (topic_name ++ codes "/live"))))
    else none

abbrev pub has_text : Option Text → Bool
has_text none = false
has_text (some t) = truthy t

-- `enabled` of the query.
unfoldable pub query_enabled : Option Text → Option Text → BrowserPage → Bool
query_enabled cluster_name topic_name p =
    has_text cluster_name
    && has_text topic_name
    && (elim p.params [ none ↦ false | some q ↦ true ])
    && not (is_live p.hook)

unfoldable pub toggle_row : Text → BrowserPage → BrowserPage
toggle_row key p = record p {
  expanded = elim p.expanded [
    | none ↦ some key
    | some k ↦ if text_eq k key then none else some key
  ];
}

pub data Event : Type 0 where
  partition_typed custom_offset_typed timestamp_typed limit_typed filter_typed : Text → Event
  mode_chosen : OffsetMode → Event
  -- whether the query is loading
  fetch_clicked : Bool → Event
  enter_pressed live_clicked clear_clicked : Event
  row_clicked : Text → Event

module _ (https : Bool) (host : Text) (url : Option Text) (to_iso_string : Text → Option Text) where
  unfoldable pub handle_fetch : BrowserPage → BrowserPage
  handle_fetch p = elim (fetch_params to_iso_string p.toolbar) [
    | none ↦ p
    | some q ↦ record p { params = some q; nonce = p.nonce + 1 }
  ]

  unfoldable pub toggle_live_tail : BrowserPage → BrowserPage
  toggle_live_tail p = if is_live p.hook then record p { hook = disconnect p.hook } else record p {
    params = none;
    hook =
        connect https host url
          (if truthy p.toolbar.cel_filter then some p.toolbar.cel_filter else none) p.hook;
  }

  -- While the live tail is on, the fields and "Fetch" are disabled; the filter is not.
  unfoldable pub act : BrowserPage → Event → BrowserPage
  unfolding handle_fetch toggle_live_tail toggle_row
  act p (partition_typed v) =
      if is_live p.hook then p else record p { toolbar = record p.toolbar { partition = v } }
  act p (custom_offset_typed v) =
      if is_live p.hook then p else record p { toolbar = record p.toolbar { custom_offset = v } }
  act p (timestamp_typed v) =
      if is_live p.hook then p else record p { toolbar = record p.toolbar { timestamp = v } }
  act p (limit_typed v) =
      if is_live p.hook then p else record p { toolbar = record p.toolbar { limit = limit_of v } }
  act p (mode_chosen m) =
      if is_live p.hook then p else record p { toolbar = record p.toolbar { offset_mode = m } }
  act p (filter_typed v) = record p {
    toolbar = record p.toolbar { cel_filter = v };
    check = type_filter v p.check;
  }
  act p (fetch_clicked is_loading) = if is_live p.hook || is_loading then p else handle_fetch p
  act p enter_pressed = if is_live p.hook then p else handle_fetch p
  act p live_clicked = toggle_live_tail p
  act p clear_clicked = if is_live p.hook then record p { hook = clear p.hook } else p
  act p (row_clicked key) = toggle_row key p
