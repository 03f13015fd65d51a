-- ===== src/Connect/Laws.antt =====
-- What the mutations of KafkaConnectPage.tsx send.
use mathlib.Core.Path.{subst}
use kafka_ui.Base.{
  ℕ, ◌≡◌, refl, Bool, true, false, not, ◌&&◌, some, List, [], ◌∷◌, All, get_elem?, any, Text,
  truthy, if_elim, option_elim, and_parts, arith,
}
use kafka_ui.Api.Bodies.{
  Json, null_json, bool_json, number_json, text_json, array_json, object_json,
}
use kafka_ui.Api.Errors.{Settled, resolved, rejected}
use kafka_ui.Api.Routes.{
  Call, connect_create, connect_delete, connect_restart, connect_pause, connect_resume,
}
use kafka_ui.ListPage.{Rights, Page, filtered, is_free}
use kafka_ui.ListPage.Sends.{
  Lawful, IsGivenEvent, resolved_inj, Sends, filtered-IsGiven, act-Sends, initial-Sends,
}
use kafka_ui.Connect.{
  ConnectorInfo, NewConnector, connector_target, is_running, RowAction, restarts, pauses, resumes,
  same_action, is_offered, ConnectPage, ConnectEvent, on_page, row_clicked, row_settled,
  connector_call, row_call, connect_page, click_row, settle_row, act, run, initial_connect,
}

connector_target_lem :
    (row : ConnectorInfo) (t : Text) → connector_target row ≡ some t → row.name ≡ t
connector_target_lem row t at = ground arith

-- The three things that a page's list says of a connector.
pub record Listing : Type 1 where
  pub IsListed : Text → Type 0
  pub IsRunning : Text → Type 0
  pub IsIdle : Text → Type 0

module _ (parse : Text → Settled Json) (cluster : Text) (manages : Bool) (l : Listing) where
  abbrev pub IsGivenConnector : ConnectorInfo → Type 0
  IsGivenConnector row =
      l.IsListed row.name
      × (is_running row ≡ true → l.IsRunning row.name)
      × (is_running row ≡ false → l.IsIdle row.name)

  -- A request of a mutation of the page, for a user that `manages` connectors or not.
  abbrev pub IsConnectCall : Call → Type 0
  IsConnectCall (connect_create c d) =
      (manages ≡ true)
      × (c ≡ cluster)
      × (truthy d.name ≡ true)
      × ((t : Text) × (parse t ≡ resolved (object_json d.config)))
  IsConnectCall (connect_delete c name) = (manages ≡ true) × (c ≡ cluster) × l.IsListed name
  IsConnectCall (connect_restart c name) = (manages ≡ true) × (c ≡ cluster) × l.IsListed name
  IsConnectCall (connect_pause c name) = (manages ≡ true) × (c ≡ cluster) × l.IsRunning name
  IsConnectCall (connect_resume c name) = (manages ≡ true) × (c ≡ cluster) × l.IsIdle name
  IsConnectCall _ = ⊥

  connector_call-IsConnectCall :
      (t name : Text) (c : Call)
      → manages ≡ true
      → truthy name ≡ true
      → (a : Settled Json) → parse t ≡ a
      → connector_call cluster name a ≡ resolved c
      → IsConnectCall c
  unfolding connector_call
  connector_call-IsConnectCall t name c may named (rejected e) at q = absurd (cc)
  connector_call-IsConnectCall t name c may named (resolved (object_json config)) at q =
      subst IsConnectCall
        (resolved_inj (connect_create cluster (record { name = name; config = config })) c q)
        (may, refl, named, (t, at))
  connector_call-IsConnectCall t name c may named (resolved (array_json items)) at q = absurd (cc)
  connector_call-IsConnectCall t name c may named (resolved null_json) at q = absurd (cc)
  connector_call-IsConnectCall t name c may named (resolved (bool_json b)) at q = absurd (cc)
  connector_call-IsConnectCall t name c may named (resolved (number_json n)) at q = absurd (cc)
  connector_call-IsConnectCall t name c may named (resolved (text_json u)) at q = absurd (cc)

  abbrev rights : Rights
  rights = record { creates = manages; deletes = manages }

  connect_page-Lawful :
      (to_lower_case : Text → Text)
      → Lawful
          (connect_page to_lower_case parse cluster)
          rights
          IsGivenConnector
          (λ (f : NewConnector). Unit)
          IsConnectCall
  unfolding connect_page
  connect_page-Lawful to_lower_case = record {
    initial-IsFine = tt;
    edit-IsFine = λ x f h. tt;
    submit-IsSound = λ f c may h complete at.
        connector_call-IsConnectCall f.config f.name c may
          (and_parts (truthy f.name) (truthy f.config) complete).0 (parse f.config) refl at;
    delete-IsSound =
        λ row t given may at. (may, refl, subst l.IsListed (connector_target_lem row t at) given.0);
  }

  row_call-IsConnectCall :
      (a : RowAction) (row : ConnectorInfo)
      → manages ≡ true
      → IsGivenConnector row
      → is_offered a row ≡ true
      → IsConnectCall (row_call cluster a row.name)
  row_call-IsConnectCall restarts row may given offered = (may, refl, given.0)
  row_call-IsConnectCall pauses row may given offered = (may, refl, given.1 offered)
  row_call-IsConnectCall resumes row may given offered = (may, refl, given.2 (ground arith))

  module _ (to_lower_case : Text → Text) where
    abbrev IsFinePage : Page ConnectorInfo NewConnector Text → Type 0
    IsFinePage =
        Sends (connect_page to_lower_case parse cluster) rights IsGivenConnector
          (λ (f : NewConnector). Unit) IsConnectCall (connect_page-Lawful to_lower_case)

    abbrev Keeps : ConnectPage → Type 0
    Keeps p = IsFinePage p.page

    abbrev pub IsGivenConnectEvent : ConnectEvent → Type 0
    IsGivenConnectEvent (on_page e) = IsGivenEvent IsGivenConnector e
    IsGivenConnectEvent _ = Unit

    click_row-Keeps :
        (p : ConnectPage) (a : RowAction) (i : ℕ)
        → Keeps p
        → Keeps (click_row to_lower_case parse cluster manages p a i)
    unfolding click_row
    click_row-Keeps p a i h =
        let page = connect_page to_lower_case parse cluster in
        if_elim Keeps (is_free p.page && manages && not (any (same_action a) p.pending))
          (λ t.
            option_elim Keeps (get_elem? (filtered page p.page) i) p _ (λ _. h)
              (λ row found.
                if_elim Keeps (is_offered a row)
                  (λ offered.
                    let given =
                      filtered-IsGiven page rights IsGivenConnector (λ (f : NewConnector). Unit)
                        IsConnectCall (connect_page-Lawful to_lower_case) p.page i row h.4 found in
                    let sound = row_call-IsConnectCall a row (ground arith) given offered in
                    (h.0, h.1, h.2, (sound, h.3), h.4))
                  (λ _. h)))
          (λ _. h)

    settle_row-Keeps :
        (p : ConnectPage) (i : ℕ) (r : Settled (Unit {0}))
        → Keeps p
        → Keeps (settle_row to_lower_case parse cluster p i r)
    unfolding settle_row
    settle_row-Keeps p i (resolved u) h =
        option_elim Keeps (get_elem? p.pending i) p _ (λ _. h) (λ _ _. h)
    settle_row-Keeps p i (rejected e) h = h

    act-Keeps :
        (p : ConnectPage) (e : ConnectEvent)
        → IsGivenConnectEvent e
        → Keeps p
        → Keeps (act to_lower_case parse cluster manages p e)
    unfolding act
    act-Keeps p (on_page e) g h =
        act-Sends (connect_page to_lower_case parse cluster) rights IsGivenConnector (λ f. Unit)
          IsConnectCall (connect_page-Lawful to_lower_case) p.page e g h
    act-Keeps p (row_clicked a i) g h = click_row-Keeps p a i h
    act-Keeps p (row_settled i r) g h = settle_row-Keeps p i r h

    run-Keeps :
        (p : ConnectPage) (es : List ConnectEvent)
        → All IsGivenConnectEvent es
        → Keeps p
        → Keeps (run to_lower_case parse cluster manages p es)
    unfolding run
    run-Keeps p [] g h = h
    run-Keeps p (e ∷ es) g h =
        run-Keeps (act to_lower_case parse cluster manages p e) es g.1 (act-Keeps p e g.0 h)

    -- Whatever the user does and the server answers, the page's mutations send requests only for
    -- a user that manages connectors (the GET of the list is no mutation): to create one, with a name and with an object that some text parses to; to
    -- restart or delete one that the server has listed; to pause one that it has listed as running,
    -- and to resume one that it has listed in another state.
    pub run-IsConnectCall :
        (es : List ConnectEvent)
        → All IsGivenConnectEvent es
        → All IsConnectCall
            (run to_lower_case parse cluster manages
              (initial_connect to_lower_case parse cluster)
              es).page.calls
    run-IsConnectCall es g =
        (run-Keeps (initial_connect to_lower_case parse cluster) es g (
          initial-Sends (connect_page to_lower_case parse cluster) rights IsGivenConnector
            (λ f. Unit) IsConnectCall (connect_page-Lawful to_lower_case))).3
