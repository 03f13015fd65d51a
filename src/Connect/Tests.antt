-- ===== src/Connect/Tests.antt =====
-- The pages of Kafka Connect on concrete connectors.
use kafka_ui.Base.{
  ◌≡◌, refl, true, false, some, List, [], ◌∷◌, All, Text, codes, includes, starts_with, text_eq,
  arith, if◌then◌else◌,
}
use kafka_ui.Api.Bodies.{Json, array_json, object_json, no_items, no_fields, text_fields}
use kafka_ui.Api.Errors.{Thrown, error_object, Settled, resolved, rejected}
use kafka_ui.Api.Messages.{Headers}
use kafka_ui.Api.Routes.{connect_create, connect_pause, connect_resume}
use kafka_ui.ListPage
use kafka_ui.ListPage.{
  Event, fetched, create_opened, edited, submitted, create_settled, delete_clicked, confirmed,
  filtered, on_confirm, create, create_settles,
}
use kafka_ui.Search.{is_match}
use kafka_ui.Connect.{
  ConnectorInfo, name_typed, config_typed, edit_connector, pauses, resumes, ConnectEvent, on_page,
  row_clicked, row_settled, connector_call, connect_page, click_row, settle_row, act, run,
  initial_connect,
}
use kafka_ui.Connect.Laws.{Listing, IsConnectCall, run-IsConnectCall}
use kafka_ui.Connect.Detail
use kafka_ui.Connect.Detail.{
  ConnectorDetail, update, loaded, DetailPage, initial_detail, edit_clicked, edit_closed,
  save_clicked, shown_error,
}
use kafka_ui.Connect.Detail.Laws.{edited_saved, reopened_shows_error}

abbrev connector : Text → Text → ConnectorInfo
connector name state = record {
  name = name;
  connector_type = codes "source";
  state = state;
  worker_id = codes "w";
  connect_cluster = codes "c1";
}

abbrev no_json : Thrown
no_json = error_object (codes "SyntaxError") (codes "Unexpected token")

-- A parser that knows two texts.
abbrev parse : Text → Settled Json
parse t =
    if text_eq t (codes "{}")
    then resolved (object_json no_fields)
    else if text_eq t (codes "[]")
    then resolved (array_json no_items)
    else rejected no_json

abbrev session : List ConnectEvent
session =
    on_page (
      fetched (
        resolved
          (connector (codes "a") (codes "RUNNING") ∷ connector (codes "b") (codes "PAUSED") ∷ [])))
    ∷ row_clicked pauses 0
    ∷ row_clicked pauses 0
    ∷ row_clicked pauses 1
    ∷ row_clicked resumes 1
    ∷ row_settled 0 (resolved tt)
    ∷ on_page create_opened
    ∷ on_page (edited (name_typed (codes "n")))
    ∷ on_page (edited (config_typed (codes "[]")))
    ∷ on_page submitted
    ∷ on_page (edited (config_typed (codes "{}")))
    ∷ on_page submitted
    ∷ []

session_calls :
    (run
      (λ t. t)
      parse
      (codes "c")
      true
      (initial_connect (λ t. t) parse (codes "c"))
      session).page.calls
    ≡ connect_create (codes "c") (record { name = codes "n"; config = no_fields })
      ∷ connect_resume (codes "c") (codes "b")
      ∷ connect_pause (codes "c") (codes "a")
      ∷ []
unfolding run act ListPage.act filtered on_confirm create create_settles is_match edit_connector
    connector_call connect_page click_row settle_row includes starts_with text_eq
session_calls = refl

abbrev listing : Listing
listing = record {
  IsListed = λ t. Unit;
  IsRunning = λ t. t ≡ codes "a";
  IsIdle = λ t. t ≡ codes "b";
}

a-b-IsGiven :
    (text_eq (codes "RUNNING") (codes "RUNNING") ≡ true)
    × (text_eq (codes "PAUSED") (codes "RUNNING") ≡ false)
unfolding text_eq
a-b-IsGiven = (refl, refl)

run-IsConnectCall_example :
    All
      (IsConnectCall parse (codes "c") true listing)
      (run
        (λ t. t)
        parse
        (codes "c")
        true
        (initial_connect (λ t. t) parse (codes "c"))
        session).page.calls
run-IsConnectCall_example =
    run-IsConnectCall parse (codes "c") true listing (λ t. t) session
      (
        ((
          (tt, (λ r. refl), (λ i. absurd (cc (a-b-IsGiven.0)))),
          ((tt, (λ r. absurd (cc (a-b-IsGiven.1))), (λ i. refl)), tt),
        )),
        omega arith,
      )

abbrev detail : ConnectorDetail
detail = record { name = codes "a"; state = codes "RUNNING"; config = [] }

abbrev detail_page : DetailPage
detail_page = record initial_detail { view = loaded detail }

abbrev typing : DetailPage
typing = record detail_page { edit_open = true; config_json = codes "oops" }

abbrev write : Headers → Text
write h = codes "{}"

parses :
    (parse (write detail.config) ≡ resolved (object_json (text_fields detail.config)))
    × (parse typing.config_json ≡ rejected no_json)
unfolding text_eq
parses = (refl, refl)

edited_saved_example :
    (Detail.act parse write
      (λ t. t)
      (Detail.act parse write (λ t. t) detail_page edit_clicked)
      save_clicked).calls
    ≡ update (object_json no_fields) ∷ []
edited_saved_example =
    edited_saved parse write (λ t. t) detail_page detail refl refl refl refl parses.0

reopened_shows_error_example :
    let q =
      Detail.act parse write
        (λ t. t)
        (Detail.act parse write
          (λ t. t)
          (Detail.act parse write (λ t. t) typing save_clicked)
          edit_closed)
        edit_clicked in
    (shown_error q ≡ some (codes "Invalid JSON configuration"))
    × (q.edit_open ≡ true)
    × (parse q.config_json ≡ resolved (object_json no_fields))
reopened_shows_error_example =
    reopened_shows_error parse write (λ t. t) typing detail no_json refl refl refl refl refl
      parses.1 parses.0
