-- ===== src/Topics/Tests.antt =====
-- The topics page on a session.
use kafka_ui.Base.{
  ◌≡◌, ◌⊎◌, inl, inr, refl, ap, get_elem?, arith, Bool, true, false, some, List, [], ◌∷◌, All, Text,
  codes, pos, negsuc, parse_int, trim_start, is_space, includes, starts_with,
}
use kafka_ui.Api.Errors.{resolved}
use kafka_ui.Api.Bodies.{CreateTopicRequest}
use kafka_ui.Api.Routes.{topics_create, topics_delete}
use kafka_ui.ListPage
use kafka_ui.ListPage.{
  Rights, Event, fetched, search_typed, create_opened, create_closed, edited, submitted,
  create_settled, delete_clicked, confirmed, reloaded, initial_page, is_listed, listed, Page,
  filtered, on_confirm, create, create_settles,
}
use kafka_ui.ListPage.Deletes.{clicked_confirmed}
use kafka_ui.Search.{is_match}
use kafka_ui.Topics.{
  TopicInfo, TopicEdit, name_typed, partitions_typed, replicas_typed, count_of, edit_topic,
  topic_target, topics_page, run,
}
use kafka_ui.Topics.Detail
use kafka_ui.Topics.Detail.{TopicEvent, settles}
use kafka_ui.Topics.Detail.Laws.{IsDeletion, opened-IsDeletion}
use kafka_ui.Topics.Laws.{IsTopicsCall, run-IsTopicsCall}

abbrev topic : Text → Bool → TopicInfo
topic name internal = record { name = name; partitions = 1; replicas = 1; internal = internal }

abbrev everything : Rights
everything = record { creates = true; deletes = true }

abbrev topics : List TopicInfo
topics =
    topic (codes "orders") false
    ∷ topic (codes "__offsets") true
    ∷ topic (codes "payments") false
    ∷ []

abbrev session : List (Event TopicInfo TopicEdit)
session =
    fetched (resolved topics)
    ∷ delete_clicked 1
    ∷ confirmed
    ∷ create_opened
    ∷ submitted
    ∷ edited (name_typed (codes "new"))
    ∷ edited (partitions_typed (codes "0"))
    ∷ edited (replicas_typed (codes "-2"))
    ∷ submitted
    ∷ create_settled (resolved tt)
    ∷ search_typed (codes "pay")
    ∷ delete_clicked 0
    ∷ fetched (resolved [])
    ∷ confirmed
    ∷ []

session_calls :
    (run (λ t. t) (codes "c") everything session).calls
    ≡ topics_delete (codes "c") (codes "payments")
      ∷ topics_create
          (codes "c")
          (record { name = codes "new"; partitions = some (pos 1); replicas = some (negsuc 1) })
      ∷ []
unfolding ListPage.run ListPage.act filtered on_confirm create create_settles is_match count_of
    edit_topic topic_target topics_page includes starts_with parse_int trim_start is_space
session_calls = refl

abbrev IsListed : Text → Type 0
IsListed name = (name ≡ codes "orders") ⊎ (name ≡ codes "payments")

run-IsTopicsCall_example :
    All
      (IsTopicsCall (codes "c") everything IsListed)
      (run (λ t. t) (codes "c") everything session).calls
run-IsTopicsCall_example =
    run-IsTopicsCall (codes "c") everything IsListed (λ t. t) session
      (((λ e. inl refl), ((λ e. absurd (cc)), ((λ e. inr refl), tt))), omega arith)

abbrev shown : Page TopicInfo CreateTopicRequest Text
shown = record (initial_page (topics_page (λ t. t) (codes "c"))) { view = listed topics }

-- While the dialog asks about "payments", the list changes and a form is tried.
abbrev meanwhile : List (Event TopicInfo TopicEdit)
meanwhile =
    fetched (resolved (topic (codes "orders") false ∷ []))
    ∷ create_opened
    ∷ delete_clicked 0
    ∷ reloaded
    ∷ fetched (resolved topics)
    ∷ []

meanwhile_ends :
    is_listed
      (ListPage.run
        (topics_page (λ t. t) (codes "c"))
        everything
        (ListPage.act (topics_page (λ t. t) (codes "c")) everything shown (delete_clicked 2))
        meanwhile).view
    ≡ true
unfolding ListPage.run ListPage.act filtered is_match includes starts_with topics_page topic_target
meanwhile_ends = refl

found :
    (filtered (topics_page (λ t. t) (codes "c")) shown ≡ topics)
    × ((topics_page (λ t. t) (codes "c")).target (topic (codes "payments") false)
        ≡ some (codes "payments"))
    × ((topics_page (λ t. t) (codes "c")).waits ≡ false)
unfolding filtered is_match includes starts_with topics_page topic_target
found = (refl, refl, refl)

clicked_confirmed_example :
    (ListPage.act
      (topics_page (λ t. t) (codes "c"))
      everything
      (ListPage.run
        (topics_page (λ t. t) (codes "c"))
        everything
        (ListPage.act (topics_page (λ t. t) (codes "c")) everything shown (delete_clicked 2))
        meanwhile)
      confirmed).calls
    ≡ (topics_page (λ t. t) (codes "c")).delete (codes "payments") ∷ []
clicked_confirmed_example =
    clicked_confirmed (topics_page (λ t. t) (codes "c")) everything shown 2
      (topic (codes "payments") false) (codes "payments") meanwhile (ground arith)
      (ap (λ ts. get_elem? ts 2) found.0) found.1 (tt, (tt, (tt, (tt, (tt, tt))))) meanwhile_ends

-- The topic's own page: the dialog is opened, and the topic has become internal by the time that the
-- deletion is confirmed.
abbrev detail_session : List TopicEvent
detail_session =
    Detail.delete_clicked
    ∷ Detail.fetched (resolved (record { name = codes "t"; internal = false }))
    ∷ Detail.confirmed
    ∷ Detail.delete_clicked
    ∷ Detail.fetched (resolved (record { name = codes "t"; internal = true }))
    ∷ Detail.confirmed
    ∷ Detail.delete_clicked
    ∷ Detail.settled (resolved tt)
    ∷ []

detail_session_ends :
    ((Detail.opened (codes "c") (codes "t") true detail_session).calls
      ≡ topics_delete (codes "c") (codes "t") ∷ [])
    × ((Detail.opened (codes "c") (codes "t") true detail_session).left ≡ true)
    × ((Detail.opened (codes "c") (codes "t") false detail_session).calls ≡ [])
unfolding Detail.run Detail.step settles
detail_session_ends = (refl, refl, refl)

opened-IsDeletion_example :
    All
      (IsDeletion (codes "c") (codes "t") true (codes "t" ≡ codes "t"))
      (Detail.opened (codes "c") (codes "t") true detail_session).calls
opened-IsDeletion_example =
    opened-IsDeletion (codes "c") (codes "t") true (codes "t" ≡ codes "t") detail_session
      (tt, ((λ _. refl), (tt, (tt, ((λ _. refl), (tt, (tt, (tt, tt))))))))
