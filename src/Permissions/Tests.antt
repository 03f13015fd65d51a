-- ===== src/Permissions/Tests.antt =====
-- A session of a user who may create topics and execute statements, and nothing else.
use kafka_ui.Base.{
  ◌≡◌, refl, Bool, true, false, none, some, List, [], ◌∷◌, All, Text, codes, truthy, text_eq, trim,
  trim_start, is_space, includes, starts_with, pos,
}
use kafka_ui.Api.Auth.{AuthStatus, PermissionsResponse}
use kafka_ui.Api.Errors.{Settled, resolved, rejected, error_object}
use kafka_ui.Api.Routes.{topics_create, ksql_execute}
use kafka_ui.Auth.{has_action}
use kafka_ui.ListPage
use kafka_ui.ListPage.{
  Event, fetched, create_opened, edited, submitted, delete_clicked, confirmed, create, filtered,
  on_confirm,
}
use kafka_ui.Permissions.{
  topics_rights, schemas_rights, acl_rights, users_rights, can_manage_connectors, can_reset_offsets,
  can_delete_topics, can_execute_ksql,
}
use kafka_ui.Permissions.Calls.{IsPermitted}
use kafka_ui.Permissions.Pages.{pages-IsPermitted}
use kafka_ui.Acl
use kafka_ui.Connect
use kafka_ui.Api.Bodies.{Json}
use kafka_ui.Connect.{ConnectEvent, on_page, initial_connect}
use kafka_ui.ConsumerGroups
use kafka_ui.ConsumerGroups.{GroupEvent, reset_opened}
use kafka_ui.Ksql
use kafka_ui.Ksql.{KsqlEvent, action_clicked, execute_clicked}
use kafka_ui.Schemas
use kafka_ui.Scram
use kafka_ui.Topics
use kafka_ui.Topics.{TopicInfo, TopicEdit, name_typed, edit_topic, topics_page, topic_target}
use kafka_ui.Topics.Detail
use kafka_ui.Topics.Detail.{TopicEvent}

abbrev status : AuthStatus
status = record { enabled = true; types = codes "basic" ∷ []; providers = none }

abbrev permissions : PermissionsResponse
permissions = record {
  actions = codes "create_topics" ∷ codes "execute_ksql" ∷ [];
  clusters = codes "*" ∷ [];
}

abbrev can : Text → Bool
can = has_action (some status) false (some permissions)

abbrev no_json : Text → Settled Json
no_json t = rejected (error_object (codes "SyntaxError") (codes "Unexpected token"))

abbrev topics : List (Event TopicInfo TopicEdit)
topics =
    fetched
      (resolved (record { name = codes "t"; partitions = 1; replicas = 1; internal = false } ∷ []))
    ∷ delete_clicked 0
    ∷ confirmed
    ∷ create_opened
    ∷ edited (name_typed (codes "new"))
    ∷ submitted
    ∷ []

abbrev statements : List (KsqlEvent (Unit {0}))
statements = action_clicked 0 ∷ execute_clicked ∷ []

abbrev connectors : List ConnectEvent
connectors = on_page (fetched (resolved [])) ∷ on_page create_opened ∷ on_page submitted ∷ []

abbrev resets : List GroupEvent
resets = reset_opened ∷ []

abbrev deletions : List TopicEvent
deletions =
    Detail.fetched (resolved (record { name = codes "t"; internal = false }))
    ∷ Detail.delete_clicked
    ∷ Detail.confirmed
    ∷ []

-- The topic is created and not deleted, and the statement is executed.
sent :
    ((Topics.run (λ t. t) (codes "c") (topics_rights can) topics).calls
      ≡ topics_create
          (codes "c")
          (record { name = codes "new"; partitions = some (pos 1); replicas = some (pos 1) })
        ∷ [])
    × ((Ksql.opened (codes "c") (can_execute_ksql can) statements).calls
        ≡ ksql_execute (codes "c") (record { query = codes "SHOW STREAMS;" }) ∷ [])
    × ((Detail.opened (codes "c") (codes "t") (can_delete_topics can) deletions).calls ≡ [])
unfolding ListPage.run ListPage.act create filtered on_confirm topics_page edit_topic topic_target
    has_action text_eq Ksql.run Ksql.act Detail.run Detail.step trim trim_start is_space includes
    starts_with
sent = (refl, refl, refl)

pages-IsPermitted_example :
    All (IsPermitted truthy can) (Topics.run (λ t. t) (codes "c") (topics_rights can) topics).calls
    × All
        (IsPermitted truthy can)
        (Schemas.run (λ t. t) (codes "c") (schemas_rights can) (create_opened ∷ [])).calls
    × All
        (IsPermitted truthy can)
        (Acl.run (λ t. t) (codes "c") (acl_rights can) (submitted ∷ [])).calls
    × All
        (IsPermitted truthy can)
        (Scram.run (λ t. t) (codes "c") (users_rights can) (delete_clicked 0 ∷ [])).calls
    × All
        (IsPermitted truthy can)
        (Connect.run
          (λ t. t)
          no_json
          (codes "c")
          (can_manage_connectors can)
          (initial_connect (λ t. t) no_json (codes "c"))
          connectors).page.calls
    × All
        (IsPermitted truthy can)
        (ConsumerGroups.opened (codes "c") (codes "g") (can_reset_offsets can) resets).calls
    × All
        (IsPermitted truthy can)
        (Detail.opened (codes "c") (codes "t") (can_delete_topics can) deletions).calls
    × All (IsPermitted truthy can) (Ksql.opened (codes "c") (can_execute_ksql can) statements).calls
pages-IsPermitted_example =
    pages-IsPermitted truthy can (λ t. t) (codes "c") no_json (codes "g") (codes "t") topics
      (create_opened ∷ []) (submitted ∷ []) (delete_clicked 0 ∷ []) connectors resets deletions
      statements
