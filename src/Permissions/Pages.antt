-- ===== src/Permissions/Pages.antt =====
-- That the pages' mutations send what the server lets the user do. The GETs of their queries, which
-- the server guards by actions to view that no page asks for, are not recorded.
use kafka_ui.Base.{Bool, List, [], ◌∷◌, All, All-map, Text}
use kafka_ui.Api.Bodies.{AclEntry}
use kafka_ui.Api.Errors.{Settled, resolved}
use kafka_ui.Api.Routes.{Call}
use kafka_ui.ListPage.{Event, fetched}
use kafka_ui.ListPage.Sends.{IsGivenEvent}
use kafka_ui.Permissions.{
  topics_rights, schemas_rights, acl_rights, users_rights, can_manage_connectors, can_reset_offsets,
  can_delete_topics, can_execute_ksql,
}
use kafka_ui.Acl
use kafka_ui.Acl.{AclEdit}
use kafka_ui.Acl.Laws.{run-IsAclCall}
use kafka_ui.Connect
use kafka_ui.Api.Bodies.{Json}
use kafka_ui.Connect.{ConnectEvent, on_page, initial_connect}
use kafka_ui.Connect.Laws.{IsGivenConnectEvent, run-IsConnectCall}
use kafka_ui.ConsumerGroups
use kafka_ui.ConsumerGroups.{GroupEvent}
use kafka_ui.ConsumerGroups.Laws.{IsGivenGroupEvent, opened-IsReset}
use kafka_ui.Ksql
use kafka_ui.Ksql.{KsqlEvent, execute_settled}
use kafka_ui.Ksql.Laws.{IsAnswered, opened-IsExecution}
use kafka_ui.Schemas
use kafka_ui.Schemas.{SchemaSubjectInfo, SchemaEdit}
use kafka_ui.Schemas.Laws.{run-IsSchemasCall}
use kafka_ui.Scram
use kafka_ui.Scram.{ScramUser, ScramEdit}
use kafka_ui.Scram.Laws.{run-Sends}
use kafka_ui.Topics
use kafka_ui.Topics.{TopicInfo, TopicEdit}
use kafka_ui.Topics.Detail
use kafka_ui.Topics.Detail.{TopicEvent}
use kafka_ui.Topics.Detail.Laws.{IsGivenTopicEvent, opened-IsDeletion}
use kafka_ui.Topics.Laws.{run-IsTopicsCall}
use kafka_ui.Permissions.Calls.{
  IsPermitted, listing, IsTopicsCall-IsPermitted, IsSchemasCall-IsPermitted, IsAclCall-IsPermitted,
  IsScramCall-IsPermitted, IsConnectCall-IsPermitted, IsReset-IsPermitted, IsExecution-IsPermitted,
  IsDeletion-IsPermitted,
}

every {ℓ κ} : {A : Type ℓ} {P : A → Type κ} → ((x : A) → P x) → (xs : List A) → All P xs
every f [] = tt
every f (x ∷ xs) = (f x, every f xs)

-- What holds of every row holds of the rows of every answer.
event_given :
    {Item : Type 0} {Edit : Type 0} (P : Item → Type 0)
    → ((row : Item) → P row)
    → (e : Event Item Edit) → IsGivenEvent P e
event_given P f (fetched (resolved rs)) = every f rs
event_given P f _ = tt

-- `accepts` is the server's test of a part of a path, and `can` the hook `useHasAction`.
module _ (accepts : Text → Bool) (can : Text → Bool) (to_lower_case : Text → Text)
    (cluster : Text) where
  abbrev ArePermitted : List Call → Type 0
  ArePermitted = All (IsPermitted accepts can)

  connector_given :
      (parse : Text → Settled Json) (e : ConnectEvent)
      → IsGivenConnectEvent parse cluster
          (can_manage_connectors can)
          (listing accepts can)
          to_lower_case
          e
  connector_given parse (on_page e) = event_given _ (λ row. (tt, (λ _. tt), (λ _. tt))) e
  connector_given parse _ = tt

  group_given :
      (group : Text) (e : GroupEvent)
      → IsGivenGroupEvent cluster group (can_reset_offsets can) (λ t. Unit) e
  group_given group (ConsumerGroups.fetched (resolved g)) = every (λ o. tt) g.offsets
  group_given group _ = tt

  topic_given :
      (topic : Text) (e : TopicEvent)
      → IsGivenTopicEvent cluster topic (can_delete_topics can) Unit e
  topic_given topic (Detail.fetched (resolved t)) = λ _. tt
  topic_given topic _ = tt

  answer_given :
      (e : KsqlEvent (Unit {0})) → IsAnswered cluster (can_execute_ksql can) (λ r. Unit) e
  answer_given (execute_settled (resolved r)) = tt
  answer_given _ = tt

  topics_permitted :
      (es : List (Event TopicInfo TopicEdit))
      → ArePermitted (Topics.run to_lower_case cluster (topics_rights can) es).calls
  topics_permitted es = All-map _ _ (IsTopicsCall-IsPermitted accepts can cluster) _ (
      run-IsTopicsCall cluster (topics_rights can) (λ t. Unit) to_lower_case es
        (every (event_given _ (λ t _. tt)) es))

  schemas_permitted :
      (es : List (Event SchemaSubjectInfo SchemaEdit))
      → ArePermitted (Schemas.run to_lower_case cluster (schemas_rights can) es).calls
  schemas_permitted es = All-map _ _ (IsSchemasCall-IsPermitted accepts can cluster) _ (
      run-IsSchemasCall cluster (schemas_rights can) (λ t. Unit) to_lower_case es
        (every (event_given _ (λ t. tt)) es))

  acl_permitted :
      (es : List (Event AclEntry AclEdit))
      → ArePermitted (Acl.run to_lower_case cluster (acl_rights can) es).calls
  acl_permitted es = All-map _ _ (IsAclCall-IsPermitted accepts can cluster) _ (
      run-IsAclCall cluster (acl_rights can) (λ t. Unit) to_lower_case es
        (every (event_given _ (λ t. tt)) es))

  users_permitted :
      (es : List (Event ScramUser ScramEdit))
      → ArePermitted (Scram.run to_lower_case cluster (users_rights can) es).calls
  users_permitted es = All-map _ _ (IsScramCall-IsPermitted accepts can cluster) _ (
      run-Sends cluster (users_rights can) (λ t. Unit) to_lower_case es
        (every (event_given _ (λ t. tt)) es))

  connect_permitted :
      (parse : Text → Settled Json) (es : List ConnectEvent)
      → ArePermitted
          (Connect.run to_lower_case parse cluster
            (can_manage_connectors can)
            (initial_connect to_lower_case parse cluster)
            es).page.calls
  connect_permitted parse es = All-map _ _ (IsConnectCall-IsPermitted accepts can parse cluster) _ (
      run-IsConnectCall parse cluster (can_manage_connectors can) (listing accepts can)
        to_lower_case es (every (connector_given parse) es))

  group_permitted :
      (group : Text) (es : List GroupEvent)
      → ArePermitted (ConsumerGroups.opened cluster group (can_reset_offsets can) es).calls
  group_permitted group es = All-map _ _ (IsReset-IsPermitted accepts can cluster group) _ (
      opened-IsReset cluster group (can_reset_offsets can) (λ t. Unit) es
        (every (group_given group) es))

  topic_permitted :
      (topic : Text) (es : List TopicEvent)
      → ArePermitted (Detail.opened cluster topic (can_delete_topics can) es).calls
  topic_permitted topic es = All-map _ _ (IsDeletion-IsPermitted accepts can cluster topic) _ (
      opened-IsDeletion cluster topic (can_delete_topics can) Unit es
        (every (topic_given topic) es))

  ksql_permitted :
      (es : List (KsqlEvent (Unit {0})))
      → ArePermitted (Ksql.opened cluster (can_execute_ksql can) es).calls
  ksql_permitted es =
      All-map _ _ (IsExecution-IsPermitted accepts can cluster) _
        (opened-IsExecution cluster (can_execute_ksql can) (λ r. Unit) es (every answer_given es)).0

  -- Whatever happens on the pages of a cluster, each request of one of their mutations for which the
  -- server has a route needs there an action that the user has: the mutations of the pages of topics,
  -- schemas, ACLs, SCRAM users, connectors, a consumer group, a topic, and KSQL. The GETs by which
  -- the pages fetch what they show are not among these requests.
  pub pages-IsPermitted :
      (parse : Text → Settled Json) (group topic : Text) (topics : List (Event TopicInfo TopicEdit))
      (schemas : List (Event SchemaSubjectInfo SchemaEdit)) (acls : List (Event AclEntry AclEdit))
      (users : List (Event ScramUser ScramEdit)) (connectors : List ConnectEvent)
      (resets : List GroupEvent) (deletions : List TopicEvent)
      (statements : List (KsqlEvent (Unit {0})))
      → All
          (IsPermitted accepts can)
          (Topics.run to_lower_case cluster (topics_rights can) topics).calls
        × All
            (IsPermitted accepts can)
            (Schemas.run to_lower_case cluster (schemas_rights can) schemas).calls
        × All (IsPermitted accepts can) (Acl.run to_lower_case cluster (acl_rights can) acls).calls
        × All
            (IsPermitted accepts can)
            (Scram.run to_lower_case cluster (users_rights can) users).calls
        × All
            (IsPermitted accepts can)
            (Connect.run to_lower_case parse cluster
              (can_manage_connectors can)
              (initial_connect to_lower_case parse cluster)
              connectors).page.calls
        × All
            (IsPermitted accepts can)
            (ConsumerGroups.opened cluster group (can_reset_offsets can) resets).calls
        × All
            (IsPermitted accepts can)
            (Detail.opened cluster topic (can_delete_topics can) deletions).calls
        × All
            (IsPermitted accepts can)
            (Ksql.opened cluster (can_execute_ksql can) statements).calls
  pages-IsPermitted parse group topic topics schemas acls users connectors resets deletions
        statements =
      (
        topics_permitted topics,
        schemas_permitted schemas,
        acl_permitted acls,
        users_permitted users,
        connect_permitted parse connectors,
        group_permitted group resets,
        topic_permitted topic deletions,
        ksql_permitted statements,
      )
