-- ===== src/Permissions/Calls.antt =====
-- That the calls that a page may send are those that the server lets the user make.
use mathlib.Core.Path.{subst}
use kafka_ui.Base.{◌≡◌, ◌⊎◌, sym, inl, inr, Bool, true, none, some, Text}
use kafka_ui.Api.Errors.{Settled}
use kafka_ui.Api.Routes.{
  Call, topics_create, topics_delete, groups_reset, schemas_create, schemas_delete, connect_create,
  connect_delete, connect_restart, connect_pause, connect_resume, ksql_execute, acl_create,
  acl_delete, users_create, users_delete,
}
use kafka_ui.Server.{needs_action, guard_of}
use kafka_ui.Server.Guards
use kafka_ui.Server.Guards.{Asks}
use kafka_ui.Permissions.{
  topics_rights, schemas_rights, acl_rights, users_rights, can_manage_connectors, can_reset_offsets,
  can_delete_topics, can_execute_ksql,
}
use kafka_ui.Acl.Laws.{IsAclCall}
use kafka_ui.Api.Bodies.{Json}
use kafka_ui.Connect.Laws.{Listing, IsConnectCall}
use kafka_ui.ConsumerGroups.Laws.{IsReset}
use kafka_ui.Ksql.Laws.{IsExecution}
use kafka_ui.Schemas.Laws.{IsSchemasCall}
use kafka_ui.Scram.Laws.{IsScramCall}
use kafka_ui.Topics.Detail.Laws.{IsDeletion}
use kafka_ui.Topics.Laws.{IsTopicsCall}

module _ (accepts : Text → Bool) (can : Text → Bool) where
  -- The server has no route for the call, or asks for an action that the user has.
  abbrev pub IsPermitted : Call → Type 0
  IsPermitted c =
      (guard_of accepts c ≡ none)
      ⊎ ((action : Text) × (guard_of accepts c ≡ some (needs_action action)) × (can action ≡ true))

  permitted :
      (c : Call) (action : Text)
      → Asks accepts (guard_of accepts c) action
      → can action ≡ true
      → IsPermitted c
  permitted c action (inl e) may = inl e
  permitted c action (inr e) may = inr (action, e, may)

  pub IsTopicsCall-IsPermitted :
      (cluster : Text) (c : Call)
      → IsTopicsCall cluster (topics_rights can) (λ t. Unit) c
      → IsPermitted c
  IsTopicsCall-IsPermitted cluster (topics_create c d) h =
      permitted (topics_create c d) _ (Guards.topics_create-Asks accepts c d) h.0
  IsTopicsCall-IsPermitted cluster (topics_delete c t) h =
      permitted (topics_delete c t) _ (Guards.topics_delete-Asks accepts c t) h.0
  IsTopicsCall-IsPermitted cluster _ h = absurd h

  pub IsSchemasCall-IsPermitted :
      (cluster : Text) (c : Call)
      → IsSchemasCall cluster (schemas_rights can) (λ t. Unit) c
      → IsPermitted c
  IsSchemasCall-IsPermitted cluster (schemas_create c d) h =
      permitted (schemas_create c d) _ (Guards.schemas_create-Asks accepts c d) h.0
  IsSchemasCall-IsPermitted cluster (schemas_delete c t) h =
      permitted (schemas_delete c t) _ (Guards.schemas_delete-Asks accepts c t) h.0
  IsSchemasCall-IsPermitted cluster _ h = absurd h

  pub IsAclCall-IsPermitted :
      (cluster : Text) (c : Call) → IsAclCall cluster (acl_rights can) (λ t. Unit) c → IsPermitted c
  IsAclCall-IsPermitted cluster (acl_create c d) h =
      permitted (acl_create c d) _ (Guards.acl_create-Asks accepts c d) h.0
  IsAclCall-IsPermitted cluster (acl_delete c d) h =
      permitted (acl_delete c d) _ (Guards.acl_delete-Asks accepts c d) h.0
  IsAclCall-IsPermitted cluster _ h = absurd h

  pub IsScramCall-IsPermitted :
      (cluster : Text) (c : Call)
      → IsScramCall cluster (users_rights can) (λ t. Unit) c
      → IsPermitted c
  IsScramCall-IsPermitted cluster (users_create c d) h =
      permitted (users_create c d) _ (Guards.users_create-Asks accepts c d) h.0
  IsScramCall-IsPermitted cluster (users_delete c d) h =
      permitted (users_delete c d) _ (Guards.users_delete-Asks accepts c d) h.0
  IsScramCall-IsPermitted cluster _ h = absurd h

  -- A list of connectors of which nothing is known.
  abbrev pub listing : Listing
  listing = record { IsListed = λ t. Unit; IsRunning = λ t. Unit; IsIdle = λ t. Unit }

  pub IsConnectCall-IsPermitted :
      (parse : Text → Settled Json) (cluster : Text) (c : Call)
      → IsConnectCall parse cluster (can_manage_connectors can) listing c
      → IsPermitted c
  IsConnectCall-IsPermitted parse cluster (connect_create c d) h =
      permitted (connect_create c d) _ (Guards.connect_create-Asks accepts c d) h.0
  IsConnectCall-IsPermitted parse cluster (connect_delete c n) h =
      permitted (connect_delete c n) _ (Guards.connect_delete-Asks accepts c n) h.0
  IsConnectCall-IsPermitted parse cluster (connect_restart c n) h =
      permitted (connect_restart c n) _ (Guards.connect_restart-Asks accepts c n) h.0
  IsConnectCall-IsPermitted parse cluster (connect_pause c n) h =
      permitted (connect_pause c n) _ (Guards.connect_pause-Asks accepts c n) h.0
  IsConnectCall-IsPermitted parse cluster (connect_resume c n) h =
      permitted (connect_resume c n) _ (Guards.connect_resume-Asks accepts c n) h.0
  IsConnectCall-IsPermitted parse cluster _ h = absurd h

  pub IsReset-IsPermitted :
      (cluster group : Text) (c : Call)
      → IsReset cluster group (can_reset_offsets can) (λ t. Unit) c
      → IsPermitted c
  IsReset-IsPermitted cluster group (groups_reset c g d) h =
      permitted (groups_reset c g d) _ (Guards.groups_reset-Asks accepts c g d) h.0
  IsReset-IsPermitted cluster group _ h = absurd h

  pub IsExecution-IsPermitted :
      (cluster : Text) (c : Call)
      → IsExecution cluster (can_execute_ksql can) {Value = Unit} (λ r. Unit) c
      → IsPermitted c
  IsExecution-IsPermitted cluster (ksql_execute c d) h =
      permitted (ksql_execute c d) _ (Guards.ksql_execute-Asks accepts c d) h.0
  IsExecution-IsPermitted cluster _ h = absurd h

  pub IsDeletion-IsPermitted :
      (cluster topic : Text) (c : Call)
      → IsDeletion cluster topic (can_delete_topics can) Unit c
      → IsPermitted c
  IsDeletion-IsPermitted cluster topic c (same, may, known) = subst IsPermitted (sym same) (
      permitted (topics_delete cluster topic) _ (Guards.topics_delete-Asks accepts cluster topic)
        may)
