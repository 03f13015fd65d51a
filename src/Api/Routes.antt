-- ===== src/Api/Routes.antt =====
-- The object `api` of frontend/src/lib/api.ts: the request of each call. The queries of
-- `messages.browse` and `metrics.get` are modelled where their pages are.
pub mod Names
pub mod Laws
pub mod Reloads
use kafka_ui.Base.{
  Bool, true, false, Option, none, some, List, [], ◌∷◌, ◌++◌, if◌then◌else◌, Text, codes,
}
use kafka_ui.Api.Messages.{ProduceRequest}
use kafka_ui.Api.Clusters.{AddClusterRequest}
use kafka_ui.Api.Auth.{LoginRequest}
use kafka_ui.Api.Encode.{encode_uri_component}
use kafka_ui.Api.Bodies.{
  Body, topic_body, message_body, reset_body, schema_body, connector_body, config_body, ksql_body,
  acl_body, upsert_user_body, delete_user_body, expression_body, login_body, cluster_body,
  roles_body, Json, CreateTopicRequest, ResetOffsetsRequest, CreateSchemaRequest,
  CreateConnectorRequest, KsqlRequest, AclEntry, UpsertScramUserRequest, DeleteScramUserRequest,
  SetRolesRequest,
}

pub data Method : Type 0 where
  get post put delete : Method

-- The first arguments are the cluster and, where there is one, the resource.
pub data Call : Type 0 where
  overview clusters_list : Call
  brokers_list topics_list : Text → Call
  topics_details topics_delete : Text → Text → Call
  topics_create : Text → CreateTopicRequest → Call
  messages_browse : Text → Text → Call
  messages_produce : Text → Text → ProduceRequest → Call
  groups_list : Text → Call
  groups_details : Text → Text → Call
  groups_reset : Text → Text → ResetOffsetsRequest → Call
  schemas_list : Text → Call
  schemas_details schemas_delete : Text → Text → Call
  schemas_create : Text → CreateSchemaRequest → Call
  connect_list : Text → Call
  connect_details connect_delete connect_restart connect_pause connect_resume : Text → Text → Call
  connect_create : Text → CreateConnectorRequest → Call
  connect_update : Text → Text → Json → Call
  ksql_execute : Text → KsqlRequest → Call
  ksql_info acl_list : Text → Call
  acl_create acl_delete : Text → AclEntry → Call
  users_list : Text → Call
  users_create : Text → UpsertScramUserRequest → Call
  users_delete : Text → DeleteScramUserRequest → Call
  metrics_get : Text → Call
  cel_validate : Text → Call
  auth_status auth_me auth_logout auth_permissions : Call
  auth_login : LoginRequest → Call
  admin_clusters : Call
  admin_add : AddClusterRequest → Bool → Call
  admin_update : Text → AddClusterRequest → Bool → Call
  admin_delete : Text → Call
  admin_test : AddClusterRequest → Call
  admin_users : Call
  admin_user admin_delete_user : Text → Call
  admin_roles : Text → SetRolesRequest → Call

-- The path's parts, each behind a "/".
abbrev pub join : List Text → Text
join [] = []
join (s ∷ ss) = b'/' ∷ (s ++ join ss)

abbrev pub with_encoded : Text → (Text → List Text) → Option (List Text)
with_encoded name parts = elim (encode_uri_component name) [ none ↦ none | some e ↦ some (parts e) ]

abbrev pub in_cluster : Text → List Text → List Text
in_cluster cluster parts = codes "clusters" ∷ cluster ∷ parts

-- `none` where `encodeURIComponent` throws.
unfoldable pub segments : Call → Option (List Text)
segments overview = some (codes "dashboard" ∷ [])
segments clusters_list = some (codes "clusters" ∷ [])
segments (brokers_list c) = some (in_cluster c (codes "brokers" ∷ []))
segments (topics_list c) = some (in_cluster c (codes "topics" ∷ []))
segments (topics_details c t) = some (in_cluster c (codes "topics" ∷ t ∷ []))
segments (topics_delete c t) = some (in_cluster c (codes "topics" ∷ t ∷ []))
segments (topics_create c d) = some (in_cluster c (codes "topics" ∷ []))
segments (messages_browse c t) = some (in_cluster c (codes "topics" ∷ t ∷ codes "messages" ∷ []))
segments (messages_produce c t d) = some (in_cluster c (codes "topics" ∷ t ∷ codes "messages" ∷ []))
segments (groups_list c) = some (in_cluster c (codes "consumer-groups" ∷ []))
segments (groups_details c g) =
    with_encoded g (λ e. in_cluster c (codes "consumer-groups" ∷ e ∷ []))
segments (groups_reset c g d) =
    with_encoded g (λ e. in_cluster c (codes "consumer-groups" ∷ e ∷ codes "reset" ∷ []))
segments (schemas_list c) = some (in_cluster c (codes "schemas" ∷ []))
segments (schemas_details c s) = with_encoded s (λ e. in_cluster c (codes "schemas" ∷ e ∷ []))
segments (schemas_delete c s) = with_encoded s (λ e. in_cluster c (codes "schemas" ∷ e ∷ []))
segments (schemas_create c d) = some (in_cluster c (codes "schemas" ∷ []))
segments (connect_list c) = some (in_cluster c (codes "connectors" ∷ []))
segments (connect_details c n) = with_encoded n (λ e. in_cluster c (codes "connectors" ∷ e ∷ []))
segments (connect_delete c n) = with_encoded n (λ e. in_cluster c (codes "connectors" ∷ e ∷ []))
segments (connect_restart c n) =
    with_encoded n (λ e. in_cluster c (codes "connectors" ∷ e ∷ codes "restart" ∷ []))
segments (connect_pause c n) =
    with_encoded n (λ e. in_cluster c (codes "connectors" ∷ e ∷ codes "pause" ∷ []))
segments (connect_resume c n) =
    with_encoded n (λ e. in_cluster c (codes "connectors" ∷ e ∷ codes "resume" ∷ []))
segments (connect_create c d) = some (in_cluster c (codes "connectors" ∷ []))
segments (connect_update c n d) = with_encoded n (λ e. in_cluster c (codes "connectors" ∷ e ∷ []))
segments (ksql_execute c d) = some (in_cluster c (codes "ksql" ∷ []))
segments (ksql_info c) = some (in_cluster c (codes "ksql" ∷ codes "info" ∷ []))
segments (acl_list c) = some (in_cluster c (codes "acls" ∷ []))
segments (acl_create c d) = some (in_cluster c (codes "acls" ∷ []))
segments (acl_delete c d) = some (in_cluster c (codes "acls" ∷ codes "delete" ∷ []))
segments (users_list c) = some (in_cluster c (codes "users" ∷ []))
segments (users_create c d) = some (in_cluster c (codes "users" ∷ []))
segments (users_delete c d) = some (in_cluster c (codes "users" ∷ codes "delete" ∷ []))
segments (metrics_get c) = some (in_cluster c (codes "metrics" ∷ []))
segments (cel_validate e) = some (codes "cel" ∷ codes "validate" ∷ [])
segments auth_status = some (codes "auth" ∷ codes "status" ∷ [])
segments auth_me = some (codes "auth" ∷ codes "me" ∷ [])
segments auth_logout = some (codes "auth" ∷ codes "logout" ∷ [])
segments auth_permissions = some (codes "auth" ∷ codes "permissions" ∷ [])
segments (auth_login d) = some (codes "auth" ∷ codes "login" ∷ [])
segments admin_clusters = some (codes "admin" ∷ codes "clusters" ∷ [])
segments (admin_add d v) = some (codes "admin" ∷ codes "clusters" ∷ [])
segments (admin_update n d v) = with_encoded n (λ e. codes "admin" ∷ codes "clusters" ∷ e ∷ [])
segments (admin_delete n) = with_encoded n (λ e. codes "admin" ∷ codes "clusters" ∷ e ∷ [])
segments (admin_test d) = some (codes "admin" ∷ codes "clusters" ∷ codes "test" ∷ [])
segments admin_users = some (codes "admin" ∷ codes "users" ∷ [])
segments (admin_user i) = with_encoded i (λ e. codes "admin" ∷ codes "users" ∷ e ∷ [])
segments (admin_delete_user i) = with_encoded i (λ e. codes "admin" ∷ codes "users" ∷ e ∷ [])
segments (admin_roles i d) =
    with_encoded i (λ e. codes "admin" ∷ codes "users" ∷ e ∷ codes "roles" ∷ [])

unfoldable pub method_of : Call → Method
method_of (topics_create c d) = post
method_of (topics_delete c t) = delete
method_of (messages_produce c t d) = post
method_of (groups_reset c g d) = post
method_of (schemas_create c d) = post
method_of (schemas_delete c s) = delete
method_of (connect_create c d) = post
method_of (connect_update c n d) = put
method_of (connect_delete c n) = delete
method_of (connect_restart c n) = post
method_of (connect_pause c n) = post
method_of (connect_resume c n) = post
method_of (ksql_execute c d) = post
method_of (acl_create c d) = post
method_of (acl_delete c d) = post
method_of (users_create c d) = post
method_of (users_delete c d) = post
method_of (cel_validate e) = post
method_of (auth_login d) = post
method_of auth_logout = post
method_of (admin_add d v) = post
method_of (admin_update n d v) = put
method_of (admin_delete n) = delete
method_of (admin_test d) = post
method_of (admin_roles i d) = put
method_of (admin_delete_user i) = delete
method_of _ = get

unfoldable pub body_of : Call → Option Body
body_of (topics_create c d) = some (topic_body d)
body_of (messages_produce c t d) = some (message_body d)
body_of (groups_reset c g d) = some (reset_body d)
body_of (schemas_create c d) = some (schema_body d)
body_of (connect_create c d) = some (connector_body d)
body_of (connect_update c n d) = some (config_body d)
body_of (ksql_execute c d) = some (ksql_body d)
body_of (acl_create c d) = some (acl_body d)
body_of (acl_delete c d) = some (acl_body d)
body_of (users_create c d) = some (upsert_user_body d)
body_of (users_delete c d) = some (delete_user_body d)
body_of (cel_validate e) = some (expression_body e)
body_of (auth_login d) = some (login_body d)
body_of (admin_add d v) = some (cluster_body d)
body_of (admin_update n d v) = some (cluster_body d)
body_of (admin_test d) = some (cluster_body d)
body_of (admin_roles i d) = some (roles_body d)
body_of _ = none

-- The query of a cluster that is saved without a test by the server.
unfoldable pub query_of : Call → List (Text × Text)
query_of (admin_add d validate) = if validate then [] else (codes "validate", codes "false") ∷ []
query_of (admin_update n d validate) =
    if validate then [] else (codes "validate", codes "false") ∷ []
query_of _ = []
