-- ===== src/Api/Bodies.antt =====
-- The bodies of the requests about Kafka's resources, frontend/src/lib/api.ts.
use kafka_ui.Base.{Bool, Option, List, [], ◌∷◌, Text, ℤ}
use kafka_ui.Api.Messages.{Headers, ProduceRequest}
use kafka_ui.Api.Clusters.{AddClusterRequest}
use kafka_ui.Api.Auth.{LoginRequest}

-- What `JSON.parse` gives. A number is kept as the text that JSON writes for it; an object's fields
-- are in their order.
mutual
  pub data Json : Type 0 where
    null_json : Json
    bool_json : Bool → Json
    number_json text_json : Text → Json
    array_json : Items → Json
    object_json : Fields → Json

  pub data Items : Type 0 where
    no_items : Items
    item : Json → Items → Items

  pub data Fields : Type 0 where
    no_fields : Fields
    field : Text → Json → Fields → Fields

-- An object whose values are texts.
abbrev pub text_fields : Headers → Fields
text_fields [] = no_fields
text_fields ((key, value) ∷ fs) = field key (text_json value) (text_fields fs)

-- A number is `none` where it is NaN.
pub record CreateTopicRequest : Type 0 where
  pub name : Text
  pub partitions : Option ℤ
  pub replicas : Option ℤ

pub record ResetOffsetsRequest : Type 0 where
  pub topic : Text
  pub reset_to : Text

pub record CreateSchemaRequest : Type 0 where
  pub subject : Text
  pub schema : Text
  pub schema_type : Text

-- The source's type of `config` holds texts only; what is sent is what was parsed.
pub record CreateConnectorRequest : Type 0 where
  pub name : Text
  pub config : Fields

pub record KsqlRequest : Type 0 where
  pub query : Text

pub record AclEntry : Type 0 where
  pub resource_type : Text
  pub resource_name : Text
  pub pattern_type : Text
  pub principal : Text
  pub host : Text
  pub operation : Text
  pub permission : Text

pub record UpsertScramUserRequest : Type 0 where
  pub name : Text
  pub password : Text
  pub mechanism : Text
  pub iterations : Option (Option ℤ)

pub record DeleteScramUserRequest : Type 0 where
  pub name : Text
  pub mechanism : Text

pub record SetRolesRequest : Type 0 where
  pub roles : List Text

-- What `JSON.stringify` receives.
pub data Body : Type 0 where
  topic_body : CreateTopicRequest → Body
  message_body : ProduceRequest → Body
  reset_body : ResetOffsetsRequest → Body
  schema_body : CreateSchemaRequest → Body
  connector_body : CreateConnectorRequest → Body
  config_body : Json → Body
  ksql_body : KsqlRequest → Body
  acl_body : AclEntry → Body
  upsert_user_body : UpsertScramUserRequest → Body
  delete_user_body : DeleteScramUserRequest → Body
  expression_body : Text → Body
  login_body : LoginRequest → Body
  cluster_body : AddClusterRequest → Body
  roles_body : SetRolesRequest → Body
