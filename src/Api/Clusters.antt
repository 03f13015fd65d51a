-- ===== src/Api/Clusters.antt =====
-- The requests about clusters, frontend/src/lib/api.ts.
use kafka_ui.Base.{Bool, Option, List, Text}

pub record Tls : Type 0 where
  pub enabled : Bool
  pub ca_file : Option Text

pub record Sasl : Type 0 where
  pub mechanism : Text
  pub username : Text
  pub password : Text

pub record Endpoint : Type 0 where
  pub url : Text

pub record NamedEndpoint : Type 0 where
  pub name : Text
  pub url : Text

pub record AddClusterRequest : Type 0 where
  pub name : Text
  pub bootstrap_servers : Text
  pub tls : Option Tls
  pub sasl : Option Sasl
  pub schema_registry : Option Endpoint
  pub kafka_connect : Option (List NamedEndpoint)
  pub ksql : Option Endpoint
  pub metrics : Option Endpoint

-- The same fields, and where the cluster comes from.
pub record AdminClusterInfo : Type 0 where
  pub request : AddClusterRequest
  pub dynamic : Bool

pub record AdminClusterList : Type 0 where
  pub static : List AdminClusterInfo
  pub dynamic : List AdminClusterInfo

pub record TestConnectionResult : Type 0 where
  pub status : Text
  pub error : Option Text

-- The calls of `api.admin` that the wizard and its page make.
pub data ClusterCall : Type 0 where
  add_cluster : AddClusterRequest → Bool → ClusterCall
  update_cluster : Text → AddClusterRequest → Bool → ClusterCall
  delete_cluster : Text → ClusterCall
  test_connection : AddClusterRequest → ClusterCall
