-- ===== src/Server.antt =====
-- The server's routes below /api/v1, internal/api/router.go, and what each asks of the user. How chi
-- takes a placeholder is a parameter: `accepts` says which segments of a path it takes.
pub mod Guards
pub mod Reach
pub mod Paths
pub mod Disjoint
pub mod Tests
use kafka_ui.Base.{
  Bool, true, false, ◌&&◌, Option, none, some, List, [], ◌∷◌, ◌++◌, map, if◌then◌else◌, Text, codes,
  text_eq, split,
}
use kafka_ui.Api.Routes.{Method, get, post, put, delete, Call, segments, method_of}

pub data Segment : Type 0 where
  literal : Text → Segment
  placeholder : Segment

-- The middleware of a route: none, `RequireAction`, or `RequireRole("admin")`.
pub data Guard : Type 0 where
  anyone : Guard
  needs_action : Text → Guard
  needs_admin : Guard

pub record Route : Type 0 where
  pub method : Method
  pub pattern : List Segment
  pub guard : Guard

abbrev pub same_method : Method → Method → Bool
same_method get get = true
same_method post post = true
same_method put put = true
same_method delete delete = true
same_method _ _ = false

abbrev route : Method → List Segment → Guard → Route
route method pattern guard = record { method = method; pattern = pattern; guard = guard }

abbrev pub auth_routes : List Route
auth_routes =
    route get (literal (codes "auth") ∷ literal (codes "status") ∷ []) anyone
    ∷ route post (literal (codes "auth") ∷ literal (codes "login") ∷ []) anyone
    ∷ route get (literal (codes "auth") ∷ literal (codes "login") ∷ placeholder ∷ []) anyone
    ∷ route get (literal (codes "auth") ∷ literal (codes "callback") ∷ []) anyone
    ∷ route get (literal (codes "auth") ∷ literal (codes "me") ∷ []) anyone
    ∷ route post (literal (codes "auth") ∷ literal (codes "logout") ∷ []) anyone
    ∷ route get (literal (codes "auth") ∷ literal (codes "permissions") ∷ []) anyone
    ∷ []

abbrev acting : Text → Guard
acting action = needs_action action

abbrev pub global_routes : List Route
global_routes =
    route get (literal (codes "dashboard") ∷ []) (acting (codes "view_dashboard"))
    ∷ route get (literal (codes "clusters") ∷ []) (acting (codes "view_dashboard"))
    ∷ route post (literal (codes "cel") ∷ literal (codes "validate") ∷ [])
        (acting (codes "view_messages"))
    ∷ []

-- `r.Route("/admin", …)`
abbrev admin_route : Method → List Segment → Route
admin_route method pattern = route method (literal (codes "admin") ∷ pattern) needs_admin

abbrev pub admin_routes : List Route
admin_routes =
    admin_route get (literal (codes "clusters") ∷ [])
    ∷ admin_route post (literal (codes "clusters") ∷ [])
    ∷ admin_route post (literal (codes "clusters") ∷ literal (codes "test") ∷ [])
    ∷ admin_route put (literal (codes "clusters") ∷ placeholder ∷ [])
    ∷ admin_route delete (literal (codes "clusters") ∷ placeholder ∷ [])
    ∷ admin_route get (literal (codes "users") ∷ [])
    ∷ admin_route get (literal (codes "users") ∷ placeholder ∷ [])
    ∷ admin_route put (literal (codes "users") ∷ placeholder ∷ literal (codes "roles") ∷ [])
    ∷ admin_route delete (literal (codes "users") ∷ placeholder ∷ [])
    ∷ []

-- `r.Route("/clusters/{clusterName}", …)`
abbrev cluster_route : Text → Method → List Segment → Route
cluster_route action method pattern =
    route method (literal (codes "clusters") ∷ placeholder ∷ pattern) (acting action)

abbrev plain : Text → List Segment
plain t = literal t ∷ []

abbrev named : Text → List Segment
named t = literal t ∷ placeholder ∷ []

abbrev pub topic_routes : List Route
topic_routes =
    cluster_route (codes "view_dashboard") get (plain (codes "overview"))
    ∷ cluster_route (codes "view_brokers") get (plain (codes "brokers"))
    ∷ cluster_route (codes "view_topics") get (plain (codes "topics"))
    ∷ cluster_route (codes "create_topics") post (plain (codes "topics"))
    ∷ cluster_route (codes "view_topics") get (named (codes "topics"))
    ∷ cluster_route (codes "delete_topics") delete (named (codes "topics"))
    ∷ cluster_route (codes "view_messages") get (named (codes "topics") ++ plain (codes "messages"))
    ∷ cluster_route (codes "produce_messages") post
        (named (codes "topics") ++ plain (codes "messages"))
    ∷ cluster_route (codes "view_consumer_groups") get (plain (codes "consumer-groups"))
    ∷ cluster_route (codes "view_consumer_groups") get (named (codes "consumer-groups"))
    ∷ cluster_route (codes "reset_consumer_groups") post
        (named (codes "consumer-groups") ++ plain (codes "reset"))
    ∷ []

abbrev pub schema_routes : List Route
schema_routes =
    cluster_route (codes "view_schemas") get (plain (codes "schemas"))
    ∷ cluster_route (codes "create_schemas") post (plain (codes "schemas"))
    ∷ cluster_route (codes "view_schemas") get (named (codes "schemas"))
    ∷ cluster_route (codes "delete_schemas") delete (named (codes "schemas"))
    ∷ []

abbrev pub connect_routes : List Route
connect_routes =
    cluster_route (codes "view_connectors") get (plain (codes "connectors"))
    ∷ cluster_route (codes "manage_connectors") post (plain (codes "connectors"))
    ∷ cluster_route (codes "view_connectors") get (named (codes "connectors"))
    ∷ cluster_route (codes "manage_connectors") put (named (codes "connectors"))
    ∷ cluster_route (codes "manage_connectors") delete (named (codes "connectors"))
    ∷ cluster_route (codes "manage_connectors") post
        (named (codes "connectors") ++ plain (codes "restart"))
    ∷ cluster_route (codes "manage_connectors") post
        (named (codes "connectors") ++ plain (codes "pause"))
    ∷ cluster_route (codes "manage_connectors") post
        (named (codes "connectors") ++ plain (codes "resume"))
    ∷ []

abbrev pub other_routes : List Route
other_routes =
    cluster_route (codes "execute_ksql") post (plain (codes "ksql"))
    ∷ cluster_route (codes "view_ksql") get (literal (codes "ksql") ∷ plain (codes "info"))
    ∷ cluster_route (codes "view_acls") get (plain (codes "acls"))
    ∷ cluster_route (codes "create_acls") post (plain (codes "acls"))
    ∷ cluster_route (codes "delete_acls") post (literal (codes "acls") ∷ plain (codes "delete"))
    ∷ cluster_route (codes "view_kafka_users") get (plain (codes "users"))
    ∷ cluster_route (codes "manage_kafka_users") post (plain (codes "users"))
    ∷ cluster_route (codes "manage_kafka_users") post
        (literal (codes "users") ∷ plain (codes "delete"))
    ∷ cluster_route (codes "view_dashboard") get (plain (codes "metrics"))
    ∷ []

abbrev pub routes : List Route
routes =
    auth_routes
    ++ (global_routes
        ++ (admin_routes ++ (topic_routes ++ (schema_routes ++ (connect_routes ++ other_routes)))))

module _ (accepts : Text → Bool) where
  abbrev pub takes : Segment → Text → Bool
  takes (literal u) t = text_eq u t
  takes placeholder t = accepts t

  unfoldable pub matches : List Segment → List Text → Bool
  matches [] [] = true
  matches [] (t ∷ ts) = false
  matches (s ∷ ss) [] = false
  matches (s ∷ ss) (t ∷ ts) = takes s t && matches ss ts

  unfoldable pub lookup : Method → List Text → List Route → Option Guard
  lookup m path [] = none
  lookup m path (r ∷ rs) =
      let rest = lookup m path rs in
      if same_method r.method m && matches r.pattern path then some r.guard else rest

  -- What the server asks of the sender of a call, where its path has a route.
  unfoldable pub guard_of : Call → Option Guard
  guard_of c = elim (segments c) [ none ↦ none | some path ↦ lookup (method_of c) path routes ]

  -- What it asks of a request with a method and a path, which is cut at each "/".
  unfoldable pub serve : Method → Text → Option Guard
  serve m path = elim (split b'/' path) [ [] ↦ none | first ∷ parts ↦ lookup m parts routes ]
