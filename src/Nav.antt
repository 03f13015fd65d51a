-- ===== src/Nav.antt =====
-- Which links the frontend shows, and which of them it marks as the current page:
-- frontend/src/components/layout/AppSidebar.tsx and components/TopicTabs.tsx. A path is the router's
-- `location.pathname`; the cluster's and the topic's name are its parameters.
pub mod Laws
pub mod Tabs
pub mod Tests
use kafka_ui.Base.{
  Bool, true, false, not, ◌&&◌, ◌||◌, Option, none, some, List, [], ◌∷◌, ◌++◌, map, any,
  if◌then◌else◌, Text, codes, truthy, text_eq, starts_with,
}

pub record Link : Type 0 where
  pub label : Text
  pub href : Text
  pub is_active : Bool

abbrev pub cluster_nav_items : List (Text × Text)
cluster_nav_items =
    (codes "Brokers", codes "brokers")
    ∷ (codes "Topics", codes "topics")
    ∷ (codes "Consumer Groups", codes "consumer-groups")
    ∷ (codes "Schema Registry", codes "schemas")
    ∷ (codes "Kafka Connect", codes "connect")
    ∷ (codes "KSQL", codes "ksql")
    ∷ (codes "ACL", codes "acl")
    ∷ (codes "Users", codes "users")
    ∷ (codes "Metrics", codes "metrics")
    ∷ []

-- `/clusters/${name}/`
abbrev pub cluster_path : Text → Text
cluster_path name = codes "/clusters/" ++ (name ++ codes "/")

abbrev pub main_link : Text → Text → Text → Link
main_link label href pathname = record {
  label = label;
  href = href;
  is_active = text_eq pathname href;
}

-- The first links, with the rights to manage clusters and users.
unfoldable pub main_links : Bool → Bool → Text → List Link
main_links can_manage_clusters can_manage_users pathname =
    main_link (codes "Dashboard") (codes "/") pathname
    ∷ main_link (codes "Clusters") (codes "/clusters") pathname
    ∷ ((if can_manage_clusters
          then record {
            label = codes "Settings";
            href = codes "/settings/clusters";
            is_active = starts_with pathname (codes "/settings");
          }
            ∷ []
          else [])
        ++ (if can_manage_users
            then main_link (codes "Users") (codes "/settings/users") pathname ∷ []
            else []))

-- The links of a cluster's sections.
abbrev pub section_link : Text → Text → Text × Text → Link
section_link pathname name (label, path) = record {
  label = label;
  href = cluster_path name ++ path;
  is_active = starts_with pathname (cluster_path name ++ path);
}

abbrev pub sections_of : Text → Text → List Link
sections_of pathname name = map (section_link pathname name) cluster_nav_items

unfoldable pub section_links : Text → Option Text → List Link
section_links pathname none = []
section_links pathname (some name) = if truthy name then sections_of pathname name else []

-- Whether the router's parameter `clusterName` is a name.
abbrev pub is_named : Option Text → Text → Bool
is_named none name = false
is_named (some t) name = text_eq t name

-- The link of a cluster that the server has listed; there are none before it answers.
unfoldable pub cluster_link : Text → Option Text → Text → Link
cluster_link pathname cluster_name name = record {
  label = name;
  href = cluster_path name ++ codes "brokers";
  is_active =
      is_named cluster_name name
      && not (
          any (λ (item : Text × Text). starts_with pathname (cluster_path name ++ item.1))
            cluster_nav_items);
}

unfoldable pub cluster_links : Text → Option Text → Option (List Text) → List Link
cluster_links pathname cluster_name none = []
cluster_links pathname cluster_name (some names) = map (cluster_link pathname cluster_name) names
