-- ===== src/Permissions.antt =====
-- Which of the user's actions each page of frontend/src/pages asks `useHasAction` for; `can` is that
-- hook.
pub mod Calls
pub mod Pages
pub mod Tests
use kafka_ui.Base.{Bool, Text, codes}
use kafka_ui.ListPage.{Rights}

module _ (can : Text → Bool) where
  abbrev pub topics_rights : Rights
  topics_rights = record {
    creates = can (codes "create_topics");
    deletes = can (codes "delete_topics");
  }

  abbrev pub schemas_rights : Rights
  schemas_rights = record {
    creates = can (codes "create_schemas");
    deletes = can (codes "delete_schemas");
  }

  abbrev pub acl_rights : Rights
  acl_rights = record { creates = can (codes "create_acls"); deletes = can (codes "delete_acls") }

  abbrev pub can_manage_users : Bool
  can_manage_users = can (codes "manage_kafka_users")

  abbrev pub users_rights : Rights
  users_rights = record { creates = can_manage_users; deletes = can_manage_users }

  abbrev pub can_manage_connectors : Bool
  can_manage_connectors = can (codes "manage_connectors")

  abbrev pub can_reset_offsets : Bool
  can_reset_offsets = can (codes "reset_consumer_groups")

  abbrev pub can_delete_topics : Bool
  can_delete_topics = can (codes "delete_topics")

  abbrev pub can_execute_ksql : Bool
  can_execute_ksql = can (codes "execute_ksql")
