-- ===== src/Api/Routes/Names.antt =====
-- The names in the path of a call: a cluster's and a topic's go there as they are.
use kafka_ui.Base.{List, [], ◌∷◌, Text}
use kafka_ui.Api.Routes.{
  Call, brokers_list, topics_list, topics_details, topics_delete, topics_create, messages_browse,
  messages_produce, groups_list, groups_details, groups_reset, schemas_list, schemas_details,
  schemas_delete, schemas_create, connect_list, connect_details, connect_delete, connect_restart,
  connect_pause, connect_resume, connect_create, connect_update, ksql_execute, ksql_info, acl_list,
  acl_create, acl_delete, users_list, users_create, users_delete, metrics_get, admin_update,
  admin_delete, admin_user, admin_delete_user, admin_roles,
}

-- The names that go into the path as they are.
abbrev pub plain_names : Call → List Text
plain_names (brokers_list c) = c ∷ []
plain_names (topics_list c) = c ∷ []
plain_names (topics_details c t) = c ∷ t ∷ []
plain_names (topics_delete c t) = c ∷ t ∷ []
plain_names (topics_create c d) = c ∷ []
plain_names (messages_browse c t) = c ∷ t ∷ []
plain_names (messages_produce c t d) = c ∷ t ∷ []
plain_names (groups_list c) = c ∷ []
plain_names (groups_details c n) = c ∷ []
plain_names (groups_reset c n d) = c ∷ []
plain_names (schemas_list c) = c ∷ []
plain_names (schemas_details c n) = c ∷ []
plain_names (schemas_delete c n) = c ∷ []
plain_names (schemas_create c d) = c ∷ []
plain_names (connect_list c) = c ∷ []
plain_names (connect_details c n) = c ∷ []
plain_names (connect_delete c n) = c ∷ []
plain_names (connect_restart c n) = c ∷ []
plain_names (connect_pause c n) = c ∷ []
plain_names (connect_resume c n) = c ∷ []
plain_names (connect_create c d) = c ∷ []
plain_names (connect_update c n d) = c ∷ []
plain_names (ksql_execute c d) = c ∷ []
plain_names (ksql_info c) = c ∷ []
plain_names (acl_list c) = c ∷ []
plain_names (acl_create c d) = c ∷ []
plain_names (acl_delete c d) = c ∷ []
plain_names (users_list c) = c ∷ []
plain_names (users_create c d) = c ∷ []
plain_names (users_delete c d) = c ∷ []
plain_names (metrics_get c) = c ∷ []
plain_names _ = []

-- The names that are encoded.
abbrev pub encoded_names : Call → List Text
encoded_names (groups_details c n) = n ∷ []
encoded_names (groups_reset c n d) = n ∷ []
encoded_names (schemas_details c n) = n ∷ []
encoded_names (schemas_delete c n) = n ∷ []
encoded_names (connect_details c n) = n ∷ []
encoded_names (connect_delete c n) = n ∷ []
encoded_names (connect_restart c n) = n ∷ []
encoded_names (connect_pause c n) = n ∷ []
encoded_names (connect_resume c n) = n ∷ []
encoded_names (connect_update c n d) = n ∷ []
encoded_names (admin_update n d v) = n ∷ []
encoded_names (admin_delete n) = n ∷ []
encoded_names (admin_user n) = n ∷ []
encoded_names (admin_delete_user n) = n ∷ []
encoded_names (admin_roles n d) = n ∷ []
encoded_names _ = []
