-- ===== src/Acl.antt =====
-- frontend/src/pages/AclPage.tsx.
pub mod Laws
pub mod Tests
use kafka_ui.Base.{
  ℕ, Bool, true, false, not, ◌||◌, Option, none, some, List, [], ◌∷◌, get_elem?, if◌then◌else◌,
  Text, codes, text_eq, includes,
}
use kafka_ui.Api.Bodies.{AclEntry}
use kafka_ui.Api.Errors.{Thrown, resolved, get_error_message}
use kafka_ui.Api.Routes.{Call, acl_create, acl_delete}
use kafka_ui.ListPage
use kafka_ui.ListPage.{Shape, Rights, Page, Event, initial_page}
use kafka_ui.Search.{is_match}

abbrev pub resource_types : List Text
resource_types = codes "TOPIC" ∷ codes "GROUP" ∷ codes "CLUSTER" ∷ codes "TRANSACTIONAL_ID" ∷ []

abbrev pub pattern_types : List Text
pattern_types = codes "LITERAL" ∷ codes "PREFIXED" ∷ []

abbrev pub operations : List Text
operations =
    codes "ALL"
    ∷ codes "READ"
    ∷ codes "WRITE"
    ∷ codes "CREATE"
    ∷ codes "DELETE"
    ∷ codes "ALTER"
    ∷ codes "DESCRIBE"
    ∷ codes "CLUSTER_ACTION"
    ∷ codes "DESCRIBE_CONFIGS"
    ∷ codes "ALTER_CONFIGS"
    ∷ codes "IDEMPOTENT_WRITE"
    ∷ []

abbrev pub permissions : List Text
permissions = codes "ALLOW" ∷ codes "DENY" ∷ []

abbrev pub initial_entry : AclEntry
initial_entry = record {
  resource_type = codes "TOPIC";
  resource_name = [];
  pattern_type = codes "LITERAL";
  principal = [];
  host = codes "*";
  operation = codes "ALL";
  permission = codes "ALLOW";
}

pub data AclEdit : Type 0 where
  resource_type_chosen pattern_type_chosen operation_chosen permission_chosen : ℕ → AclEdit
  resource_name_typed principal_typed host_typed : Text → AclEdit

-- What a select sets, for the option of an index.
abbrev pub choose : List Text → ℕ → Text → Text
choose options i old = elim (get_elem? options i) [ none ↦ old | some t ↦ t ]

abbrev pub is_cluster : AclEntry → Bool
is_cluster f = text_eq f.resource_type (codes "CLUSTER")

unfoldable pub edit_entry : AclEdit → AclEntry → AclEntry
edit_entry (resource_type_chosen i) f = record f {
  resource_type = choose resource_types i f.resource_type;
}
edit_entry (pattern_type_chosen i) f = record f {
  pattern_type = choose pattern_types i f.pattern_type;
}
edit_entry (operation_chosen i) f = record f { operation = choose operations i f.operation }
edit_entry (permission_chosen i) f = record f { permission = choose permissions i f.permission }
edit_entry (resource_name_typed v) f = if is_cluster f then f else record f { resource_name = v }
edit_entry (principal_typed v) f = record f { principal = v }
edit_entry (host_typed v) f = record f { host = v }

-- `handleCreate`
unfoldable pub entry_of : AclEntry → AclEntry
entry_of f = record f { resource_name = if is_cluster f then [] else f.resource_name }

module _ (to_lower_case : Text → Text) where
  unfoldable pub is_acl_match : Text → AclEntry → Bool
  unfolding is_match
  is_acl_match search acl =
      is_match to_lower_case search acl.principal
      || (is_match to_lower_case search acl.resource_name
          || is_match to_lower_case search acl.operation)

  -- An error of the query that is shown as a hint, with no way to retry.
  unfoldable pub is_not_available : Thrown → Bool
  is_not_available e =
      let msg = to_lower_case (get_error_message e) in
      includes msg (codes "not configured") || includes msg (codes "no authorizer")

  module _ (cluster : Text) where
    unfoldable pub acl_page : Shape AclEntry AclEntry AclEdit AclEntry
    acl_page = record {
      matches = is_acl_match;
      initial = initial_entry;
      edit = edit_entry;
      is_complete = λ f. true;
      submit = λ f. resolved (acl_create cluster (entry_of f));
      target = λ acl. some acl;
      delete = λ acl. acl_delete cluster acl;
      waits = true;
    }

    abbrev pub act :
        Rights
        → Page AclEntry AclEntry AclEntry
        → Event AclEntry AclEdit
        → Page AclEntry AclEntry AclEntry
    act r p e = ListPage.act acl_page r p e

    -- The page after some events, from when it is opened.
    abbrev pub run : Rights → List (Event AclEntry AclEdit) → Page AclEntry AclEntry AclEntry
    run r es = ListPage.run acl_page r (initial_page acl_page) es
