-- ===== src/Schemas.antt =====
-- frontend/src/pages/SchemaRegistryPage.tsx.
pub mod Laws
pub mod Detail
pub mod Tests
use kafka_ui.Base.{
  ℕ, Bool, true, false, ◌&&◌, ◌||◌, Option, none, some, List, [], ◌∷◌, get_elem?, if◌then◌else◌,
  Text, codes, truthy, includes,
}
use kafka_ui.Api.Bodies.{CreateSchemaRequest}
use kafka_ui.Api.Errors.{Thrown, Settled, resolved, get_error_message}
use kafka_ui.Api.Routes.{Call, schemas_create, schemas_delete}
use kafka_ui.ListPage
use kafka_ui.ListPage.{Shape, Rights, Page, Event, initial_page}
use kafka_ui.Search.{is_match}

pub record SchemaSubjectInfo : Type 0 where
  pub subject : Text
  pub latest_version : ℕ
  pub latest_schema_id : ℕ
  pub schema_type : Text

pub data SchemaEdit : Type 0 where
  subject_typed schema_typed : Text → SchemaEdit
  schema_type_chosen : ℕ → SchemaEdit

abbrev pub schema_types : List Text
schema_types = codes "AVRO" ∷ codes "JSON" ∷ codes "PROTOBUF" ∷ []

abbrev pub new_schema : CreateSchemaRequest
new_schema = record { subject = []; schema = []; schema_type = codes "AVRO" }

unfoldable pub edit_schema : SchemaEdit → CreateSchemaRequest → CreateSchemaRequest
edit_schema (subject_typed v) d = record d { subject = v }
edit_schema (schema_typed v) d = record d { schema = v }
edit_schema (schema_type_chosen i) d = elim (get_elem? schema_types i) [
  | none ↦ d
  | some t ↦ record d { schema_type = t }
]

-- Both fields are `required`, so the browser submits neither of them empty.
abbrev pub has_schema : CreateSchemaRequest → Bool
has_schema d = truthy d.subject && truthy d.schema

abbrev pub subject_target : SchemaSubjectInfo → Option Text
subject_target s = if truthy s.subject then some s.subject else none

module _ (to_lower_case : Text → Text) where
  -- An error of the query that is shown as a hint, with no way to retry.
  unfoldable pub is_not_configured : Thrown → Bool
  is_not_configured e = includes (to_lower_case (get_error_message e)) (codes "not configured")

  module _ (cluster : Text) where
    unfoldable pub schemas_page : Shape SchemaSubjectInfo CreateSchemaRequest SchemaEdit Text
    schemas_page = record {
      matches = λ search s. is_match to_lower_case search s.subject;
      initial = new_schema;
      edit = edit_schema;
      is_complete = has_schema;
      submit = λ d. resolved (schemas_create cluster d);
      target = subject_target;
      delete = λ subject. schemas_delete cluster subject;
      waits = true;
    }

    abbrev pub act :
        Rights
        → Page SchemaSubjectInfo CreateSchemaRequest Text
        → Event SchemaSubjectInfo SchemaEdit
        → Page SchemaSubjectInfo CreateSchemaRequest Text
    act r p e = ListPage.act schemas_page r p e

    -- The page after some events, from when it is opened.
    abbrev pub run :
        Rights
        → List (Event SchemaSubjectInfo SchemaEdit)
        → Page SchemaSubjectInfo CreateSchemaRequest Text
    run r es = ListPage.run schemas_page r (initial_page schemas_page) es
