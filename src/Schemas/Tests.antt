-- ===== src/Schemas/Tests.antt =====
-- The pages of the schema registry on concrete schemas.
use kafka_ui.Schemas.Detail.{
  SchemaVersion, sorted_versions, insert_version, active_schema, find_version, view_clicked,
}
use kafka_ui.Schemas.Detail.Laws.{active_schema_lem}
use kafka_ui.Base.{
  ℕ, ◌+◌, ◌≤◌, none, some, get_elem?, ◌≡◌, refl, true, List, [], ◌∷◌, All, Text, codes, includes,
  starts_with, arith,
}
use kafka_ui.Api.Errors.{resolved}
use kafka_ui.Api.Routes.{schemas_create, schemas_delete}
use kafka_ui.ListPage
use kafka_ui.ListPage.{
  Rights, Event, fetched, search_typed, create_opened, edited, submitted, create_settled,
  delete_clicked, confirmed, filtered, on_confirm, create, create_settles,
}
use kafka_ui.Search.{is_match}
use kafka_ui.Schemas.{
  SchemaSubjectInfo, SchemaEdit, subject_typed, schema_typed, schema_type_chosen, edit_schema,
  schemas_page, run,
}
use kafka_ui.Schemas.Laws.{IsSchemasCall, run-IsSchemasCall}

abbrev subject_info : Text → SchemaSubjectInfo
subject_info subject = record {
  subject = subject;
  latest_version = 2;
  latest_schema_id = 7;
  schema_type = codes "AVRO";
}

abbrev everything : Rights
everything = record { creates = true; deletes = true }

abbrev session : List (Event SchemaSubjectInfo SchemaEdit)
session =
    fetched (resolved (subject_info (codes "a") ∷ subject_info [] ∷ []))
    ∷ delete_clicked 1
    ∷ confirmed
    ∷ create_opened
    ∷ edited (subject_typed (codes "b"))
    ∷ submitted
    ∷ edited (schema_typed (codes "{}"))
    ∷ edited (schema_type_chosen 1)
    ∷ submitted
    ∷ create_settled (resolved tt)
    ∷ delete_clicked 0
    ∷ confirmed
    ∷ delete_clicked 0
    ∷ confirmed
    ∷ []

session_calls :
    (run (λ t. t) (codes "c") everything session).calls
    ≡ schemas_delete (codes "c") (codes "a")
      ∷ schemas_create
          (codes "c")
          (record { subject = codes "b"; schema = codes "{}"; schema_type = codes "JSON" })
      ∷ []
unfolding ListPage.run ListPage.act filtered on_confirm create create_settles is_match edit_schema
    schemas_page includes starts_with
session_calls = refl

run-IsSchemasCall_example :
    All
      (IsSchemasCall (codes "c") everything (λ (t : Text). Unit))
      (run (λ t. t) (codes "c") everything session).calls
run-IsSchemasCall_example =
    run-IsSchemasCall (codes "c") everything (λ t. Unit) (λ t. t) session
      ((tt, (tt, tt)), omega arith)

abbrev version : ℕ → SchemaVersion
version n = record { version = n; id = 100 + n; schema = codes "{}"; schema_type = codes "AVRO" }

abbrev versions : List SchemaVersion
versions = version 2 ∷ version 11 ∷ version 1 ∷ []

shown_versions :
    (sorted_versions versions ≡ version 11 ∷ version 2 ∷ version 1 ∷ [])
    × (active_schema none versions ≡ some (version 11))
    × (active_schema (view_clicked 2 versions none) versions ≡ some (version 1))
    × (active_schema (some 7) versions ≡ none)
unfolding sorted_versions insert_version active_schema find_version view_clicked
shown_versions = (refl, refl, refl, refl)

third_listed : get_elem? (sorted_versions versions) 2 ≡ some (version 1)
unfolding sorted_versions insert_version
third_listed = refl

active_schema_lem_example :
    ((v : SchemaVersion) × (active_schema none versions ≡ some v)
      × All (λ (u : SchemaVersion). u.version ≤ v.version) versions)
    × ((v : SchemaVersion) × (active_schema (view_clicked 2 versions (some 2)) versions ≡ some v)
        × (v.version ≡ 1))
active_schema_lem_example = active_schema_lem versions 2 (version 1) (some 2) third_listed
