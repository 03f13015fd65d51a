-- ===== src/Schemas/Laws.antt =====
-- What the mutations of SchemaRegistryPage.tsx send.
use mathlib.Core.Path.{subst}
use kafka_ui.Base.{
  ◌≡◌, refl, true, some, List, All, get_elem?, any, Text, truthy, text_eq, option_elim, and_parts,
  any-get_elem?, arith,
}
use kafka_ui.Api.Bodies.{CreateSchemaRequest}
use kafka_ui.Api.Routes.{Call, schemas_create, schemas_delete}
use kafka_ui.ListPage.{Rights, Event}
use kafka_ui.ListPage.Sends.{Lawful, IsGivenEvent, resolved_inj, run-IsSound}
use kafka_ui.Schemas.{
  SchemaSubjectInfo, SchemaEdit, subject_typed, schema_typed, schema_type_chosen, schema_types,
  new_schema, edit_schema, subject_target, schemas_page, run,
}

abbrev pub IsSchemaType : Text → Type 0
IsSchemaType t = any (text_eq t) schema_types ≡ true

edit_schema-IsSchemaType :
    (x : SchemaEdit) (d : CreateSchemaRequest)
    → IsSchemaType d.schema_type
    → IsSchemaType (edit_schema x d).schema_type
unfolding edit_schema
edit_schema-IsSchemaType (subject_typed v) d h = h
edit_schema-IsSchemaType (schema_typed v) d h = h
edit_schema-IsSchemaType (schema_type_chosen i) d h =
    option_elim (λ (d' : CreateSchemaRequest). IsSchemaType d'.schema_type)
      (get_elem? schema_types i) d _ (λ _. h) (λ t at. any-get_elem? schema_types i t at)

subject_target_lem :
    (row : SchemaSubjectInfo) (t : Text) → subject_target row ≡ some t → row.subject ≡ t
subject_target_lem row t at = ground arith

module _ (cluster : Text) (r : Rights) (IsListed : Text → Type 0) where
  -- A request of a mutation of the page, for a user with the rights `r`.
  abbrev pub IsSchemasCall : Call → Type 0
  IsSchemasCall (schemas_create c d) =
      (r.creates ≡ true)
      × (c ≡ cluster)
      × (truthy d.subject ≡ true)
      × (truthy d.schema ≡ true)
      × IsSchemaType d.schema_type
  IsSchemasCall (schemas_delete c subject) = (r.deletes ≡ true) × (c ≡ cluster) × IsListed subject
  IsSchemasCall _ = ⊥

  initial-IsSchemaType : IsSchemaType new_schema.schema_type
  unfolding text_eq
  initial-IsSchemaType = refl

  schemas_page-Lawful :
      (to_lower_case : Text → Text)
      → Lawful
          (schemas_page to_lower_case cluster)
          r
          (λ row. IsListed row.subject)
          (λ d. IsSchemaType d.schema_type)
          IsSchemasCall
  unfolding schemas_page
  schemas_page-Lawful to_lower_case = record {
    initial-IsFine = initial-IsSchemaType;
    edit-IsFine = edit_schema-IsSchemaType;
    submit-IsSound = λ d c may h complete at.
        let (named, filled) = and_parts (truthy d.subject) (truthy d.schema) complete in
        subst IsSchemasCall (resolved_inj (schemas_create cluster d) c at)
          (may, refl, named, filled, h);
    delete-IsSound =
        λ row t given may at. (may, refl, subst IsListed (subject_target_lem row t at) given);
  }

  -- Whatever the user does and the server answers, the page creates schemas only for a user with the
  -- right to, with a subject, a text and an offered type, and deletes only, for a user with that
  -- right, subjects that the server has listed.
  pub run-IsSchemasCall :
      (to_lower_case : Text → Text) (es : List (Event SchemaSubjectInfo SchemaEdit))
      → All (IsGivenEvent (λ row. IsListed row.subject)) es
      → All IsSchemasCall (run to_lower_case cluster r es).calls
  run-IsSchemasCall to_lower_case =
      run-IsSound (schemas_page to_lower_case cluster) r (λ row. IsListed row.subject)
        (λ d. IsSchemaType d.schema_type) IsSchemasCall (schemas_page-Lawful to_lower_case)
