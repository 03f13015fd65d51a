-- ===== src/Server/Guards.antt =====
-- What the server asks of the calls that change a cluster.
use kafka_ui.Base.{
  ◌≡◌, ◌⊎◌, ◌∙◌, inl, inr, refl, Bool, true, false, Option, none, some, List, [], ◌∷◌, Text, codes,
  text_eq, Bool-cases, Option-cases,
}
use kafka_ui.Api.Bodies.{
  CreateTopicRequest, ResetOffsetsRequest, CreateSchemaRequest, CreateConnectorRequest, KsqlRequest,
  AclEntry, UpsertScramUserRequest, DeleteScramUserRequest,
}
use kafka_ui.Api.Encode.{encode_uri_component}
use kafka_ui.Api.Routes.{
  Call, in_cluster, with_encoded, segments, method_of, topics_create, topics_delete, groups_reset,
  schemas_create, schemas_delete, connect_create, connect_delete, connect_restart, connect_pause,
  connect_resume, ksql_execute, acl_create, acl_delete, users_create, users_delete,
}
use kafka_ui.Server.{Guard, needs_action, routes, matches, lookup, guard_of}

module _ (accepts : Text → Bool) where
  -- A route that is found needs the action.
  abbrev pub Asks : Option Guard → Text → Type 0
  Asks o action = (o ≡ none) ⊎ (o ≡ some (needs_action action))

  either : {X : Type 0} (t : Text) → (accepts t ≡ true → X) → (accepts t ≡ false → X) → X
  either t taken left = elim (Bool-cases (accepts t)) [ inl e ↦ taken e | inr e ↦ left e ]

  asks :
      (c : Call) {path : List Text} {action : Text}
      → segments c ≡ some path
      → Asks (lookup accepts (method_of c) path routes) action
      → Asks (guard_of accepts c) action
  unfolding guard_of
  asks c at h = rw (at, guard_of) h

  none-Asks : (c : Call) {action : Text} → segments c ≡ none → Asks (guard_of accepts c) action
  unfolding guard_of
  none-Asks c at = rw (at, guard_of) (inl refl)

  encoded-Asks :
      (c : Call) {action : Text} (name : Text) (parts : Text → List Text)
      → segments c ≡ with_encoded name parts
      → ((e : Text) → Asks (lookup accepts (method_of c) (parts e) routes) action)
      → Asks (guard_of accepts c) action
  encoded-Asks c name parts is h = elim (Option-cases (encode_uri_component name)) [
    | inl code ↦ none-Asks c (is ∙ rw (with_encoded, code) refl)
    | inr (e, code) ↦ asks c (is ∙ rw (with_encoded, code) refl) (h e)
  ]

  pub topics_create-Asks :
      (c : Text) (d : CreateTopicRequest)
      → Asks (guard_of accepts (topics_create c d)) (codes "create_topics")
  unfolding segments method_of lookup matches text_eq
  topics_create-Asks c d =
      asks (topics_create c d) refl (either c (λ p. rw p (inr refl)) (λ p. rw p (inl refl)))

  pub topics_delete-Asks :
      (c t : Text) → Asks (guard_of accepts (topics_delete c t)) (codes "delete_topics")
  unfolding segments method_of lookup matches text_eq
  topics_delete-Asks c t = asks (topics_delete c t) refl (
      either c (λ p. either t (λ q. rw (p, q) (inr refl)) (λ q. rw (p, q) (inl refl)))
        (λ p. rw p (inl refl)))

  pub groups_reset-Asks :
      (c g : Text) (d : ResetOffsetsRequest)
      → Asks (guard_of accepts (groups_reset c g d)) (codes "reset_consumer_groups")
  unfolding segments method_of lookup matches text_eq
  groups_reset-Asks c g d =
      encoded-Asks (groups_reset c g d) g
        (λ e. in_cluster c (codes "consumer-groups" ∷ e ∷ codes "reset" ∷ [])) refl
        (λ e.
          either c (λ p. either e (λ q. rw (p, q) (inr refl)) (λ q. rw (p, q) (inl refl)))
            (λ p. rw p (inl refl)))

  pub schemas_create-Asks :
      (c : Text) (d : CreateSchemaRequest)
      → Asks (guard_of accepts (schemas_create c d)) (codes "create_schemas")
  unfolding segments method_of lookup matches text_eq
  schemas_create-Asks c d =
      asks (schemas_create c d) refl (either c (λ p. rw p (inr refl)) (λ p. rw p (inl refl)))

  pub schemas_delete-Asks :
      (c s : Text) → Asks (guard_of accepts (schemas_delete c s)) (codes "delete_schemas")
  unfolding segments method_of lookup matches text_eq
  schemas_delete-Asks c s =
      encoded-Asks (schemas_delete c s) s (λ e. in_cluster c (codes "schemas" ∷ e ∷ [])) refl
        (λ e.
          either c (λ p. either e (λ q. rw (p, q) (inr refl)) (λ q. rw (p, q) (inl refl)))
            (λ p. rw p (inl refl)))

  pub connect_create-Asks :
      (c : Text) (d : CreateConnectorRequest)
      → Asks (guard_of accepts (connect_create c d)) (codes "manage_connectors")
  unfolding segments method_of lookup matches text_eq
  connect_create-Asks c d =
      asks (connect_create c d) refl (either c (λ p. rw p (inr refl)) (λ p. rw p (inl refl)))

  pub connect_delete-Asks :
      (c n : Text) → Asks (guard_of accepts (connect_delete c n)) (codes "manage_connectors")
  unfolding segments method_of lookup matches text_eq
  connect_delete-Asks c n =
      encoded-Asks (connect_delete c n) n (λ e. in_cluster c (codes "connectors" ∷ e ∷ [])) refl
        (λ e.
          either c (λ p. either e (λ q. rw (p, q) (inr refl)) (λ q. rw (p, q) (inl refl)))
            (λ p. rw p (inl refl)))

  pub connect_restart-Asks :
      (c n : Text) → Asks (guard_of accepts (connect_restart c n)) (codes "manage_connectors")
  unfolding segments method_of lookup matches text_eq
  connect_restart-Asks c n =
      encoded-Asks (connect_restart c n) n
        (λ e. in_cluster c (codes "connectors" ∷ e ∷ codes "restart" ∷ [])) refl
        (λ e.
          either c (λ p. either e (λ q. rw (p, q) (inr refl)) (λ q. rw (p, q) (inl refl)))
            (λ p. rw p (inl refl)))

  pub connect_pause-Asks :
      (c n : Text) → Asks (guard_of accepts (connect_pause c n)) (codes "manage_connectors")
  unfolding segments method_of lookup matches text_eq
  connect_pause-Asks c n =
      encoded-Asks (connect_pause c n) n
        (λ e. in_cluster c (codes "connectors" ∷ e ∷ codes "pause" ∷ [])) refl
        (λ e.
          either c (λ p. either e (λ q. rw (p, q) (inr refl)) (λ q. rw (p, q) (inl refl)))
            (λ p. rw p (inl refl)))

  pub connect_resume-Asks :
      (c n : Text) → Asks (guard_of accepts (connect_resume c n)) (codes "manage_connectors")
  unfolding segments method_of lookup matches text_eq
  connect_resume-Asks c n =
      encoded-Asks (connect_resume c n) n
        (λ e. in_cluster c (codes "connectors" ∷ e ∷ codes "resume" ∷ [])) refl
        (λ e.
          either c (λ p. either e (λ q. rw (p, q) (inr refl)) (λ q. rw (p, q) (inl refl)))
            (λ p. rw p (inl refl)))

  pub ksql_execute-Asks :
      (c : Text) (d : KsqlRequest)
      → Asks (guard_of accepts (ksql_execute c d)) (codes "execute_ksql")
  unfolding segments method_of lookup matches text_eq
  ksql_execute-Asks c d =
      asks (ksql_execute c d) refl (either c (λ p. rw p (inr refl)) (λ p. rw p (inl refl)))

  pub acl_create-Asks :
      (c : Text) (d : AclEntry) → Asks (guard_of accepts (acl_create c d)) (codes "create_acls")
  unfolding segments method_of lookup matches text_eq
  acl_create-Asks c d =
      asks (acl_create c d) refl (either c (λ p. rw p (inr refl)) (λ p. rw p (inl refl)))

  pub acl_delete-Asks :
      (c : Text) (d : AclEntry) → Asks (guard_of accepts (acl_delete c d)) (codes "delete_acls")
  unfolding segments method_of lookup matches text_eq
  acl_delete-Asks c d =
      asks (acl_delete c d) refl (either c (λ p. rw p (inr refl)) (λ p. rw p (inl refl)))

  pub users_create-Asks :
      (c : Text) (d : UpsertScramUserRequest)
      → Asks (guard_of accepts (users_create c d)) (codes "manage_kafka_users")
  unfolding segments method_of lookup matches text_eq
  users_create-Asks c d =
      asks (users_create c d) refl (either c (λ p. rw p (inr refl)) (λ p. rw p (inl refl)))

  pub users_delete-Asks :
      (c : Text) (d : DeleteScramUserRequest)
      → Asks (guard_of accepts (users_delete c d)) (codes "manage_kafka_users")
  unfolding segments method_of lookup matches text_eq
  users_delete-Asks c d =
      asks (users_delete c d) refl (either c (λ p. rw p (inr refl)) (λ p. rw p (inl refl)))
