-- ===== src/Server/Reach.antt =====
-- That each call of the client has a route on the server.
use mathlib.Core.Path.{subst}
use kafka_ui.Base.{
  ◌≡◌, ◌≢◌, refl, sym, ◌∙◌, Bool, true, Option, none, some, List, [], ◌∷◌, All, Text, codes,
  text_eq,
}
use kafka_ui.Api.Encode.{encode_uri_component}
use kafka_ui.Api.Routes.{
  Call, in_cluster, with_encoded, segments, method_of, overview, clusters_list, brokers_list,
  topics_list, topics_details, topics_delete, topics_create, messages_browse, messages_produce,
  groups_list, groups_details, groups_reset, schemas_list, schemas_details, schemas_delete,
  schemas_create, connect_list, connect_details, connect_delete, connect_restart, connect_pause,
  connect_resume, connect_create, connect_update, ksql_execute, ksql_info, acl_list, acl_create,
  acl_delete, users_list, users_create, users_delete, metrics_get, cel_validate, auth_status,
  auth_me, auth_logout, auth_permissions, auth_login, admin_clusters, admin_add, admin_update,
  admin_delete, admin_test, admin_users, admin_user, admin_delete_user, admin_roles,
}
use kafka_ui.Server.{routes, matches, lookup, guard_of}

some_inj {ℓ} : {A : Type ℓ} {a b : A} → some a ≡ some b → a ≡ b
some_inj e = cc

-- What `with_encoded` gives, where it gives anything.
encoded :
    (name : Text) (parts : Text → List Text) (path : List Text)
    → with_encoded name parts ≡ some path
    → (e : Text) × (encode_uri_component name ≡ some e) × (parts e ≡ path)
encoded name parts path at = by_code (encode_uri_component name) refl at
  where
    by_code :
        (o : Option Text)
        → encode_uri_component name ≡ o
        → (elim o [ none ↦ none | some e ↦ some (parts e) ]) ≡ some path
        → (e : Text) × (encode_uri_component name ≡ some e) × (parts e ≡ path)
    by_code none found at = absurd (cc)
    by_code (some e) found at = (e, found, some_inj at)

pub guard_of-at :
    (accepts : Text → Bool) (c : Call) (path : List Text)
    → segments c ≡ some path
    → guard_of accepts c ≡ lookup accepts (method_of c) path routes
unfolding guard_of
guard_of-at accepts c path at = rw (at, guard_of) refl

with_code :
    (name e : Text) (parts : Text → List Text)
    → encode_uri_component name ≡ some e
    → with_encoded name parts ≡ some (parts e)
with_code name e parts code = rw (with_encoded, code) refl

module _ (accepts : Text → Bool) where
  abbrev pub IsAccepted : List Text → Type 0
  IsAccepted = All (λ t. accepts t ≡ true)

  abbrev Reaches : Call → List Text → Type 0
  Reaches c path = lookup accepts (method_of c) path routes ≢ none

  -- A call is on its way along the parts that make up its path.
  reach :
      (c : Call) {parts path : List Text}
      → segments c ≡ some parts
      → segments c ≡ some path
      → IsAccepted path
      → (IsAccepted parts → Reaches c parts)
      → guard_of accepts c ≢ none
  reach c {parts} {path} is at h found =
      let same : parts ≡ path = some_inj (sym is ∙ at) in
      rw (guard_of-at accepts c path at)
        (subst (Reaches c) same (found (subst IsAccepted (sym same) h)))

  reach_encoded :
      (c : Call) {path : List Text} (name : Text) (parts : Text → List Text)
      → segments c ≡ with_encoded name parts
      → segments c ≡ some path
      → IsAccepted path
      → ((e : Text) → IsAccepted (parts e) → Reaches c (parts e))
      → guard_of accepts c ≢ none
  reach_encoded c {path} name parts is at h found =
      let (e, code, same) = encoded name parts path (sym is ∙ at) in
      reach c (is ∙ with_code name e parts code) at h (found e)

  -- Each call has a route, if a placeholder takes each part of its path.
  pub guard_of-nonempty :
      (c : Call) (path : List Text)
      → segments c ≡ some path
      → IsAccepted path
      → guard_of accepts c ≢ none
  unfolding segments method_of lookup matches text_eq
  guard_of-nonempty overview path at h = reach overview refl at h (λ g. cc)
  guard_of-nonempty clusters_list path at h = reach clusters_list refl at h (λ g. cc)
  guard_of-nonempty (brokers_list c) path at h =
      reach (brokers_list c) refl at h (λ g. rw (g.1.0) cc)
  guard_of-nonempty (topics_list c) path at h = reach (topics_list c) refl at h (λ g. rw (g.1.0) cc)
  guard_of-nonempty (topics_details c t) path at h =
      reach (topics_details c t) refl at h (λ g. rw (g.1.0, g.1.1.1.0) cc)
  guard_of-nonempty (topics_delete c t) path at h =
      reach (topics_delete c t) refl at h (λ g. rw (g.1.0, g.1.1.1.0) cc)
  guard_of-nonempty (topics_create c d) path at h =
      reach (topics_create c d) refl at h (λ g. rw (g.1.0) cc)
  guard_of-nonempty (messages_browse c t) path at h =
      reach (messages_browse c t) refl at h (λ g. rw (g.1.0, g.1.1.1.0) cc)
  guard_of-nonempty (messages_produce c t d) path at h =
      reach (messages_produce c t d) refl at h (λ g. rw (g.1.0, g.1.1.1.0) cc)
  guard_of-nonempty (groups_list c) path at h = reach (groups_list c) refl at h (λ g. rw (g.1.0) cc)
  guard_of-nonempty (groups_details c g) path at h =
      reach_encoded (groups_details c g) g (λ e. in_cluster c (codes "consumer-groups" ∷ e ∷ []))
        refl at h (λ e g. rw (g.1.0, g.1.1.1.0) cc)
  guard_of-nonempty (groups_reset c g d) path at h =
      reach_encoded (groups_reset c g d) g
        (λ e. in_cluster c (codes "consumer-groups" ∷ e ∷ codes "reset" ∷ [])) refl at h
        (λ e g. rw (g.1.0, g.1.1.1.0) cc)
  guard_of-nonempty (schemas_list c) path at h =
      reach (schemas_list c) refl at h (λ g. rw (g.1.0) cc)
  guard_of-nonempty (schemas_details c s) path at h =
      reach_encoded (schemas_details c s) s (λ e. in_cluster c (codes "schemas" ∷ e ∷ [])) refl at h
        (λ e g. rw (g.1.0, g.1.1.1.0) cc)
  guard_of-nonempty (schemas_delete c s) path at h =
      reach_encoded (schemas_delete c s) s (λ e. in_cluster c (codes "schemas" ∷ e ∷ [])) refl at h
        (λ e g. rw (g.1.0, g.1.1.1.0) cc)
  guard_of-nonempty (schemas_create c d) path at h =
      reach (schemas_create c d) refl at h (λ g. rw (g.1.0) cc)
  guard_of-nonempty (connect_list c) path at h =
      reach (connect_list c) refl at h (λ g. rw (g.1.0) cc)
  guard_of-nonempty (connect_details c n) path at h =
      reach_encoded (connect_details c n) n (λ e. in_cluster c (codes "connectors" ∷ e ∷ [])) refl
        at h (λ e g. rw (g.1.0, g.1.1.1.0) cc)
  guard_of-nonempty (connect_delete c n) path at h =
      reach_encoded (connect_delete c n) n (λ e. in_cluster c (codes "connectors" ∷ e ∷ [])) refl at
        h (λ e g. rw (g.1.0, g.1.1.1.0) cc)
  guard_of-nonempty (connect_restart c n) path at h =
      reach_encoded (connect_restart c n) n
        (λ e. in_cluster c (codes "connectors" ∷ e ∷ codes "restart" ∷ [])) refl at h
        (λ e g. rw (g.1.0, g.1.1.1.0) cc)
  guard_of-nonempty (connect_pause c n) path at h =
      reach_encoded (connect_pause c n) n
        (λ e. in_cluster c (codes "connectors" ∷ e ∷ codes "pause" ∷ [])) refl at h
        (λ e g. rw (g.1.0, g.1.1.1.0) cc)
  guard_of-nonempty (connect_resume c n) path at h =
      reach_encoded (connect_resume c n) n
        (λ e. in_cluster c (codes "connectors" ∷ e ∷ codes "resume" ∷ [])) refl at h
        (λ e g. rw (g.1.0, g.1.1.1.0) cc)
  guard_of-nonempty (connect_create c d) path at h =
      reach (connect_create c d) refl at h (λ g. rw (g.1.0) cc)
  guard_of-nonempty (connect_update c n d) path at h =
      reach_encoded (connect_update c n d) n (λ e. in_cluster c (codes "connectors" ∷ e ∷ [])) refl
        at h (λ e g. rw (g.1.0, g.1.1.1.0) cc)
  guard_of-nonempty (ksql_execute c d) path at h =
      reach (ksql_execute c d) refl at h (λ g. rw (g.1.0) cc)
  guard_of-nonempty (ksql_info c) path at h = reach (ksql_info c) refl at h (λ g. rw (g.1.0) cc)
  guard_of-nonempty (acl_list c) path at h = reach (acl_list c) refl at h (λ g. rw (g.1.0) cc)
  guard_of-nonempty (acl_create c d) path at h =
      reach (acl_create c d) refl at h (λ g. rw (g.1.0) cc)
  guard_of-nonempty (acl_delete c d) path at h =
      reach (acl_delete c d) refl at h (λ g. rw (g.1.0) cc)
  guard_of-nonempty (users_list c) path at h = reach (users_list c) refl at h (λ g. rw (g.1.0) cc)
  guard_of-nonempty (users_create c d) path at h =
      reach (users_create c d) refl at h (λ g. rw (g.1.0) cc)
  guard_of-nonempty (users_delete c d) path at h =
      reach (users_delete c d) refl at h (λ g. rw (g.1.0) cc)
  guard_of-nonempty (metrics_get c) path at h = reach (metrics_get c) refl at h (λ g. rw (g.1.0) cc)
  guard_of-nonempty (cel_validate e) path at h = reach (cel_validate e) refl at h (λ g. cc)
  guard_of-nonempty auth_status path at h = reach auth_status refl at h (λ g. cc)
  guard_of-nonempty auth_me path at h = reach auth_me refl at h (λ g. cc)
  guard_of-nonempty auth_logout path at h = reach auth_logout refl at h (λ g. cc)
  guard_of-nonempty auth_permissions path at h = reach auth_permissions refl at h (λ g. cc)
  guard_of-nonempty (auth_login d) path at h = reach (auth_login d) refl at h (λ g. cc)
  guard_of-nonempty admin_clusters path at h = reach admin_clusters refl at h (λ g. cc)
  guard_of-nonempty (admin_add d v) path at h = reach (admin_add d v) refl at h (λ g. cc)
  guard_of-nonempty (admin_update n d v) path at h =
      reach_encoded (admin_update n d v) n (λ e. codes "admin" ∷ codes "clusters" ∷ e ∷ []) refl at
        h (λ e g. rw (g.1.1.0) cc)
  guard_of-nonempty (admin_delete n) path at h =
      reach_encoded (admin_delete n) n (λ e. codes "admin" ∷ codes "clusters" ∷ e ∷ []) refl at h
        (λ e g. rw (g.1.1.0) cc)
  guard_of-nonempty (admin_test d) path at h = reach (admin_test d) refl at h (λ g. cc)
  guard_of-nonempty admin_users path at h = reach admin_users refl at h (λ g. cc)
  guard_of-nonempty (admin_user i) path at h =
      reach_encoded (admin_user i) i (λ e. codes "admin" ∷ codes "users" ∷ e ∷ []) refl at h
        (λ e g. rw (g.1.1.0) cc)
  guard_of-nonempty (admin_delete_user i) path at h =
      reach_encoded (admin_delete_user i) i (λ e. codes "admin" ∷ codes "users" ∷ e ∷ []) refl at h
        (λ e g. rw (g.1.1.0) cc)
  guard_of-nonempty (admin_roles i d) path at h =
      reach_encoded (admin_roles i d) i
        (λ e. codes "admin" ∷ codes "users" ∷ e ∷ codes "roles" ∷ []) refl at h
        (λ e g. rw (g.1.1.0) cc)
