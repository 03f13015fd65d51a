-- ===== src/Api/Routes/Laws.antt =====
-- The path of a call and its parts.
use kafka_ui.Base.{
  ◌≡◌, refl, ap, ◌∙◌, false, Option, none, some, List, [], ◌∷◌, ◌++◌, All, any, ◌==◌, arith, Text,
  codes, split, split-append, split_whole, HasNo, Option-cases, inl, inr, append-nil,
}
use kafka_ui.Api.Encode.{encode_uri_component}
use kafka_ui.Api.Encode.Laws.{IsUnits, IsPlain, encode_uri_component-IsPlain}
use kafka_ui.Api.Routes.{
  join, with_encoded, in_cluster, segments, Call, overview, clusters_list, brokers_list,
  topics_list, topics_details, topics_delete, topics_create, messages_browse, messages_produce,
  groups_list, groups_details, groups_reset, schemas_list, schemas_details, schemas_delete,
  schemas_create, connect_list, connect_details, connect_delete, connect_restart, connect_pause,
  connect_resume, connect_create, connect_update, ksql_execute, ksql_info, acl_list, acl_create,
  acl_delete, users_list, users_create, users_delete, metrics_get, cel_validate, auth_status,
  auth_me, auth_logout, auth_permissions, auth_login, admin_clusters, admin_add, admin_update,
  admin_delete, admin_test, admin_users, admin_user, admin_delete_user, admin_roles,
}
use kafka_ui.Api.Routes.Names.{plain_names, encoded_names}

abbrev pub IsSegment : Text → Type 0
IsSegment = HasNo b'/'

plain-IsSegment : (e : Text) → All IsPlain e → IsSegment e
plain-IsSegment [] h = tt
plain-IsSegment (c ∷ e) (h, hs) = (ground arith, plain-IsSegment e hs)

AllOf : Option (List Text) → Type 0
AllOf none = Unit
AllOf (some ss) = All IsSegment ss

encoded-AllOf :
    (name : Text) (parts : Text → List Text)
    → IsUnits name
    → ((e : Text) → IsSegment e → All IsSegment (parts e))
    → AllOf (with_encoded name parts)
unfolding AllOf
encoded-AllOf name parts u h = elim (Option-cases (encode_uri_component name)) [
  | inl throws ↦ rw (throws, AllOf) tt
  | inr (e, done) ↦
      rw (done, AllOf) (h e (plain-IsSegment e (encode_uri_component-IsPlain name e u done)))
]

literal : (s : Text) → any (λ c. c == b'/') s ≡ false → IsSegment s
literal [] h = tt
literal (c ∷ s) h = (ground arith, literal s (ground arith))

in_cluster-IsSegment :
    (c : Text) (parts : List Text)
    → IsSegment c
    → All IsSegment parts
    → All IsSegment (in_cluster c parts)
in_cluster-IsSegment c parts hc h = (literal (codes "clusters") refl, (hc, h))

segments-AllOf :
    (c : Call) → All IsSegment (plain_names c) → All IsUnits (encoded_names c) → AllOf (segments c)
unfolding segments AllOf
segments-AllOf overview hs us = (literal (codes "dashboard") refl, tt)
segments-AllOf clusters_list hs us = (literal (codes "clusters") refl, tt)
segments-AllOf (brokers_list c) hs us =
    in_cluster-IsSegment c (codes "brokers" ∷ []) hs.0 (literal (codes "brokers") refl, tt)
segments-AllOf (topics_list c) hs us =
    in_cluster-IsSegment c (codes "topics" ∷ []) hs.0 (literal (codes "topics") refl, tt)
segments-AllOf (topics_details c t) hs us =
    in_cluster-IsSegment c (codes "topics" ∷ t ∷ []) hs.0
      (literal (codes "topics") refl, (hs.1.0, tt))
segments-AllOf (topics_delete c t) hs us =
    in_cluster-IsSegment c (codes "topics" ∷ t ∷ []) hs.0
      (literal (codes "topics") refl, (hs.1.0, tt))
segments-AllOf (topics_create c d) hs us =
    in_cluster-IsSegment c (codes "topics" ∷ []) hs.0 (literal (codes "topics") refl, tt)
segments-AllOf (messages_browse c t) hs us =
    in_cluster-IsSegment c (codes "topics" ∷ t ∷ codes "messages" ∷ []) hs.0
      (literal (codes "topics") refl, (hs.1.0, (literal (codes "messages") refl, tt)))
segments-AllOf (messages_produce c t d) hs us =
    in_cluster-IsSegment c (codes "topics" ∷ t ∷ codes "messages" ∷ []) hs.0
      (literal (codes "topics") refl, (hs.1.0, (literal (codes "messages") refl, tt)))
segments-AllOf (groups_list c) hs us =
    in_cluster-IsSegment c (codes "consumer-groups" ∷ []) hs.0
      (literal (codes "consumer-groups") refl, tt)
segments-AllOf (groups_details c n) hs us =
    encoded-AllOf n (λ e. in_cluster c (codes "consumer-groups" ∷ e ∷ [])) us.0
      (λ e he.
        in_cluster-IsSegment c (codes "consumer-groups" ∷ e ∷ []) hs.0
          (literal (codes "consumer-groups") refl, (he, tt)))
segments-AllOf (groups_reset c n d) hs us =
    encoded-AllOf n (λ e. in_cluster c (codes "consumer-groups" ∷ e ∷ codes "reset" ∷ [])) us.0
      (λ e he.
        in_cluster-IsSegment c (codes "consumer-groups" ∷ e ∷ codes "reset" ∷ []) hs.0
          (literal (codes "consumer-groups") refl, (he, (literal (codes "reset") refl, tt))))
segments-AllOf (schemas_list c) hs us =
    in_cluster-IsSegment c (codes "schemas" ∷ []) hs.0 (literal (codes "schemas") refl, tt)
segments-AllOf (schemas_details c n) hs us =
    encoded-AllOf n (λ e. in_cluster c (codes "schemas" ∷ e ∷ [])) us.0
      (λ e he.
        in_cluster-IsSegment c (codes "schemas" ∷ e ∷ []) hs.0
          (literal (codes "schemas") refl, (he, tt)))
segments-AllOf (schemas_delete c n) hs us =
    encoded-AllOf n (λ e. in_cluster c (codes "schemas" ∷ e ∷ [])) us.0
      (λ e he.
        in_cluster-IsSegment c (codes "schemas" ∷ e ∷ []) hs.0
          (literal (codes "schemas") refl, (he, tt)))
segments-AllOf (schemas_create c d) hs us =
    in_cluster-IsSegment c (codes "schemas" ∷ []) hs.0 (literal (codes "schemas") refl, tt)
segments-AllOf (connect_list c) hs us =
    in_cluster-IsSegment c (codes "connectors" ∷ []) hs.0 (literal (codes "connectors") refl, tt)
segments-AllOf (connect_details c n) hs us =
    encoded-AllOf n (λ e. in_cluster c (codes "connectors" ∷ e ∷ [])) us.0
      (λ e he.
        in_cluster-IsSegment c (codes "connectors" ∷ e ∷ []) hs.0
          (literal (codes "connectors") refl, (he, tt)))
segments-AllOf (connect_delete c n) hs us =
    encoded-AllOf n (λ e. in_cluster c (codes "connectors" ∷ e ∷ [])) us.0
      (λ e he.
        in_cluster-IsSegment c (codes "connectors" ∷ e ∷ []) hs.0
          (literal (codes "connectors") refl, (he, tt)))
segments-AllOf (connect_restart c n) hs us =
    encoded-AllOf n (λ e. in_cluster c (codes "connectors" ∷ e ∷ codes "restart" ∷ [])) us.0
      (λ e he.
        in_cluster-IsSegment c (codes "connectors" ∷ e ∷ codes "restart" ∷ []) hs.0
          (literal (codes "connectors") refl, (he, (literal (codes "restart") refl, tt))))
segments-AllOf (connect_pause c n) hs us =
    encoded-AllOf n (λ e. in_cluster c (codes "connectors" ∷ e ∷ codes "pause" ∷ [])) us.0
      (λ e he.
        in_cluster-IsSegment c (codes "connectors" ∷ e ∷ codes "pause" ∷ []) hs.0
          (literal (codes "connectors") refl, (he, (literal (codes "pause") refl, tt))))
segments-AllOf (connect_resume c n) hs us =
    encoded-AllOf n (λ e. in_cluster c (codes "connectors" ∷ e ∷ codes "resume" ∷ [])) us.0
      (λ e he.
        in_cluster-IsSegment c (codes "connectors" ∷ e ∷ codes "resume" ∷ []) hs.0
          (literal (codes "connectors") refl, (he, (literal (codes "resume") refl, tt))))
segments-AllOf (connect_create c d) hs us =
    in_cluster-IsSegment c (codes "connectors" ∷ []) hs.0 (literal (codes "connectors") refl, tt)
segments-AllOf (connect_update c n d) hs us =
    encoded-AllOf n (λ e. in_cluster c (codes "connectors" ∷ e ∷ [])) us.0
      (λ e he.
        in_cluster-IsSegment c (codes "connectors" ∷ e ∷ []) hs.0
          (literal (codes "connectors") refl, (he, tt)))
segments-AllOf (ksql_execute c d) hs us =
    in_cluster-IsSegment c (codes "ksql" ∷ []) hs.0 (literal (codes "ksql") refl, tt)
segments-AllOf (ksql_info c) hs us =
    in_cluster-IsSegment c (codes "ksql" ∷ codes "info" ∷ []) hs.0
      (literal (codes "ksql") refl, (literal (codes "info") refl, tt))
segments-AllOf (acl_list c) hs us =
    in_cluster-IsSegment c (codes "acls" ∷ []) hs.0 (literal (codes "acls") refl, tt)
segments-AllOf (acl_create c d) hs us =
    in_cluster-IsSegment c (codes "acls" ∷ []) hs.0 (literal (codes "acls") refl, tt)
segments-AllOf (acl_delete c d) hs us =
    in_cluster-IsSegment c (codes "acls" ∷ codes "delete" ∷ []) hs.0
      (literal (codes "acls") refl, (literal (codes "delete") refl, tt))
segments-AllOf (users_list c) hs us =
    in_cluster-IsSegment c (codes "users" ∷ []) hs.0 (literal (codes "users") refl, tt)
segments-AllOf (users_create c d) hs us =
    in_cluster-IsSegment c (codes "users" ∷ []) hs.0 (literal (codes "users") refl, tt)
segments-AllOf (users_delete c d) hs us =
    in_cluster-IsSegment c (codes "users" ∷ codes "delete" ∷ []) hs.0
      (literal (codes "users") refl, (literal (codes "delete") refl, tt))
segments-AllOf (metrics_get c) hs us =
    in_cluster-IsSegment c (codes "metrics" ∷ []) hs.0 (literal (codes "metrics") refl, tt)
segments-AllOf (cel_validate x) hs us =
    (literal (codes "cel") refl, (literal (codes "validate") refl, tt))
segments-AllOf auth_status hs us =
    (literal (codes "auth") refl, (literal (codes "status") refl, tt))
segments-AllOf auth_me hs us = (literal (codes "auth") refl, (literal (codes "me") refl, tt))
segments-AllOf auth_logout hs us =
    (literal (codes "auth") refl, (literal (codes "logout") refl, tt))
segments-AllOf auth_permissions hs us =
    (literal (codes "auth") refl, (literal (codes "permissions") refl, tt))
segments-AllOf (auth_login d) hs us =
    (literal (codes "auth") refl, (literal (codes "login") refl, tt))
segments-AllOf admin_clusters hs us =
    (literal (codes "admin") refl, (literal (codes "clusters") refl, tt))
segments-AllOf (admin_add d v) hs us =
    (literal (codes "admin") refl, (literal (codes "clusters") refl, tt))
segments-AllOf (admin_update n d v) hs us =
    encoded-AllOf n (λ e. codes "admin" ∷ codes "clusters" ∷ e ∷ []) us.0
      (λ e he. (literal (codes "admin") refl, (literal (codes "clusters") refl, (he, tt))))
segments-AllOf (admin_delete n) hs us =
    encoded-AllOf n (λ e. codes "admin" ∷ codes "clusters" ∷ e ∷ []) us.0
      (λ e he. (literal (codes "admin") refl, (literal (codes "clusters") refl, (he, tt))))
segments-AllOf (admin_test d) hs us = (
  literal (codes "admin") refl,
  (literal (codes "clusters") refl, (literal (codes "test") refl, tt)),
)
segments-AllOf admin_users hs us =
    (literal (codes "admin") refl, (literal (codes "users") refl, tt))
segments-AllOf (admin_user n) hs us =
    encoded-AllOf n (λ e. codes "admin" ∷ codes "users" ∷ e ∷ []) us.0
      (λ e he. (literal (codes "admin") refl, (literal (codes "users") refl, (he, tt))))
segments-AllOf (admin_delete_user n) hs us =
    encoded-AllOf n (λ e. codes "admin" ∷ codes "users" ∷ e ∷ []) us.0
      (λ e he. (literal (codes "admin") refl, (literal (codes "users") refl, (he, tt))))
segments-AllOf (admin_roles n d) hs us =
    encoded-AllOf n (λ e. codes "admin" ∷ codes "users" ∷ e ∷ codes "roles" ∷ []) us.0
      (λ e he. (
        literal (codes "admin") refl,
        (literal (codes "users") refl, (he, (literal (codes "roles") refl, tt))),
      ))

split-join :
    (s : Text) (ss : List Text)
    → IsSegment s
    → All IsSegment ss
    → split b'/' (s ++ join ss) ≡ s ∷ ss
split-join s [] h hs = rw (append-nil s) (split_whole b'/' s h)
split-join s (t ∷ ss) h (ht, hs) =
    split-append b'/' s (t ++ join ss) h ∙ ap (s ∷◌) (split-join t ss ht hs)

some-AllOf : (ss : List Text) → AllOf (some ss) → All IsSegment ss
unfolding AllOf
some-AllOf ss h = h

-- The path of a call, cut at each "/", has exactly the parts that the call puts there, whatever the
-- encoded names hold, if the cluster's and the topic's names, which are not encoded, hold no "/".
pub segments-split :
    (c : Call) (ss : List Text)
    → All IsSegment (plain_names c)
    → All IsUnits (encoded_names c)
    → segments c ≡ some ss
    → split b'/' (join ss) ≡ [] ∷ ss
segments-split c ss hs us at =
    split-join [] ss tt (some-AllOf ss (rw at at (segments-AllOf c hs us)))
