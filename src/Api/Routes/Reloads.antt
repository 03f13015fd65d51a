-- ===== src/Api/Routes/Reloads.antt =====
-- Which calls reload the page when the server says 401.
use kafka_ui.Base.{
  ◌≡◌, ◌≢◌, refl, sym, ap, ◌∙◌, ◌↔◌, Bool, true, false, not, ◌&&◌, Option, none, some, List, [],
  ◌∷◌, arith, Text, codes, starts_with, Option-cases, Bool-cases, ◌==◌, inl, inr,
}
use kafka_ui.Api.Errors.{Thrown, resolved, rejected}
use kafka_ui.Api.Encode.{encode_uri_component}
use kafka_ui.Api.Request.{
  Json, unparsable, null_value, value, Outcome, Response, Reply, failed, replied, request, is_ok,
}
use kafka_ui.Api.Routes.{
  join, with_encoded, in_cluster, segments, Call, overview, clusters_list, brokers_list,
  topics_list, topics_details, topics_delete, topics_create, messages_browse, messages_produce,
  groups_list, groups_details, groups_reset, schemas_list, schemas_details, schemas_delete,
  schemas_create, connect_list, connect_details, connect_delete, connect_restart, connect_pause,
  connect_resume, connect_create, connect_update, ksql_execute, ksql_info, acl_list, acl_create,
  acl_delete, users_list, users_create, users_delete, metrics_get, cel_validate, auth_status,
  auth_me, auth_logout, auth_permissions, auth_login, admin_clusters, admin_add, admin_update,
  admin_delete, admin_test, admin_users, admin_user, admin_delete_user, admin_roles,
}

abbrev pub is_login : Call → Bool
is_login (auth_login d) = true
is_login _ = false

abbrev pub login_path : Text
login_path = codes "/auth/login"

Starts : Bool → Option (List Text) → Type 0
Starts b none = Unit
Starts b (some ss) = starts_with (join ss) login_path ≡ b

encoded-Starts :
    (name : Text) (parts : Text → List Text)
    → ((e : Text) → starts_with (join (parts e)) login_path ≡ false)
    → Starts false (with_encoded name parts)
unfolding Starts
encoded-Starts name parts h = elim (Option-cases (encode_uri_component name)) [
  | inl throws ↦ rw (throws, Starts) tt
  | inr (e, done) ↦ rw (done, Starts) (h e)
]

segments-Starts : (c : Call) → Starts (is_login c) (segments c)
unfolding segments Starts starts_with
segments-Starts overview = refl
segments-Starts clusters_list = refl
segments-Starts (brokers_list c) = refl
segments-Starts (topics_list c) = refl
segments-Starts (topics_details c t) = refl
segments-Starts (topics_delete c t) = refl
segments-Starts (topics_create c d) = refl
segments-Starts (messages_browse c t) = refl
segments-Starts (messages_produce c t d) = refl
segments-Starts (groups_list c) = refl
segments-Starts (groups_details c n) =
    encoded-Starts n (λ e. in_cluster c (codes "consumer-groups" ∷ e ∷ [])) (λ e. refl)
segments-Starts (groups_reset c n d) =
    encoded-Starts n (λ e. in_cluster c (codes "consumer-groups" ∷ e ∷ codes "reset" ∷ []))
      (λ e. refl)
segments-Starts (schemas_list c) = refl
segments-Starts (schemas_details c n) =
    encoded-Starts n (λ e. in_cluster c (codes "schemas" ∷ e ∷ [])) (λ e. refl)
segments-Starts (schemas_delete c n) =
    encoded-Starts n (λ e. in_cluster c (codes "schemas" ∷ e ∷ [])) (λ e. refl)
segments-Starts (schemas_create c d) = refl
segments-Starts (connect_list c) = refl
segments-Starts (connect_details c n) =
    encoded-Starts n (λ e. in_cluster c (codes "connectors" ∷ e ∷ [])) (λ e. refl)
segments-Starts (connect_delete c n) =
    encoded-Starts n (λ e. in_cluster c (codes "connectors" ∷ e ∷ [])) (λ e. refl)
segments-Starts (connect_restart c n) =
    encoded-Starts n (λ e. in_cluster c (codes "connectors" ∷ e ∷ codes "restart" ∷ [])) (λ e. refl)
segments-Starts (connect_pause c n) =
    encoded-Starts n (λ e. in_cluster c (codes "connectors" ∷ e ∷ codes "pause" ∷ [])) (λ e. refl)
segments-Starts (connect_resume c n) =
    encoded-Starts n (λ e. in_cluster c (codes "connectors" ∷ e ∷ codes "resume" ∷ [])) (λ e. refl)
segments-Starts (connect_create c d) = refl
segments-Starts (connect_update c n d) =
    encoded-Starts n (λ e. in_cluster c (codes "connectors" ∷ e ∷ [])) (λ e. refl)
segments-Starts (ksql_execute c d) = refl
segments-Starts (ksql_info c) = refl
segments-Starts (acl_list c) = refl
segments-Starts (acl_create c d) = refl
segments-Starts (acl_delete c d) = refl
segments-Starts (users_list c) = refl
segments-Starts (users_create c d) = refl
segments-Starts (users_delete c d) = refl
segments-Starts (metrics_get c) = refl
segments-Starts (cel_validate x) = refl
segments-Starts auth_status = refl
segments-Starts auth_me = refl
segments-Starts auth_logout = refl
segments-Starts auth_permissions = refl
segments-Starts (auth_login d) = refl
segments-Starts admin_clusters = refl
segments-Starts (admin_add d v) = refl
segments-Starts (admin_update n d v) =
    encoded-Starts n (λ e. codes "admin" ∷ codes "clusters" ∷ e ∷ []) (λ e. refl)
segments-Starts (admin_delete n) =
    encoded-Starts n (λ e. codes "admin" ∷ codes "clusters" ∷ e ∷ []) (λ e. refl)
segments-Starts (admin_test d) = refl
segments-Starts admin_users = refl
segments-Starts (admin_user n) =
    encoded-Starts n (λ e. codes "admin" ∷ codes "users" ∷ e ∷ []) (λ e. refl)
segments-Starts (admin_delete_user n) =
    encoded-Starts n (λ e. codes "admin" ∷ codes "users" ∷ e ∷ []) (λ e. refl)
segments-Starts (admin_roles n d) =
    encoded-Starts n (λ e. codes "admin" ∷ codes "users" ∷ e ∷ codes "roles" ∷ []) (λ e. refl)

replied-inj : (r q : Response) → replied r ≡ replied q → r ≡ q
replied-inj r q h = cc

unfailed : (e : Thrown) (r : Response) → failed e ≢ replied r
unfailed e r h = cc

parsed-reloads :
    (j : Json)
    → (Outcome.reloads (elim j [
      | unparsable e ↦ record { result = rejected e; reloads = false }
      | null_value ↦ record { result = resolved null_value; reloads = false }
      | value error ↦ record { result = resolved (value error); reloads = false }
    ]))
      ≡ false
parsed-reloads (unparsable e) = refl
parsed-reloads null_value = refl
parsed-reloads (value error) = refl

some-Starts :
    (b : Bool) (ss : List Text) → Starts b (some ss) → starts_with (join ss) login_path ≡ b
unfolding Starts
some-Starts b ss h = h

request-reloads :
    (null_error : Thrown) (path : Text) (r : Response)
    → (request null_error path (replied r)).reloads
      ≡ (not (is_ok r) && (r.status == 401 && not (starts_with path login_path)))
unfolding request
request-reloads null_error path r = elim (Bool-cases (is_ok r)) [
  | inl ok ↦ rw (ok, request) (parsed-reloads r.json)
  | inr bad ↦ elim (Bool-cases (r.status == 401 && not (starts_with path login_path))) [
    | inl here ↦ rw (bad, request, here) refl
    | inr other ↦ rw (bad, request, other) refl
  ]
]

unauthorized :
    (r : Response) (b : Bool)
    → ((not (is_ok r) && (r.status == 401 && not b)) ≡ true) ↔ ((b ≡ false) × (r.status ≡ 401))
unauthorized r b = ground arith

-- A 401 reloads the page after every call but the login itself; nothing else reloads it.
pub request-reloads_iff :
    (null_error : Thrown) (c : Call) (ss : List Text) (reply : Reply)
    → segments c ≡ some ss
    → ((request null_error (join ss) reply).reloads ≡ true)
      ↔ ((is_login c ≡ false) × ((r : Response) × (reply ≡ replied r) × (r.status ≡ 401)))
request-reloads_iff null_error c ss (failed e) at =
    (unfold request in (λ h. cc), λ (_, (r, h, _)). absurd (unfailed e r h))
request-reloads_iff null_error c ss (replied r) at =
    let login = some-Starts (is_login c) ss (rw at at (segments-Starts c)) in
    let known =
      request-reloads null_error (join ss) r
      ∙ ap (λ b. not (is_ok r) && (r.status == 401 && not b)) login in
    let (there, back) = unauthorized r (is_login c) in
    (
      λ h. let (no_login, is_401) = there (sym known ∙ h) in (no_login, (r, refl, is_401)),
      λ (no_login, (q, same, is_401)).
          known ∙ back (no_login, ap (λ x. x.status) (replied-inj r q same) ∙ is_401),
    )
