-- ===== src/Server/Tests.antt =====
-- The server's routes on concrete paths.
use kafka_ui.Base.{
  ◌≡◌, ◌≢◌, List, Text, arith, ◌≤◌, refl, none, some, [], ◌∷◌, keep, length, codes, truthy, text_eq,
}
use kafka_ui.Api.Encode.{encode_uri_component}
use kafka_ui.Api.Routes.{
  join, post, segments, method_of, topics_delete, connect_pause, admin_test, users_list,
}
use kafka_ui.Server.{needs_action, needs_admin, routes, matches, lookup, guard_of, serve}
use kafka_ui.Server.Disjoint.{is_found, is_found_unique}
use kafka_ui.Server.Paths.{serve-nonempty}

-- A placeholder takes any part of a path that is not empty.
guards :
    (guard_of truthy (topics_delete (codes "c") (codes "t"))
      ≡ some (needs_action (codes "delete_topics")))
    × (guard_of truthy (topics_delete (codes "c") []) ≡ none)
    × (guard_of truthy (
          admin_test (record {
            name = [];
            bootstrap_servers = [];
            tls = none;
            sasl = none;
            schema_registry = none;
            kafka_connect = none;
            ksql = none;
            metrics = none;
          }))
        ≡ some needs_admin)
    × (guard_of truthy (users_list (codes "c")) ≡ some (needs_action (codes "view_kafka_users")))
unfolding guard_of segments method_of lookup matches text_eq
guards = (refl, refl, refl, refl)

pause_path :
    segments (connect_pause (codes "c") (codes "a"))
    ≡ some (codes "clusters" ∷ codes "c" ∷ codes "connectors" ∷ codes "a" ∷ codes "pause" ∷ [])
unfolding segments encode_uri_component
pause_path = refl

abbrev pause_parts : List Text
pause_parts = codes "clusters" ∷ codes "c" ∷ codes "connectors" ∷ codes "a" ∷ codes "pause" ∷ []

serve-nonempty_example :
    serve truthy (method_of (connect_pause (codes "c") (codes "a"))) (join pause_parts) ≢ none
serve-nonempty_example =
    serve-nonempty truthy (connect_pause (codes "c") (codes "a")) pause_parts ((refl, tt), tt)
      ((omega arith, tt), tt) pause_path (refl, (refl, (refl, (refl, (refl, tt)))))

is_found_unique_example :
    length
      (keep (is_found truthy post (codes "admin" ∷ codes "clusters" ∷ codes "test" ∷ [])) routes)
    ≤ 1
is_found_unique_example =
    is_found_unique truthy post (codes "admin" ∷ codes "clusters" ∷ codes "test" ∷ [])
