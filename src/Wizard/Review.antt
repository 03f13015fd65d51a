-- ===== src/Wizard/Review.antt =====
-- What the wizard's steps show of the data: the messages about addresses in SchemaRegistryStep.tsx,
-- KafkaConnectStep.tsx and KsqlStep.tsx, and the rows of ReviewStep.tsx.
use kafka_ui.Base.{
  ℕ, Bool, not, Option, none, some, List, [], ◌∷◌, ◌++◌, map, length, any, ltb, if◌then◌else◌, Text,
  codes, truthy, text_eq,
}
use kafka_ui.Api.Clusters.{Endpoint, NamedEndpoint, AddClusterRequest, TestConnectionResult}
use kafka_ui.Wizard.Steps.{entries_of, tls_enabled}

-- `protocol` is `new URL(value).protocol`, `none` where the constructor throws.
module _ (protocol : Text → Option Text) where
  abbrev is_web : Text → Bool
  is_web p = any (text_eq p) (codes "http:" ∷ codes "https:" ∷ [])

  -- The three functions `validateURL` differ in what they say.
  unfoldable pub validate_url : Text → Text → Text → Option Text
  validate_url other_protocol invalid value =
      if not (truthy value) then none else elim (protocol value) [
        | some p ↦ if not (is_web p) then some other_protocol else none
        | none ↦ some invalid
      ]

  abbrev pub url_of : Option Endpoint → Text
  url_of none = []
  url_of (some e) = e.url

  unfoldable pub registry_error : Option Endpoint → Option Text
  unfolding validate_url
  registry_error registry =
      validate_url (codes "URL must start with http:// or https://")
        (codes "Invalid URL format (e.g. http://schema-registry:8081)") (url_of registry)

  unfoldable pub connect_errors : Option (List NamedEndpoint) → List (Option Text)
  unfolding validate_url
  connect_errors connect =
      map
        (λ (e : NamedEndpoint).
          validate_url (codes "Must be http:// or https://") (codes "Invalid URL") e.url)
        (entries_of connect)

  unfoldable pub ksql_error : Option Endpoint → Option Text
  unfolding validate_url
  ksql_error ksql =
      validate_url (codes "URL must start with http:// or https://")
        (codes "Invalid URL format (e.g. http://ksql:8088)") (url_of ksql)

-- `String` of a number.
module _ (to_string : ℕ → Text) where
  abbrev row : Text → Text → List (Text × Text)
  row label value = (label, value) ∷ []

  abbrev url_row : Text → Option Endpoint → List (Text × Text)
  url_row label none = []
  url_row label (some e) = if truthy e.url then row label e.url else []

  -- The labels of the rows with what stands beside them.
  unfoldable pub review_rows : AddClusterRequest → List (Text × Text)
  review_rows d =
      row (codes "Name") d.name
      ++ (row (codes "Bootstrap Servers") d.bootstrap_servers
          ++ ((if tls_enabled d.tls then row (codes "TLS") (codes "Enabled") else [])
              ++ ((elim d.sasl [ none ↦ [] | some s ↦ row (codes "SASL") s.mechanism ])
                  ++ (url_row (codes "Schema Registry") d.schema_registry
                      ++ ((let n = length (entries_of d.kafka_connect) in
                            if ltb 0 n
                            then row (codes "Kafka Connect") (to_string n ++ codes " cluster(s)")
                            else [])
                          ++ url_row (codes "KSQL") d.ksql)))))

-- The line beside the button for the test.
unfoldable pub test_message : Option TestConnectionResult → Bool → Option Text
test_message none testing =
    if testing
    then none
    else some (codes "Test connection before saving to verify your configuration")
test_message (some r) testing =
    if text_eq r.status (codes "ok") then some (codes "Connection successful") else elim r.error [
      | none ↦ some (codes "Connection failed")
      | some t ↦ some (if truthy t then t else codes "Connection failed")
    ]
