-- ===== src/Wizard/Steps/Laws.antt =====
-- What a change in a step does to the data of the request.
use kafka_ui.Base.{
  ℕ, ◌≡◌, ◌≢◌, refl, Bool, true, false, Option, none, some, List, [], ◌∷◌, arith, Text, codes,
  truthy, text_eq, ltb→lt, if_elim,
}
use kafka_ui.Api.Clusters.{AddClusterRequest, Tls, Sasl, Endpoint, NamedEndpoint}
use kafka_ui.Wizard.State.{merge, blank_request}
use kafka_ui.Wizard.Steps.{
  StepEdit, name_typed, bootstrap_typed, tls_checked, ca_file_typed, mechanism_chosen,
  username_typed, password_typed, registry_url_typed, connect_added, connect_removed,
  connect_name_typed, connect_url_typed, ksql_url_typed, step_of, is_shown, partial_of,
  or_undefined, check_tls, change_ca_file, choose_mechanism, change_username, change_password,
  change_url, mechanism_of,
}
use kafka_ui.Wizard.Steps.Entries.{
  IsFilled, add_entry-IsFilled, remove_entry-IsFilled, update_entry-IsFilled,
}

-- The two requests agree but for the section of one step.
pub record SameBut (k : ℕ) (d d' : AddClusterRequest) : Type 0 where
  pub connection : k ≢ 0 → (d'.name ≡ d.name) × (d'.bootstrap_servers ≡ d.bootstrap_servers)
  pub tls : k ≢ 1 → d'.tls ≡ d.tls
  pub sasl : k ≢ 2 → d'.sasl ≡ d.sasl
  pub schema_registry : k ≢ 3 → d'.schema_registry ≡ d.schema_registry
  pub kafka_connect : k ≢ 4 → d'.kafka_connect ≡ d.kafka_connect
  pub ksql : k ≢ 5 → d'.ksql ≡ d.ksql
  pub metrics : d'.metrics ≡ d.metrics

-- A change in a step leaves the sections of the other steps, and the metrics endpoint, alone.
partial_of-SameBut :
    (d : AddClusterRequest) (e : StepEdit) → SameBut (step_of e) d (merge d (partial_of d e))
unfolding merge partial_of step_of
partial_of-SameBut d (name_typed v) = ground arith
partial_of-SameBut d (bootstrap_typed v) = ground arith
partial_of-SameBut d (tls_checked b) = ground arith
partial_of-SameBut d (ca_file_typed v) = ground arith
partial_of-SameBut d (mechanism_chosen v) = ground arith
partial_of-SameBut d (username_typed v) = ground arith
partial_of-SameBut d (password_typed v) = ground arith
partial_of-SameBut d (registry_url_typed v) = ground arith
partial_of-SameBut d connect_added = ground arith
partial_of-SameBut d (connect_removed i) = ground arith
partial_of-SameBut d (connect_name_typed i v) = ground arith
partial_of-SameBut d (connect_url_typed i v) = ground arith
partial_of-SameBut d (ksql_url_typed v) = ground arith

-- TLS is on where it is given, and a CA file is not named "".
abbrev pub IsTls : Option Tls → Type 0
IsTls none = Unit
IsTls (some t) = (t.enabled ≡ true) × (t.ca_file ≢ some [])

abbrev pub IsSasl : Option Sasl → Type 0
IsSasl none = Unit
IsSasl (some s) = s.mechanism ≢ []

abbrev pub IsUrl : Option Endpoint → Type 0
IsUrl none = Unit
IsUrl (some e) = e.url ≢ []

-- No section is present but empty.
pub record IsCompact (d : AddClusterRequest) : Type 0 where
  pub tls : IsTls d.tls
  pub sasl : IsSasl d.sasl
  pub schema_registry : IsUrl d.schema_registry
  pub kafka_connect : IsFilled d.kafka_connect
  pub ksql : IsUrl d.ksql

ca_file_ok : (v : Text) → or_undefined v ≢ some []
ca_file_ok [] e = cc
ca_file_ok (c ∷ v) e = cc

check_tls-IsTls : (tls : Option Tls) (b : Bool) → IsTls tls → IsTls (check_tls tls b)
unfolding check_tls
check_tls-IsTls none false h = tt
check_tls-IsTls none true h = (refl, λ e. cc)
check_tls-IsTls (some t) false h = tt
check_tls-IsTls (some t) true h = (refl, h.1)

change_url-IsUrl : (v : Text) → IsUrl (change_url v)
unfolding change_url
change_url-IsUrl [] = tt
change_url-IsUrl (c ∷ v) = λ e. cc

choose-IsSasl :
    (d : AddClusterRequest) (v : Text)
    → is_shown d (mechanism_chosen v) ≡ true
    → IsSasl (choose_mechanism d.sasl v)
unfolding choose_mechanism is_shown
choose-IsSasl d [] h = unfold text_eq in absurd (ground arith)
choose-IsSasl d (c ∷ v) h = if_elim IsSasl (text_eq (c ∷ v) (codes "none")) (λ _. tt) (λ _ e. cc)

truthy_mechanism : (s : Option Sasl) → truthy (mechanism_of s) ≡ true → mechanism_of s ≢ []
truthy_mechanism s h e = let bad : truthy (mechanism_of s) ≡ false = rw e refl in cc

change_ca_file-IsTls : (v : Text) → IsTls (change_ca_file v)
unfolding change_ca_file
change_ca_file-IsTls v = (refl, ca_file_ok v)

module _ (d : AddClusterRequest) (c : IsCompact d) where
  with_connection : (n b : Text) → IsCompact (record d { name = n; bootstrap_servers = b })
  with_connection n b = record {
    tls = c.tls;
    sasl = c.sasl;
    schema_registry = c.schema_registry;
    kafka_connect = c.kafka_connect;
    ksql = c.ksql;
  }

  with_tls : {x : Option Tls} → IsTls x → IsCompact (record d { tls = x })
  with_tls h = record {
    tls = h;
    sasl = c.sasl;
    schema_registry = c.schema_registry;
    kafka_connect = c.kafka_connect;
    ksql = c.ksql;
  }

  with_sasl : {x : Option Sasl} → IsSasl x → IsCompact (record d { sasl = x })
  with_sasl h = record {
    tls = c.tls;
    sasl = h;
    schema_registry = c.schema_registry;
    kafka_connect = c.kafka_connect;
    ksql = c.ksql;
  }

  with_registry : {x : Option Endpoint} → IsUrl x → IsCompact (record d { schema_registry = x })
  with_registry h = record {
    tls = c.tls;
    sasl = c.sasl;
    schema_registry = h;
    kafka_connect = c.kafka_connect;
    ksql = c.ksql;
  }

  with_connect :
      {x : Option (List NamedEndpoint)} → IsFilled x → IsCompact (record d { kafka_connect = x })
  with_connect h = record {
    tls = c.tls;
    sasl = c.sasl;
    schema_registry = c.schema_registry;
    kafka_connect = h;
    ksql = c.ksql;
  }

  with_ksql : {x : Option Endpoint} → IsUrl x → IsCompact (record d { ksql = x })
  with_ksql h = record {
    tls = c.tls;
    sasl = c.sasl;
    schema_registry = c.schema_registry;
    kafka_connect = c.kafka_connect;
    ksql = h;
  }

-- A change by a control that is shown leaves no section present but empty, if none was before.
pub partial_of-IsCompact :
    (d : AddClusterRequest) (e : StepEdit)
    → is_shown d e ≡ true
    → IsCompact d
    → IsCompact (merge d (partial_of d e))
unfolding merge partial_of
partial_of-IsCompact d (name_typed v) shown c = with_connection d c v d.bootstrap_servers
partial_of-IsCompact d (bootstrap_typed v) shown c = with_connection d c d.name v
partial_of-IsCompact d (tls_checked b) shown c = with_tls d c (check_tls-IsTls d.tls b c.tls)
partial_of-IsCompact d (ca_file_typed v) shown c = with_tls d c (change_ca_file-IsTls v)
partial_of-IsCompact d (mechanism_chosen v) shown c = with_sasl d c (choose-IsSasl d v shown)
partial_of-IsCompact d (username_typed v) shown c =
    with_sasl d c (unfold change_username in truthy_mechanism d.sasl (unfold is_shown in shown))
partial_of-IsCompact d (password_typed v) shown c =
    with_sasl d c (unfold change_password in truthy_mechanism d.sasl (unfold is_shown in shown))
partial_of-IsCompact d (registry_url_typed v) shown c = with_registry d c (change_url-IsUrl v)
partial_of-IsCompact d connect_added shown c = with_connect d c (add_entry-IsFilled d.kafka_connect)
partial_of-IsCompact d (connect_removed i) shown c =
    with_connect d c (remove_entry-IsFilled d.kafka_connect i)
partial_of-IsCompact d (connect_name_typed i v) shown c = with_connect d c (
    update_entry-IsFilled _ d.kafka_connect i c.kafka_connect
      (ltb→lt _ _ (unfold is_shown in shown)))
partial_of-IsCompact d (connect_url_typed i v) shown c = with_connect d c (
    update_entry-IsFilled _ d.kafka_connect i c.kafka_connect
      (ltb→lt _ _ (unfold is_shown in shown)))
partial_of-IsCompact d (ksql_url_typed v) shown c = with_ksql d c (change_url-IsUrl v)

pub blank_request-IsCompact : IsCompact blank_request
blank_request-IsCompact = record {
  tls = tt;
  sasl = tt;
  schema_registry = tt;
  kafka_connect = tt;
  ksql = tt;
}
