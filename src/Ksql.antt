-- ===== src/Ksql.antt =====
-- frontend/src/pages/KsqlPage.tsx, for a user that may execute statements or not. What a statement's
-- result holds besides texts is a parameter, `Value`.
pub mod Laws
pub mod Tests
use kafka_ui.Base.{
  ℕ, Bool, true, false, not, ◌&&◌, Option, none, some, List, [], ◌∷◌, get_elem?, if◌then◌else◌,
  Text, codes, truthy, trim,
}
use kafka_ui.Api.Bodies.{KsqlRequest}
use kafka_ui.Api.Errors.{Thrown, Settled, resolved, rejected}
use kafka_ui.Api.Routes.{Call, ksql_execute}
use kafka_ui.Json.{Data}

-- The type is shown if there is one.
pub record KsqlResponse (Value : Type 0) : Type 0 where
  pub response_type : Text
  pub result_data : Data Value

abbrev pub quick_actions : List (Text × Text)
quick_actions =
    (codes "SHOW STREAMS", codes "SHOW STREAMS;")
    ∷ (codes "SHOW TABLES", codes "SHOW TABLES;")
    ∷ (codes "SHOW TOPICS", codes "SHOW TOPICS;")
    ∷ (codes "SHOW QUERIES", codes "SHOW QUERIES;")
    ∷ []

pub record KsqlPage (Value : Type 0) : Type 0 where
  pub query : Text
  pub result : Option (KsqlResponse Value)
  pub executing : Bool
  pub error : Option Thrown
  pub calls : List Call

pub data KsqlEvent (Value : Type 0) : Type 0 where
  action_clicked : ℕ → KsqlEvent Value
  query_typed : Text → KsqlEvent Value
  execute_clicked : KsqlEvent Value
  execute_settled : Settled (KsqlResponse Value) → KsqlEvent Value

module _ {Value : Type 0} where
  abbrev pub initial_ksql : KsqlPage Value
  initial_ksql = record { query = []; result = none; executing = false; error = none; calls = [] }

  unfoldable pub execute_settles : Settled (KsqlResponse Value) → KsqlPage Value → KsqlPage Value
  execute_settles (resolved r) p = record p { executing = false; result = some r }
  execute_settles (rejected e) p = record p { executing = false; error = some e }

module _ (cluster : Text) (can_execute_ksql : Bool) {Value : Type 0} where
  unfoldable pub act : KsqlPage Value → KsqlEvent Value → KsqlPage Value
  act p (action_clicked i) =
      if can_execute_ksql
      then elim (get_elem? quick_actions i) [
        | none ↦ p
        | some (label, query) ↦ record p { query = query }
      ]
      else p
  act p (query_typed v) = if can_execute_ksql then record p { query = v } else p
  act p execute_clicked =
      if can_execute_ksql && (not p.executing && truthy (trim p.query))
      then record p {
        executing = true;
        error = none;
        calls = ksql_execute cluster (record { query = p.query }) ∷ p.calls;
      }
      else p
  act p (execute_settled r) = if p.executing then execute_settles r p else p

  unfoldable pub run : KsqlPage Value → List (KsqlEvent Value) → KsqlPage Value
  run p [] = p
  run p (e ∷ es) = run (act p e) es

  -- The page after some events, from when it is opened.
  abbrev pub opened : List (KsqlEvent Value) → KsqlPage Value
  opened es = run initial_ksql es
