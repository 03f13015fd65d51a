-- ===== src/Ksql/Tests.antt =====
-- The KSQL page on a session.
use kafka_ui.Base.{
  ◌≡◌, refl, true, false, none, some, List, [], ◌∷◌, All, codes, trim, trim_start, is_space,
}
use kafka_ui.Api.Errors.{resolved, rejected, error_object}
use kafka_ui.Api.Routes.{ksql_execute}
use kafka_ui.Json.{text_data}
use kafka_ui.Ksql.{
  KsqlResponse, KsqlEvent, action_clicked, query_typed, execute_clicked, execute_settled,
  execute_settles, act, run, opened,
}
use kafka_ui.Ksql.Laws.{IsExecution, IsShownResult, opened-IsExecution}

abbrev answer : KsqlResponse (Unit {0})
answer = record { response_type = codes "streams"; result_data = text_data (codes "[]") }

abbrev session : List (KsqlEvent (Unit {0}))
session =
    query_typed (codes "  ")
    ∷ execute_clicked
    ∷ action_clicked 2
    ∷ execute_clicked
    ∷ execute_clicked
    ∷ execute_settled (resolved answer)
    ∷ query_typed (codes "DROP")
    ∷ execute_clicked
    ∷ execute_settled (rejected (error_object (codes "Error") (codes "no such stream")))
    ∷ []

-- The failure is shown beside the former result.
session_ends :
    ((opened (codes "c") true session).calls
      ≡ ksql_execute (codes "c") (record { query = codes "DROP" })
        ∷ ksql_execute (codes "c") (record { query = codes "SHOW TOPICS;" })
        ∷ [])
    × ((opened (codes "c") true session).result ≡ some answer)
    × ((opened (codes "c") true session).error
        ≡ some (error_object (codes "Error") (codes "no such stream")))
unfolding run act execute_settles trim trim_start is_space
session_ends = (refl, refl, refl)

opened-IsExecution_example :
    All (IsExecution (codes "c") true (λ r. r ≡ answer)) (opened (codes "c") true session).calls
    × IsShownResult (codes "c") true (λ r. r ≡ answer) (opened (codes "c") true session).result
    × (true ≡ false
        → ((opened (codes "c") true session).query ≡ [])
          × ((opened (codes "c") true session).result ≡ none)
          × ((opened (codes "c") true session).error ≡ none))
opened-IsExecution_example =
    opened-IsExecution (codes "c") true (λ r. r ≡ answer) session
      (tt, (tt, (tt, (tt, (tt, (refl, (tt, (tt, (tt, tt)))))))))
