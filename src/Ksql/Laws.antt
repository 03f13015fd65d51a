-- ===== src/Ksql/Laws.antt =====
-- What KsqlPage.tsx sends, and whose result it shows.
use kafka_ui.Base.{
  ◌≡◌, refl, Bool, true, false, not, ◌&&◌, Option, none, some, List, [], ◌∷◌, All, get_elem?,
  if_elim, option_elim, arith, Text, truthy, trim,
}
use kafka_ui.Api.Errors.{resolved, rejected}
use kafka_ui.Api.Routes.{Call, ksql_execute}
use kafka_ui.Ksql.{
  KsqlResponse, KsqlPage, KsqlEvent, action_clicked, query_typed, execute_clicked, execute_settled,
  initial_ksql, execute_settles, quick_actions, act, run, opened,
}

module _ (cluster : Text) (can_execute_ksql : Bool) {Value : Type 0}
    (IsAnswer : KsqlResponse Value → Type 0) where
  abbrev pub IsExecution : Call → Type 0
  IsExecution (ksql_execute c d) =
      (can_execute_ksql ≡ true) × (c ≡ cluster) × (truthy (trim d.query) ≡ true)
  IsExecution _ = ⊥

  abbrev pub IsAnswered : KsqlEvent Value → Type 0
  IsAnswered (execute_settled (resolved r)) = IsAnswer r
  IsAnswered _ = Unit

  abbrev pub IsShownResult : Option (KsqlResponse Value) → Type 0
  IsShownResult none = Unit
  IsShownResult (some r) = IsAnswer r

  -- An error or a result is there only after a statement was sent.
  abbrev Keeps : KsqlPage Value → Type 0
  Keeps p =
      All IsExecution p.calls
      × IsShownResult p.result
      × (can_execute_ksql ≡ false
          → (p.executing ≡ false) × (p.query ≡ []) × (p.result ≡ none) × (p.error ≡ none))

  act-Keeps :
      (p : KsqlPage Value) (e : KsqlEvent Value)
      → IsAnswered e
      → Keeps p
      → Keeps (act cluster can_execute_ksql p e)
  unfolding act execute_settles
  act-Keeps p (action_clicked i) g h =
      if_elim Keeps can_execute_ksql
        (λ t.
          option_elim Keeps (get_elem? quick_actions i) p _ (λ _. h)
            (λ a _. (h.0, h.1, (λ f. absurd (cc)))))
        (λ _. h)
  act-Keeps p (query_typed v) g h =
      if_elim Keeps can_execute_ksql (λ t. (h.0, h.1, (λ f. absurd (cc)))) (λ _. h)
  act-Keeps p execute_clicked g h =
      if_elim Keeps (can_execute_ksql && (not p.executing && truthy (trim p.query)))
        (λ t. (((ground arith, refl, ground arith), h.0), h.1, (λ f. absurd (ground arith))))
        (λ _. h)
  act-Keeps p (execute_settled (resolved r)) g h =
      if_elim Keeps p.executing (λ t. (h.0, g, (λ f. absurd (let quiet = (h.2 f).0 in cc))))
        (λ _. h)
  act-Keeps p (execute_settled (rejected e)) g h =
      if_elim Keeps p.executing (λ t. (h.0, h.1, (λ f. absurd (let quiet = (h.2 f).0 in cc))))
        (λ _. h)

  run-Keeps :
      (p : KsqlPage Value) (es : List (KsqlEvent Value))
      → All IsAnswered es
      → Keeps p
      → Keeps (run cluster can_execute_ksql p es)
  unfolding run
  run-Keeps p [] g h = h
  run-Keeps p (e ∷ es) g h =
      run-Keeps (act cluster can_execute_ksql p e) es g.1 (act-Keeps p e g.0 h)

  -- Whatever the user does and the server answers, the page only executes statements that are not
  -- blank, on its cluster, for a user with the right to, and shows only what the server answered;
  -- for a user without the right it stays as it was opened: no text, no result and no error.
  pub opened-IsExecution :
      (es : List (KsqlEvent Value))
      → All IsAnswered es
      → All IsExecution (opened cluster can_execute_ksql es).calls
        × IsShownResult (opened cluster can_execute_ksql es).result
        × (can_execute_ksql ≡ false
            → ((opened cluster can_execute_ksql es).query ≡ [])
              × ((opened cluster can_execute_ksql es).result ≡ none)
              × ((opened cluster can_execute_ksql es).error ≡ none))
  opened-IsExecution es g =
      let (calls, result, still) =
        run-Keeps initial_ksql es g (tt, tt, (λ _. (refl, refl, refl, refl))) in
      (calls, result, (λ f. let (quiet, query, shown, error) = still f in (query, shown, error)))
