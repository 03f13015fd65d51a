-- ===== src/Auth/Tests.antt =====
-- The theorems about the login, at concrete sessions.
use kafka_ui.Base.{◌≡◌, ◌↔◌, ◌⊎◌, refl, true, false, none, some, List, [], ◌∷◌, codes, text_eq}
use kafka_ui.Api.Errors.{Thrown, error_object, resolved, rejected}
use kafka_ui.Api.Auth.{AuthStatus, AuthUser, PermissionsResponse}
use kafka_ui.Auth.{
  Session, initial_session, Event, loaded, submitted, username_typed, password_typed, login_settled,
  logout_settled, act, run, require_auth, login_screen, pages, has_text, has_action, signed_out,
  login_settles, load_settles, handle_submit, has_username_password,
}
use kafka_ui.Auth.History.{user_after, run-pages_iff}
use kafka_ui.Auth.Laws.{has_action_iff, IsConsistent, failed_load_opens}

abbrev with_basic : AuthStatus
with_basic = record { enabled = true; types = codes "basic" ∷ []; providers = none }

abbrev ann : AuthUser
ann = record { authenticated = true; email = none; name = some (codes "ann"); roles = none }

abbrev refused : Thrown
refused = error_object (codes "Error") (codes "Unauthorized")

abbrev may_view : PermissionsResponse
may_view = record { actions = codes "view_topics" ∷ []; clusters = codes "*" ∷ [] }

abbrev at_login : Session
at_login = record initial_session {
  provider = record { user = some signed_out; status = some with_basic; loading = false };
}

abbrev visit : List Event
visit =
    loaded (resolved (with_basic, signed_out))
    ∷ username_typed (codes "ann")
    ∷ password_typed (codes "pw")
    ∷ submitted
    ∷ login_settled (resolved ann)
    ∷ []

visit_opens : require_auth (run initial_session visit).provider ≡ pages
unfolding run act load_settles handle_submit login_settles require_auth has_username_password
    text_eq
visit_opens = refl

view_only :
    (has_action (some with_basic) false (some may_view) (codes "view_topics") ≡ true)
    × (has_action (some with_basic) false (some may_view) (codes "create_topics") ≡ false)
unfolding has_action text_eq
view_only = (refl, refl)

has_action_iff_example :
    (has_action (some with_basic) false (some may_view) (codes "view_topics") ≡ true) ↔ (
      (true ≡ false)
      ⊎ ((false ≡ false)
          × ((p : PermissionsResponse) × (some may_view ≡ some p)
              × ((has_text p.actions (codes "view_topics") ≡ true)
                  ⊎ (has_text p.actions (codes "*") ≡ true)))))
has_action_iff_example =
    has_action_iff (some with_basic) false (some may_view) (codes "view_topics")

abbrev later : List Event
later =
    username_typed (codes "ann")
    ∷ password_typed (codes "pw")
    ∷ submitted
    ∷ login_settled (resolved ann)
    ∷ logout_settled (resolved tt)
    ∷ []

run-pages_iff_example :
    let first = loaded (resolved (with_basic, signed_out)) in
    let p = (run initial_session (first ∷ later)).provider in
    (p.loading ≡ false)
    × (p.status ≡ some with_basic)
    × ((require_auth p ≡ pages)
        ↔ ((user_after (act initial_session first) later signed_out).authenticated ≡ true))
run-pages_iff_example = run-pages_iff initial_session with_basic signed_out later refl refl

at_login-IsConsistent : IsConsistent at_login
at_login-IsConsistent = record { one_login = refl; answered = λ h. ((λ e. cc), (λ e. cc)) }

failed_load_opens_example :
    let p = (act initial_session (loaded (rejected refused))).provider in
    (require_auth p ≡ pages) × (has_action p.status false none (codes "delete_topics") ≡ true)
failed_load_opens_example =
    failed_load_opens initial_session refused false none (codes "delete_topics") refl

at_login_screen : require_auth at_login.provider ≡ login_screen
unfolding require_auth
at_login_screen = refl
