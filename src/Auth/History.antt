-- ===== src/Auth/History.antt =====
-- What AuthProvider.tsx and RequireAuth of App.tsx show after any history of logins and logouts.
use kafka_ui.Base.{
  ◌≡◌, ◌↔◌, refl, sym, ◌∙◌, true, false, some, List, [], ◌∷◌, List-cases, inl, inr, if_elim, arith,
}
use kafka_ui.Api.Errors.{resolved, rejected}
use kafka_ui.Api.Auth.{AuthStatus, AuthUser, LoginRequest}
use kafka_ui.Auth.{
  Session, signed_out, load_settles, login_settles, handle_submit, require_auth, pages, form_shown,
  can_submit, Event, loaded, username_typed, password_typed, submitted, login_settled,
  logout_settled, act, run,
}

-- Whom an event of the history makes the user: a login under way that is granted, the user that it is
-- granted to; a logout that succeeds, nobody; all else, whoever it was.
abbrev pub user_by : List LoginRequest → Event → AuthUser → AuthUser
user_by logins (loaded o) v = v
user_by logins (username_typed t) v = v
user_by logins (password_typed t) v = v
user_by logins submitted v = v
user_by logins (login_settled (resolved u)) v = elim logins [ [] ↦ v | _ ∷ _ ↦ u ]
user_by logins (login_settled (rejected e)) v = v
user_by logins (logout_settled (resolved u)) v = signed_out
user_by logins (logout_settled (rejected e)) v = v

-- Whom a whole history makes the user who was `v` before it.
abbrev pub user_after : Session → List Event → AuthUser → AuthUser
user_after s [] v = v
user_after s (e ∷ es) v = user_after (act s e) es (user_by s.logins e v)

-- The first answers are there, with this status, and the user is this one.
abbrev IsKnown : AuthStatus → AuthUser → Session → Type 0
IsKnown status v s =
    (s.provider.loading ≡ false) × (s.provider.status ≡ some status) × (s.provider.user ≡ some v)

act-IsKnown :
    (status : AuthStatus) (v : AuthUser) (s : Session) (e : Event)
    → IsKnown status v s
    → IsKnown status (user_by s.logins e v) (act s e)
unfolding act handle_submit login_settles
act-IsKnown status v s (loaded o) h =
    if_elim (IsKnown status v) s.provider.loading (λ t. let bad : true ≡ false = sym t ∙ h.0 in cc)
      (λ _. h)
act-IsKnown status v s (username_typed t) h =
    if_elim (IsKnown status v) (form_shown s) (λ _. h) (λ _. h)
act-IsKnown status v s (password_typed t) h =
    if_elim (IsKnown status v) (form_shown s) (λ _. h) (λ _. h)
act-IsKnown status v s submitted h = if_elim (IsKnown status v) (can_submit s) (λ _. h) (λ _. h)
act-IsKnown status v s (login_settled (resolved u)) h = elim (List-cases s.logins) [
  | inl nobody ↦ rw (nobody, act) h
  | inr (r, rs, some_login) ↦ rw (some_login, act) (h.0, h.1, refl)
]
act-IsKnown status v s (login_settled (rejected e)) h = elim (List-cases s.logins) [
  | inl nobody ↦ rw (nobody, act) h
  | inr (r, rs, some_login) ↦ rw (some_login, act) h
]
act-IsKnown status v s (logout_settled (resolved u)) h = (h.0, h.1, refl)
act-IsKnown status v s (logout_settled (rejected e)) h = h

run-IsKnown :
    (status : AuthStatus) (v : AuthUser) (s : Session) (es : List Event)
    → IsKnown status v s
    → IsKnown status (user_after s es v) (run s es)
unfolding run
run-IsKnown status v s [] h = h
run-IsKnown status v s (e ∷ es) h =
    run-IsKnown status (user_by s.logins e v) (act s e) es (act-IsKnown status v s e h)

loaded-IsKnown :
    (s : Session) (status : AuthStatus) (v : AuthUser)
    → s.provider.loading ≡ true
    → IsKnown status v (act s (loaded (resolved (status, v))))
unfolding act load_settles
loaded-IsKnown s status v h = rw (h, act) (refl, refl, refl)

IsKnown-pages_iff :
    (status : AuthStatus) (v : AuthUser) (s : Session)
    → IsKnown status v s
    → status.enabled ≡ true
    → (require_auth s.provider ≡ pages) ↔ (v.authenticated ≡ true)
unfolding require_auth
IsKnown-pages_iff status v s (l, st, u) on = rw (l, st, u, on) (ground arith)

-- When the first answers, which end the loading, say that authentication is on, then after them and
-- any further events loading stays over, the status stays the one of the first answers, and the pages
-- are shown exactly if the user of the history is authenticated: the one of the first answers,
-- replaced by the one of each answer that grants a login under way, and by nobody at each logout that
-- succeeds.
pub run-pages_iff :
    (s : Session) (status : AuthStatus) (v : AuthUser) (es : List Event)
    → s.provider.loading ≡ true
    → status.enabled ≡ true
    → let first = loaded (resolved (status, v)) in
      let p = (run s (first ∷ es)).provider in
      (p.loading ≡ false)
      × (p.status ≡ some status)
      × ((require_auth p ≡ pages) ↔ ((user_after (act s first) es v).authenticated ≡ true))
unfolding run
run-pages_iff s status v es h on =
    let s1 = act s (loaded (resolved (status, v))) in
    let known = run-IsKnown status v s1 es (loaded-IsKnown s status v h) in
    (known.0, known.1, IsKnown-pages_iff status (user_after s1 es v) (run s1 es) known on)
