-- ===== src/Auth/Laws.antt =====
-- What the login state lets the user see and do.
use kafka_ui.Base.{
  Bool-cases, List-cases, ◌≡◌, ◌≢◌, refl, ◌↔◌, ◌⊎◌, inl, inr, Bool, true, false, Option, none, some,
  List, [], ◌∷◌, length, if_elim, if◌then◌else◌, arith, Text, codes, ltb,
}
use kafka_ui.Api.Errors.{Thrown, Settled, resolved, rejected}
use kafka_ui.Api.Auth.{AuthStatus, AuthUser, PermissionsResponse}
use kafka_ui.Auth.{
  kept_form, Provider, Session, LoginForm, load_settles, login_settles, handle_submit, is_enabled,
  is_authenticated, set_user, login_screen, pages, initial_form, require_auth, has_text, has_action,
  bad_login, form_shown, can_submit, Event, loaded, username_typed, password_typed, submitted,
  login_settled, logout_settled, act,
}

-- The pages are shown exactly when the first answers are there, and either authentication is off or
-- the user is authenticated.
require_auth-pages_iff :
    (p : Provider)
    → (require_auth p ≡ pages)
      ↔ ((p.loading ≡ false) × ((is_enabled p.status ≡ false) ⊎ (is_authenticated p.user ≡ true)))
unfolding require_auth
require_auth-pages_iff p = ground arith

filled : (texts : List Text) (t : Text) → has_text texts t ≡ true → ltb 0 (length texts) ≡ true
filled [] t h = cc
filled (u ∷ texts) t h = ground arith

-- With authentication on, an action is allowed exactly if the permissions are there and hold it or
-- "*"; with authentication off, every action is.
pub has_action_iff :
    (status : Option AuthStatus) (is_loading : Bool) (permissions : Option PermissionsResponse)
    (action : Text)
    → (has_action status is_loading permissions action ≡ true) ↔ (
        (is_enabled status ≡ false)
        ⊎ ((is_loading ≡ false)
            × ((p : PermissionsResponse) × (permissions ≡ some p)
                × ((has_text p.actions action ≡ true) ⊎ (has_text p.actions (codes "*") ≡ true)))))
unfolding has_action
has_action_iff status is_loading none action = ground arith
has_action_iff status is_loading (some p) action =
    (allowed, λ h. ground (arith, filled p.actions action, filled p.actions (codes "*")))
  where
    allowed :
        has_action status is_loading (some p) action ≡ true
        → (is_enabled status ≡ false)
          ⊎ ((is_loading ≡ false)
              × ((q : PermissionsResponse) × (some p ≡ some q)
                  × ((has_text q.actions action ≡ true) ⊎ (has_text q.actions (codes "*") ≡ true))))
    allowed h = elim (Bool-cases (is_enabled status)) [
      | inr off ↦ inl off
      | inl on ↦ inr (ground arith, (p, refl, ground arith))
    ]

-- The flags and the requests of a session agree: a login is under way exactly while the form says
-- so, and once loading is over the server's answers, or their substitutes, are there.
pub record IsConsistent (s : Session) : Type 0 where
  pub one_login : length s.logins ≡ (if s.form.loading then 1 else 0)
  pub answered : s.provider.loading ≡ false → (s.provider.status ≢ none) × (s.provider.user ≢ none)

load_answered :
    (p : Provider) (o : Settled (AuthStatus × AuthUser))
    → ((load_settles p o).status ≢ none) × ((load_settles p o).user ≢ none)
unfolding load_settles
load_answered p (resolved (status, user)) = ((λ e. cc), (λ e. cc))
load_answered p (rejected e) = ((λ e. cc), (λ e. cc))

kept_form_idle :
    (p : Provider) (f : LoginForm) → f.loading ≡ false → (kept_form p f).loading ≡ false
kept_form_idle p f h = ground arith

submit_lem : (s : Session) → can_submit s ≡ true → IsConsistent s → IsConsistent (handle_submit s)
unfolding handle_submit
submit_lem s t v = record { one_login = ground arith; answered = v.answered }

login_lem : (s : Session) (o : Settled AuthUser) → IsConsistent s → IsConsistent (login_settles s o)
unfolding login_settles
login_lem s (resolved u) v = record {
  one_login =
      let idle = kept_form_idle (set_user u s.provider) (record s.form { loading = false }) refl in
      rw idle refl;
  answered = λ h. ((v.answered h).0, λ e. cc);
}
login_lem s (rejected e) v = record { one_login = refl; answered = v.answered }

-- A login is under way exactly while the form says so, never two at once.
act-IsConsistent : (s : Session) (e : Event) → IsConsistent s → IsConsistent (act s e)
unfolding act
act-IsConsistent s (loaded o) v =
    if_elim IsConsistent s.provider.loading
      (λ _. record { one_login = v.one_login; answered = λ _. load_answered s.provider o }) (λ _. v)
act-IsConsistent s (username_typed t) v =
    if_elim IsConsistent (form_shown s)
      (λ _. record { one_login = v.one_login; answered = v.answered }) (λ _. v)
act-IsConsistent s (password_typed t) v =
    if_elim IsConsistent (form_shown s)
      (λ _. record { one_login = v.one_login; answered = v.answered }) (λ _. v)
act-IsConsistent s submitted v =
    if_elim IsConsistent (can_submit s) (λ t. submit_lem s t v) (λ _. v)
act-IsConsistent s (login_settled o) v = elim (List-cases s.logins) [
  | inl nobody ↦ rw (nobody, act) v
  | inr (r, rs, some_login) ↦ rw (some_login, act) (login_lem s o v)
]
act-IsConsistent s (logout_settled (resolved u)) v = record {
  one_login = v.one_login;
  answered = λ h. ((v.answered h).0, λ e. cc);
}
act-IsConsistent s (logout_settled (rejected e)) v = v

-- A failed first request is taken for "authentication is off": the pages are shown with no login,
-- and every action is allowed.
pub failed_load_opens :
    (s : Session) (e : Thrown) (is_loading : Bool) (permissions : Option PermissionsResponse)
    (action : Text)
    → s.provider.loading ≡ true
    → let p = (act s (loaded (rejected e))).provider in
      (require_auth p ≡ pages) × (has_action p.status is_loading permissions action ≡ true)
unfolding act load_settles require_auth has_action
failed_load_opens s e is_loading permissions action h = rw (h, act) (refl, refl)

kept_form_pages :
    (p : Provider) (f : LoginForm) → require_auth p ≡ pages → kept_form p f ≡ initial_form
kept_form_pages p f h = rw (h, kept_form) refl

-- A login that the server grants takes the user to the pages and forgets what was typed; one that
-- fails keeps the login page and what was typed, and shows the message.
login_settles_lem :
    (s : Session) (u : AuthUser) (e : Thrown)
    → require_auth s.provider ≡ login_screen
    → ((u.authenticated ≡ true)
        → (require_auth (login_settles s (resolved u)).provider ≡ pages)
          × ((login_settles s (resolved u)).form ≡ initial_form))
      × ((require_auth (login_settles s (rejected e)).provider ≡ login_screen)
          × ((login_settles s (rejected e)).form
              ≡ record s.form { error = bad_login; loading = false }))
unfolding login_settles require_auth
login_settles_lem s u e h = (
  λ yes_he_is.
      let in_pages : require_auth (set_user u s.provider) ≡ pages = ground arith in
      (
        in_pages,
        kept_form_pages (set_user u s.provider) (record s.form { loading = false }) in_pages,
      ),
  (h, refl),
)
