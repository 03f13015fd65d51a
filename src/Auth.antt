-- ===== src/Auth.antt =====
-- Who is logged in and what the pages may show: AuthProvider.tsx, RequireAuth of App.tsx,
-- LoginPage.tsx and usePermissions.ts of frontend/src.
pub mod History
pub mod Laws
pub mod Tests
use kafka_ui.Base.{
  Bool, true, false, not, ◌&&◌, ◌||◌, Option, none, some, List, [], ◌∷◌, ◌++◌, any, length, ltb,
  if◌then◌else◌, Text, codes, truthy, text_eq, take,
}
use kafka_ui.Api.Errors.{Settled, resolved, rejected}
use kafka_ui.Api.Auth.{OidcProviderInfo, AuthStatus, AuthUser, LoginRequest, PermissionsResponse}

-- The state of AuthProvider.
pub record Provider : Type 0 where
  pub user : Option AuthUser
  pub status : Option AuthStatus
  pub loading : Bool

abbrev pub initial_provider : Provider
initial_provider = record { user = none; status = none; loading = true }

abbrev pub signed_out : AuthUser
signed_out = record { authenticated = false; email = none; name = none; roles = none }

abbrev pub auth_off : AuthStatus
auth_off = record { enabled = false; types = []; providers = none }

-- The state of LoginPage.
pub record LoginForm : Type 0 where
  pub username : Text
  pub password : Text
  pub error : Text
  pub loading : Bool

abbrev pub initial_form : LoginForm
initial_form = record { username = []; password = []; error = []; loading = false }

-- The session in the browser: the provider, the login page's form, and the login requests under way.
pub record Session : Type 0 where
  pub provider : Provider
  pub form : LoginForm
  pub logins : List LoginRequest

abbrev pub initial_session : Session
initial_session = record { provider = initial_provider; form = initial_form; logins = [] }

-- `Promise.all([api.auth.status(), api.auth.me()])` when it settles, with `finally`.
unfoldable pub load_settles : Provider → Settled (AuthStatus × AuthUser) → Provider
load_settles p (resolved (status, user)) = record p {
  status = some status;
  user = some user;
  loading = false;
}
load_settles p (rejected e) = record p {
  status = some auth_off;
  user = some signed_out;
  loading = false;
}

-- The user's part of `login` and `logout`, past their requests.
abbrev pub set_user : AuthUser → Provider → Provider
set_user u p = record p { user = some u }

abbrev pub is_enabled : Option AuthStatus → Bool
is_enabled none = false
is_enabled (some s) = s.enabled

abbrev pub is_authenticated : Option AuthUser → Bool
is_authenticated none = false
is_authenticated (some u) = u.authenticated

-- What RequireAuth renders.
pub data Screen : Type 0 where
  loading_screen login_screen pages : Screen

unfoldable pub require_auth : Provider → Screen
require_auth p =
    if p.loading
    then loading_screen
    else if not (is_enabled p.status)
    then pages
    else if not (is_authenticated p.user)
    then login_screen
    else pages

-- `showAuth` of Layout.tsx: whether the name and the logout button are shown.
unfoldable pub show_auth : Provider → Bool
show_auth p = is_enabled p.status && is_authenticated p.user

abbrev pub has_text : List Text → Text → Bool
has_text texts t = any (text_eq t) texts

-- useHasAction; `permissions` and `is_loading` are the query's data and flag.
unfoldable pub has_action : Option AuthStatus → Bool → Option PermissionsResponse → Text → Bool
has_action status is_loading permissions action =
    if not (is_enabled status) then true else if is_loading then false else elim permissions [
      | none ↦ false
      | some p ↦
          if not (ltb 0 (length p.actions))
          then false
          else has_text p.actions action || has_text p.actions (codes "*")
    ]

-- `enabled` of the permissions query.
unfoldable pub permissions_asked : Provider → Bool
permissions_asked p = is_authenticated p.user

-- LoginPage
unfoldable pub has_username_password : Option AuthStatus → Bool
has_username_password none = false
has_username_password (some s) = has_text s.types (codes "basic") || has_text s.types (codes "ldap")

abbrev pub providers_of : Option AuthStatus → List OidcProviderInfo
providers_of none = []
providers_of (some s) = elim s.providers [ none ↦ [] | some ps ↦ ps ]

unfoldable pub has_oidc : Option AuthStatus → Bool
has_oidc status = ltb 0 (length (providers_of status))

-- `toUpperCase` is a parameter: its table is Unicode's.
unfoldable pub provider_label : (Text → Text) → OidcProviderInfo → Text
provider_label to_upper_case p =
    let own = to_upper_case (take 1 p.name) ++ elim p.name [ [] ↦ [] | c ∷ rest ↦ rest ] in
    codes "Continue with "
    ++ elim p.display_name [ none ↦ own | some name ↦ if truthy name then name else own ]

abbrev pub bad_login : Text
bad_login = codes "Invalid username or password"

unfoldable pub handle_submit : Session → Session
handle_submit s = record s {
  form = record s.form { error = []; loading = true };
  logins = record { username = s.form.username; password = s.form.password } ∷ s.logins;
}

-- A login page that is no longer rendered loses its state; it starts afresh when it is shown again.
abbrev pub kept_form : Provider → LoginForm → LoginForm
kept_form p f = elim (require_auth p) [ login_screen ↦ f | _ ↦ initial_form ]

-- `handleSubmit` when the login settles: `setUser` runs before `finally`.
unfoldable pub login_settles : Session → Settled AuthUser → Session
unfolding require_auth
login_settles s (resolved u) =
    let p = set_user u s.provider in
    record s { provider = p; form = kept_form p (record s.form { loading = false }); logins = [] }
login_settles s (rejected e) = record s {
  form = record s.form { error = bad_login; loading = false };
  logins = [];
}

pub data Event : Type 0 where
  loaded : Settled (AuthStatus × AuthUser) → Event
  username_typed password_typed : Text → Event
  submitted : Event
  login_settled : Settled AuthUser → Event
  logout_settled : Settled (Unit {0}) → Event

abbrev pub form_shown : Session → Bool
form_shown s = elim (require_auth s.provider) [
  | login_screen ↦ has_username_password s.provider.status
  | _ ↦ false
]

-- The form's button is not disabled, and the browser sees both required fields filled in.
abbrev pub can_submit : Session → Bool
can_submit s =
    form_shown s && not s.form.loading && truthy s.form.username && truthy s.form.password

unfoldable pub act : Session → Event → Session
unfolding load_settles handle_submit login_settles
act s (loaded o) =
    if s.provider.loading then record s { provider = load_settles s.provider o } else s
act s (username_typed v) =
    if form_shown s then record s { form = record s.form { username = v } } else s
act s (password_typed v) =
    if form_shown s then record s { form = record s.form { password = v } } else s
act s submitted = if can_submit s then handle_submit s else s
act s (login_settled o) = elim s.logins [ [] ↦ s | r ∷ rs ↦ login_settles s o ]
act s (logout_settled (resolved u)) = record s { provider = set_user signed_out s.provider }
act s (logout_settled (rejected e)) = s

unfoldable pub run : Session → List Event → Session
run s [] = s
run s (e ∷ es) = run (act s e) es
