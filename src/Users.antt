-- ===== src/Users.antt =====
-- frontend/src/pages/AdminUsersPage.tsx, for a user who may manage users: the dialog for a user's
-- roles, which is mounted anew for every user, and the deletion of a user. The save of a dialog that
-- was unmounted calls `onClose` all the same when it succeeds.
pub mod Sets
pub mod Laws
pub mod Saved
pub mod Tests
use kafka_ui.Base.{
  ℕ, ◌+◌, ◌-◌, Bool, true, false, not, ◌&&◌, ◌||◌, Option, none, some, List, [], ◌∷◌, ◌++◌,
  get_elem?, keep, ltb, if◌then◌else◌, Text, codes, text_eq, truthy, trim,
}
use kafka_ui.Api.Auth.{AdminUser}
use kafka_ui.Api.Errors.{Settled, resolved, rejected}
use kafka_ui.Api.Routes.{Call, admin_roles, admin_delete_user}
use kafka_ui.Users.Sets.{has, add, remove, set_of}

abbrev pub common_roles : List Text
common_roles = codes "admin" ∷ codes "operator" ∷ codes "viewer" ∷ []

pub record Dialog : Type 0 where
  pub user : AdminUser
  pub checked : List Text
  pub custom_input : Text
  pub saving : Bool

unfoldable pub mount_dialog : AdminUser → Dialog
mount_dialog user = record {
  user = user;
  checked = set_of [] user.roles;
  custom_input = [];
  saving = false;
}

unfoldable pub toggle_role : Text → List Text → List Text
toggle_role role checked = if has role checked then remove role checked else add role checked

unfoldable pub add_custom_role : Dialog → Dialog
add_custom_role d =
    let role = trim d.custom_input in
    record d {
      checked = if truthy role && not (has role d.checked) then add role d.checked else d.checked;
      custom_input = [];
    }

abbrev pub custom_roles : List Text → List Text
custom_roles checked = keep (λ r. not (has r common_roles)) checked

-- `list_shown` is false while the list loads and after its request has failed. `orphans` counts the
-- saves under way of dialogs that were unmounted, `calls` are the requests that the mutations sent, the
-- last one first (the GETs of the list are not recorded), `refreshes` counts the invalidations.
pub record UsersPage : Type 0 where
  pub users : List AdminUser
  pub list_shown : Bool
  pub edit : Option Dialog
  pub delete_target : Option AdminUser
  pub deleting : Bool
  pub calls : List Call
  pub orphans : ℕ
  pub refreshes : ℕ

abbrev pub initial_page : UsersPage
initial_page = record {
  users = [];
  list_shown = false;
  edit = none;
  delete_target = none;
  deleting = false;
  calls = [];
  orphans = 0;
  refreshes = 0;
}

-- What a dialog that is unmounted leaves behind.
abbrev pub orphan : Dialog → ℕ → ℕ
orphan d n = if d.saving then n + 1 else n

-- `onClose`
unfoldable pub close_edit : UsersPage → UsersPage
close_edit p = elim p.edit [
  | none ↦ p
  | some d ↦ record p { edit = none; orphans = orphan d p.orphans }
]

-- The list's request. When it fails, the page shows the error in place of the dialogs.
unfoldable pub fetched : Settled (List AdminUser) → UsersPage → UsersPage
fetched (resolved us) p = record p { users = us; list_shown = true }
fetched (rejected e) p = elim p.edit [
  | none ↦ record p { list_shown = false }
  | some d ↦ record p {
    list_shown = false;
    edit = some (mount_dialog d.user);
    orphans = orphan d p.orphans;
  }
]

unfoldable pub handle_save : Dialog → UsersPage → UsersPage
handle_save d p = if d.saving then p else record p {
  edit = some (record d { saving = true });
  calls = admin_roles d.user.id (record { roles = d.checked }) ∷ p.calls;
}

-- A save of the open dialog is settled.
unfoldable pub save_settles : Settled (Unit {0}) → Dialog → UsersPage → UsersPage
unfolding close_edit
save_settles (resolved u) d p =
    let p' = close_edit (record p { edit = some (record d { saving = false }) }) in
    record p' { refreshes = p'.refreshes + 1 }
save_settles (rejected e) d p = record p { edit = some (record d { saving = false }) }

-- A save of a dialog that was unmounted is settled.
unfoldable pub orphan_settles : Settled (Unit {0}) → UsersPage → UsersPage
unfolding close_edit
orphan_settles (resolved u) p =
    let p' = close_edit (record p { orphans = p.orphans - 1 }) in
    record p' { refreshes = p'.refreshes + 1 }
orphan_settles (rejected e) p = record p { orphans = p.orphans - 1 }

unfoldable pub confirm_delete : AdminUser → UsersPage → UsersPage
confirm_delete u p =
    if p.deleting then p else record p { deleting = true; calls = admin_delete_user u.id ∷ p.calls }

unfoldable pub delete_settles : Settled (Unit {0}) → UsersPage → UsersPage
delete_settles (resolved u) p = record p {
  deleting = false;
  delete_target = none;
  refreshes = p.refreshes + 1;
}
delete_settles (rejected e) p = record p { deleting = false }

pub data Event : Type 0 where
  list_fetched : Settled (List AdminUser) → Event
  edit_clicked delete_clicked : ℕ → Event
  -- In the dialog for the roles.
  role_toggled : ℕ → Event
  input_typed : Text → Event
  enter_pressed add_clicked : Event
  role_removed : ℕ → Event
  save_clicked edit_closed : Event
  -- In the dialog for the deletion.
  delete_confirmed delete_closed : Event
  save_settled orphan_settled delete_settled : Settled (Unit {0}) → Event

-- What happens in the dialog for the roles.
abbrev pub in_edit : UsersPage → (Dialog → UsersPage) → UsersPage
in_edit p f = elim p.edit [ none ↦ p | some d ↦ if p.list_shown then f d else p ]

abbrev pub set_edit : UsersPage → Dialog → UsersPage
set_edit p d = record p { edit = some d }

abbrev pub in_delete : UsersPage → (AdminUser → UsersPage) → UsersPage
in_delete p f = elim p.delete_target [ none ↦ p | some u ↦ if p.list_shown then f u else p ]

-- A row's buttons are behind a dialog that is open.
abbrev pub on_row : UsersPage → ℕ → (AdminUser → UsersPage) → UsersPage
on_row p i f = elim p.edit [
  | some d ↦ p
  | none ↦ elim p.delete_target [
    | some u ↦ p
    | none ↦ if p.list_shown then elim (get_elem? p.users i) [ none ↦ p | some u ↦ f u ] else p
  ]
]

unfoldable pub act : UsersPage → Event → UsersPage
act p (list_fetched r) = fetched r p
act p (edit_clicked i) = on_row p i (λ u. record p { edit = some (mount_dialog u) })
act p (delete_clicked i) = on_row p i (λ u. record p { delete_target = some u })
act p (role_toggled i) = in_edit p (λ d. elim (get_elem? common_roles i) [
  | none ↦ p
  | some r ↦ set_edit p (record d { checked = toggle_role r d.checked })
])
act p (input_typed v) = in_edit p (λ d. set_edit p (record d { custom_input = v }))
act p enter_pressed = in_edit p (λ d. set_edit p (add_custom_role d))
act p add_clicked =
    in_edit p (λ d. if truthy (trim d.custom_input) then set_edit p (add_custom_role d) else p)
act p (role_removed i) = in_edit p (λ d. elim (get_elem? (custom_roles d.checked) i) [
  | none ↦ p
  | some r ↦ set_edit p (record d { checked = remove r d.checked })
])
act p save_clicked = in_edit p (λ d. handle_save d p)
act p edit_closed = in_edit p (λ d. close_edit p)
act p delete_confirmed = in_delete p (λ u. confirm_delete u p)
act p delete_closed = in_delete p (λ u. record p { delete_target = none })
act p (save_settled r) = elim p.edit [
  | none ↦ p
  | some d ↦ if d.saving then save_settles r d p else p
]
act p (orphan_settled r) = if ltb 0 p.orphans then orphan_settles r p else p
act p (delete_settled r) = if p.deleting then delete_settles r p else p

unfoldable pub run : UsersPage → List Event → UsersPage
run p [] = p
run p (e ∷ es) = run (act p e) es
