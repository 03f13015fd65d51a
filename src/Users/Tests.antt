-- ===== src/Users/Tests.antt =====
-- The page's theorems on concrete users.
use kafka_ui.Base.{
  ◌≡◌, refl, true, not, some, List, [], ◌∷◌, if◌then◌else◌, Text, codes, text_eq, trim, trim_start,
  trim_end, is_space,
}
use kafka_ui.Api.Auth.{AdminUser}
use kafka_ui.Api.Errors.{resolved}
use kafka_ui.Api.Routes.{admin_roles, admin_delete_user}
use kafka_ui.Users.Sets.{has, IsDistinct}
use kafka_ui.Users.{
  UsersPage, add_clicked, role_removed, Dialog, mount_dialog, toggle_role, add_custom_role,
  initial_page, Event, list_fetched, edit_clicked, delete_clicked, role_toggled, input_typed,
  enter_pressed, save_clicked, edit_closed, delete_confirmed, delete_closed, act, run, close_edit,
  fetched, handle_save, confirm_delete,
}
use kafka_ui.Users.Laws.{toggle_role-has}
use kafka_ui.Users.Saved.{roles_of, meant_after, run-saves_meant}

abbrev user : Text → AdminUser
user id = record {
  id = id;
  provider_name = codes "basic";
  external_id = id;
  email = [];
  name = id;
  avatar_url = [];
  roles = codes "viewer" ∷ codes "viewer" ∷ codes "ops" ∷ [];
  last_login = [];
}

abbrev session : List Event
session =
    list_fetched (resolved (user (codes "ann") ∷ user (codes "bob") ∷ []))
    ∷ edit_clicked 0
    ∷ role_toggled 0
    ∷ input_typed (codes " dba ")
    ∷ enter_pressed
    ∷ save_clicked
    ∷ save_clicked
    ∷ edit_closed
    ∷ edit_clicked 1
    ∷ role_toggled 2
    ∷ []

session_sends :
    (run initial_page session).calls
    ≡ admin_roles
        (codes "ann")
        (record { roles = codes "viewer" ∷ codes "ops" ∷ codes "admin" ∷ codes "dba" ∷ [] })
      ∷ []
unfolding run act close_edit fetched handle_save toggle_role add_custom_role mount_dialog
    confirm_delete text_eq trim trim_start trim_end is_space
session_sends = refl

abbrev bob : Dialog
bob = record (mount_dialog (user (codes "bob"))) { checked = codes "ops" ∷ [] }

session_edits : (run initial_page session).edit ≡ some bob
unfolding run act close_edit fetched handle_save toggle_role add_custom_role mount_dialog
    confirm_delete text_eq trim trim_start trim_end is_space
session_edits = refl

delete_ann :
    (run initial_page (
      list_fetched (resolved (user (codes "ann") ∷ []))
      ∷ delete_clicked 0
      ∷ edit_clicked 0
      ∷ delete_confirmed
      ∷ delete_confirmed
      ∷ delete_closed
      ∷ [])).calls
    ≡ admin_delete_user (codes "ann") ∷ []
unfolding run act close_edit fetched handle_save toggle_role add_custom_role mount_dialog
    confirm_delete text_eq trim trim_start trim_end is_space
delete_ann = refl

abbrev edits : List Event
edits =
    role_toggled 0
    ∷ role_toggled 2
    ∷ input_typed (codes " dba ")
    ∷ enter_pressed
    ∷ input_typed (codes "ops")
    ∷ add_clicked
    ∷ role_removed 0
    ∷ []

abbrev opened : UsersPage
opened = record initial_page { list_shown = true; edit = some (mount_dialog (user (codes "ann"))) }

run-saves_meant_example :
    (roles : List Text) × ((act (run opened edits) save_clicked).calls
      ≡ admin_roles (codes "ann") (record { roles = roles }) ∷ [])
    × ((x : Text)
        → has x roles ≡ (meant_after opened edits (roles_of (user (codes "ann")))).is_checked x)
    × IsDistinct roles
run-saves_meant_example =
    run-saves_meant (user (codes "ann")) opened edits refl refl
      (tt, (tt, (tt, (tt, (tt, (tt, (tt, tt)))))))

-- In `edits`: "admin" and "dba" are added, "viewer" and "ops" taken off.
edits_send :
    (act (run opened edits) save_clicked).calls
    ≡ admin_roles (codes "ann") (record { roles = codes "admin" ∷ codes "dba" ∷ [] }) ∷ []
unfolding run act handle_save toggle_role add_custom_role mount_dialog text_eq trim trim_start
    trim_end is_space
edits_send = refl

toggle_role-has_example : has (codes "ops") (toggle_role (codes "ops") bob.checked) ≡ (
    if text_eq (codes "ops") (codes "ops")
    then not (has (codes "ops") bob.checked)
    else has (codes "ops") bob.checked)
toggle_role-has_example = toggle_role-has (codes "ops") (codes "ops") bob.checked

one_orphan : (run initial_page session).orphans ≡ 1
unfolding run act close_edit fetched handle_save toggle_role add_custom_role mount_dialog
    confirm_delete text_eq trim trim_start trim_end is_space
one_orphan = refl
