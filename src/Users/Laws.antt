-- ===== src/Users/Laws.antt =====
-- What the roles' dialog of AdminUsersPage.tsx does to the set of roles.
use kafka_ui.Base.{
  ◌≡◌, refl, ◌-◌, ◌<◌, true, not, ◌&&◌, ◌||◌, none, some, List, [], ltb, if◌then◌else◌, Text,
  text_eq, truthy, trim, Bool-cases, arith, lt→ltb, inl, inr,
}
use kafka_ui.Api.Errors.{resolved}
use kafka_ui.Users.Sets.{has, has-add, has-remove, has-text_eq}
use kafka_ui.Users.{
  Dialog, toggle_role, add_custom_role, UsersPage, close_edit, orphan_settles, orphan_settled, act,
}

-- Toggling a role of the dialog changes whether that role is checked, and of no other.
pub toggle_role-has :
    (role r : Text) (checked : List Text)
    → has r (toggle_role role checked)
      ≡ (if text_eq role r then not (has r checked) else has r checked)
unfolding toggle_role
toggle_role-has role r checked = elim (Bool-cases (has role checked)) [
  | inl e ↦ rw e (ground (arith, has-remove role r checked, has-text_eq role r checked))
  | inr e ↦ rw e (ground (arith, has-add role r checked, has-text_eq role r checked))
]

-- "Add" and Enter check the trimmed text, if it is not empty, keep every role that is checked, check
-- no other, and clear the field.
pub add_custom_role-has :
    (d : Dialog) (r : Text)
    → (has r (add_custom_role d).checked
        ≡ (truthy (trim d.custom_input) && text_eq (trim d.custom_input) r || has r d.checked))
      × ((add_custom_role d).custom_input ≡ [])
unfolding add_custom_role
add_custom_role-has d r =
    let role = trim d.custom_input in
    (
      elim (Bool-cases (truthy role && not (has role d.checked))) [
        | inl e ↦ rw e (ground (arith, has-add role r d.checked))
        | inr e ↦ rw e (ground (arith, has-text_eq role r d.checked))
      ],
      refl,
    )

close_edit-none :
    (p : UsersPage) (d : Dialog)
    → p.edit ≡ some d
    → ((close_edit p).edit ≡ none) × ((close_edit p).calls ≡ p.calls)
unfolding close_edit
close_edit-none p d e = rw (e, close_edit) (refl, refl)

-- When the save of a dialog that was closed succeeds, the dialog that is open by then is closed: what
-- was changed in it is sent by no request.
orphan_saved_closes :
    (p : UsersPage) (d : Dialog)
    → p.edit ≡ some d
    → 0 < p.orphans
    → ((act p (orphan_settled (resolved tt))).edit ≡ none)
      × ((act p (orphan_settled (resolved tt))).calls ≡ p.calls)
unfolding act orphan_settles
orphan_saved_closes p d e n =
    let some_orphan : ltb 0 p.orphans ≡ true = lt→ltb 0 p.orphans n in
    rw (some_orphan, act) (close_edit-none (record p { orphans = p.orphans - 1 }) d e)
