-- ===== src/Users/Saved.antt =====
-- What "Save" of the roles' dialog of AdminUsersPage.tsx sends after the dialog was edited.
use kafka_ui.Base.{
  ℕ, ◌≡◌, refl, ap, ◌∙◌, Bool, true, false, not, ◌&&◌, ◌||◌, Option, none, some, List, [], ◌∷◌, All,
  get_elem?, if◌then◌else◌, Text, text_eq, truthy, trim, if_elim, Option-cases, Bool-cases, inl,
  inr,
}
use kafka_ui.Api.Auth.{AdminUser}
use kafka_ui.Api.Routes.{Call, admin_roles}
use kafka_ui.Users.Sets.{
  has, remove, IsDistinct, add-IsDistinct, remove-IsDistinct, set_of-IsDistinct, has-remove,
  has-set_of,
}
use kafka_ui.Users.Laws.{toggle_role-has, add_custom_role-has}
use kafka_ui.Users.{
  Dialog, mount_dialog, toggle_role, add_custom_role, common_roles, custom_roles, UsersPage,
  handle_save, Event, role_toggled, input_typed, enter_pressed, add_clicked, role_removed,
  save_clicked, act, run,
}

-- An edit in the dialog.
abbrev pub IsEdit : Event → Type 0
IsEdit (role_toggled i) = Unit
IsEdit (input_typed v) = Unit
IsEdit enter_pressed = Unit
IsEdit add_clicked = Unit
IsEdit (role_removed i) = Unit
IsEdit _ = ⊥

-- What a user means by edits: the text in the field, and of every role whether it is to be checked.
pub record Meaning : Type 0 where
  pub typed : Text
  pub is_checked : Text → Bool

-- What is meant when the dialog opens: the roles that the user has.
abbrev pub roles_of : AdminUser → Meaning
roles_of u = record { typed = []; is_checked = λ x. has x u.roles }

-- The role in a row of the dialog's own roles.
abbrev pub role_at : UsersPage → ℕ → Option Text
role_at p i = elim p.edit [ none ↦ none | some d ↦ get_elem? (custom_roles d.checked) i ]

abbrev pub with_typed : Meaning → Meaning
with_typed m = record {
  typed = [];
  is_checked = λ x. (truthy (trim m.typed) && text_eq (trim m.typed) x) || m.is_checked x;
}

-- What is meant after an edit on a page: a box changes its own role and no other, the text is added
-- without the spaces around it, if any is left, and a row's "x" takes off the role of the row.
abbrev pub meant : UsersPage → Event → Meaning → Meaning
meant p (role_toggled i) m = elim (get_elem? common_roles i) [
  | none ↦ m
  | some r ↦ record m {
    is_checked = λ x. if text_eq r x then not (m.is_checked x) else m.is_checked x;
  }
]
meant p (input_typed v) m = record m { typed = v }
meant p enter_pressed m = with_typed m
meant p add_clicked m = if truthy (trim m.typed) then with_typed m else m
meant p (role_removed i) m = elim (role_at p i) [
  | none ↦ m
  | some r ↦ record m { is_checked = λ x. not (text_eq r x) && m.is_checked x }
]
meant p _ m = m

abbrev pub meant_after : UsersPage → List Event → Meaning → Meaning
meant_after p [] m = m
meant_after p (e ∷ es) m = meant_after (act p e) es (meant p e m)

-- The dialog is open for the user, unsaved, and holds what is meant.
abbrev HasDialog : AdminUser → Meaning → Dialog → Type 0
HasDialog u m d =
    (d.user ≡ u)
    × (d.saving ≡ false)
    × (d.custom_input ≡ m.typed)
    × ((x : Text) → has x d.checked ≡ m.is_checked x)
    × IsDistinct d.checked

abbrev IsOpen : AdminUser → List Call → Meaning → UsersPage → Type 0
IsOpen u calls m p =
    (d : Dialog) × (p.edit ≡ some d) × (p.list_shown ≡ true) × (p.calls ≡ calls) × HasDialog u m d

toggle_role-IsDistinct : (r : Text) (xs : List Text) → IsDistinct xs → IsDistinct (toggle_role r xs)
unfolding toggle_role
toggle_role-IsDistinct r xs h =
    if_elim IsDistinct (has r xs) (λ _. remove-IsDistinct r xs h) (λ _. add-IsDistinct r xs h)

add_custom_role-IsDistinct :
    (d : Dialog) → IsDistinct d.checked → IsDistinct (add_custom_role d).checked
unfolding add_custom_role
add_custom_role-IsDistinct d h =
    if_elim IsDistinct (truthy (trim d.custom_input) && not (has (trim d.custom_input) d.checked))
      (λ _. add-IsDistinct (trim d.custom_input) d.checked h) (λ _. h)

add_custom_role-HasDialog :
    (u : AdminUser) (m : Meaning) (d : Dialog)
    → HasDialog u m d
    → HasDialog u (with_typed m) (add_custom_role d)
unfolding add_custom_role
add_custom_role-HasDialog u m d (eu, es, et, ec, h) = (
  eu,
  es,
  refl,
  λ x. (add_custom_role-has d x).0 ∙ rw (et, ec x) refl,
  add_custom_role-IsDistinct d h,
)

if-IsOpen :
    (u : AdminUser) (calls : List Call) (m m' : Meaning) (p p' : UsersPage) (b c : Bool)
    → c ≡ b
    → IsOpen u calls m p
    → IsOpen u calls m' p'
    → IsOpen u calls (if b then m else m') (if c then p else p')
if-IsOpen u calls m m' p p' b c e h h' = elim (Bool-cases b) [
  | inl t ↦ rw (e, t) h
  | inr t ↦ rw (e, t) h'
]

act-IsOpen :
    (u : AdminUser) (calls : List Call) (m : Meaning) (p : UsersPage) (e : Event)
    → IsEdit e
    → IsOpen u calls m p
    → IsOpen u calls (meant p e m) (act p e)
unfolding act
act-IsOpen u calls m p (role_toggled i) t (d, ed, shown, ec, has_it) =
    elim (Option-cases (get_elem? common_roles i)) [
      | inl nobody ↦ rw (ed, shown, nobody, act) (d, ed, shown, ec, has_it)
      | inr (r, at) ↦
          rw (ed, shown, at, act)
            (
              record d { checked = toggle_role r d.checked },
              refl,
              shown,
              ec,
              (
                has_it.0,
                has_it.1,
                has_it.2,
                λ x. toggle_role-has r x d.checked ∙ rw (has_it.3 x) refl,
                toggle_role-IsDistinct r d.checked has_it.4,
              ),
            )
    ]
act-IsOpen u calls m p (input_typed v) t (d, ed, shown, ec, has_it) =
    rw (ed, shown, act)
      (
        record d { custom_input = v },
        refl,
        refl,
        ec,
        (has_it.0, has_it.1, refl, has_it.3, has_it.4),
      )
act-IsOpen u calls m p enter_pressed t (d, ed, shown, ec, has_it) =
    rw (ed, shown, act) (add_custom_role d, refl, refl, ec, add_custom_role-HasDialog u m d has_it)
act-IsOpen u calls m p add_clicked t (d, ed, shown, ec, has_it) =
    let same = ap (λ t. truthy (trim t)) has_it.2 in
    rw (ed, shown, act)
      (if-IsOpen u calls _ _ _ _ (truthy (trim m.typed)) (truthy (trim d.custom_input)) same
        (add_custom_role d, refl, refl, ec, add_custom_role-HasDialog u m d has_it)
        (d, refl, refl, ec, has_it))
act-IsOpen u calls m p (role_removed i) t (d, ed, shown, ec, has_it) =
    elim (Option-cases (get_elem? (custom_roles d.checked) i)) [
      | inl nobody ↦ rw (ed, shown, meant, role_at, nobody, act) (d, ed, shown, ec, has_it)
      | inr (r, at) ↦
          rw (ed, shown, meant, role_at, at, act)
            (
              record d { checked = remove r d.checked },
              refl,
              shown,
              ec,
              (
                has_it.0,
                has_it.1,
                has_it.2,
                λ x. has-remove r x d.checked ∙ rw (has_it.3 x) refl,
                remove-IsDistinct r d.checked has_it.4,
              ),
            )
    ]
act-IsOpen u calls m p _ t h = absurd t

run-IsOpen :
    (u : AdminUser) (calls : List Call) (m : Meaning) (p : UsersPage) (es : List Event)
    → All IsEdit es
    → IsOpen u calls m p
    → IsOpen u calls (meant_after p es m) (run p es)
unfolding run
run-IsOpen u calls m p [] t h = h
run-IsOpen u calls m p (e ∷ es) t h =
    run-IsOpen u calls (meant p e m) (act p e) es t.1 (act-IsOpen u calls m p e t.0 h)

mount_dialog-HasDialog : (u : AdminUser) → HasDialog u (roles_of u) (mount_dialog u)
unfolding mount_dialog
mount_dialog-HasDialog u =
    (refl, refl, refl, λ x. has-set_of x [] u.roles, set_of-IsDistinct [] u.roles tt)

save_lem :
    (u : AdminUser) (calls : List Call) (m : Meaning) (p : UsersPage)
    → IsOpen u calls m p
    → (roles : List Text) × ((act p save_clicked).calls
        ≡ admin_roles u.id (record { roles = roles }) ∷ calls)
      × ((x : Text) → has x roles ≡ m.is_checked x)
      × IsDistinct roles
unfolding act handle_save
save_lem u calls m p (d, ed, shown, ec, has_it) =
    (d.checked, rw (ed, shown, has_it.1, has_it.0, ec, act) refl, has_it.3, has_it.4)

-- When the dialog of a user was opened and then edited, by boxes, text, Enter, "Add" and "x" in any
-- order, "Save" sends the one mutation since then: it sets the roles of that user, to exactly those
-- that the edits mean, none of them twice. A box means a change of its own role only, Enter or "Add"
-- that the text is added without the blanks around it, if any is left, and an "x" that its row's role
-- is taken off.
pub run-saves_meant :
    (u : AdminUser) (p : UsersPage) (es : List Event)
    → p.edit ≡ some (mount_dialog u)
    → p.list_shown ≡ true
    → All IsEdit es
    → (roles : List Text) × ((act (run p es) save_clicked).calls
        ≡ admin_roles u.id (record { roles = roles }) ∷ p.calls)
      × ((x : Text) → has x roles ≡ (meant_after p es (roles_of u)).is_checked x)
      × IsDistinct roles
run-saves_meant u p es ed shown t = save_lem u p.calls (meant_after p es (roles_of u)) (run p es) (
    run-IsOpen u p.calls (roles_of u) p es t
      (mount_dialog u, ed, shown, refl, mount_dialog-HasDialog u))
