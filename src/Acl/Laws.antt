-- ===== src/Acl/Laws.antt =====
-- What the mutations of AclPage.tsx send.
use mathlib.Core.Path.{subst}
use kafka_ui.Base.{
  ℕ, ◌≡◌, refl, true, List, [], All, get_elem?, any, Text, text_eq, option_elim, any-get_elem?,
  if_elim,
}
use kafka_ui.Api.Bodies.{AclEntry}
use kafka_ui.Api.Routes.{Call, acl_create, acl_delete}
use kafka_ui.ListPage.{Rights, Event}
use kafka_ui.ListPage.Sends.{Lawful, IsGivenEvent, resolved_inj, run-IsSound}
use kafka_ui.Acl.{
  resource_types, pattern_types, operations, permissions, initial_entry, AclEdit,
  resource_type_chosen, pattern_type_chosen, operation_chosen, permission_chosen,
  resource_name_typed, principal_typed, host_typed, choose, is_cluster, edit_entry, entry_of,
  acl_page, run,
}

abbrev IsOneOf : List Text → Text → Type 0
IsOneOf options t = any (text_eq t) options ≡ true

choose-IsOneOf :
    (options : List Text) (i : ℕ) (old : Text)
    → IsOneOf options old
    → IsOneOf options (choose options i old)
choose-IsOneOf options i old h =
    option_elim (IsOneOf options) (get_elem? options i) old _ (λ _. h)
      (λ t at. any-get_elem? options i t at)

-- Every select shows one of its options.
abbrev pub IsOffered : AclEntry → Type 0
IsOffered f =
    IsOneOf resource_types f.resource_type
    × IsOneOf pattern_types f.pattern_type
    × IsOneOf operations f.operation
    × IsOneOf permissions f.permission

-- An entry about the cluster names no resource.
abbrev pub IsWellFormed : AclEntry → Type 0
IsWellFormed f = IsOffered f × ((is_cluster f ≡ true) → f.resource_name ≡ [])

edit_entry-IsOffered : (x : AclEdit) (f : AclEntry) → IsOffered f → IsOffered (edit_entry x f)
unfolding edit_entry
edit_entry-IsOffered (resource_type_chosen i) f h =
    (choose-IsOneOf resource_types i f.resource_type h.0, h.1, h.2, h.3)
edit_entry-IsOffered (pattern_type_chosen i) f h =
    (h.0, choose-IsOneOf pattern_types i f.pattern_type h.1, h.2, h.3)
edit_entry-IsOffered (operation_chosen i) f h =
    (h.0, h.1, choose-IsOneOf operations i f.operation h.2, h.3)
edit_entry-IsOffered (permission_chosen i) f h =
    (h.0, h.1, h.2, choose-IsOneOf permissions i f.permission h.3)
edit_entry-IsOffered (resource_name_typed v) f h =
    if_elim IsOffered (is_cluster f) (λ _. h) (λ _. h)
edit_entry-IsOffered (principal_typed v) f h = h
edit_entry-IsOffered (host_typed v) f h = h

entry_of-IsWellFormed : (f : AclEntry) → IsOffered f → IsWellFormed (entry_of f)
unfolding entry_of
entry_of-IsWellFormed f h = (h, λ c. rw c refl)

initial-IsOffered : IsOffered initial_entry
unfolding text_eq
initial-IsOffered = (refl, refl, refl, refl)

module _ (cluster : Text) (r : Rights) (IsListed : AclEntry → Type 0) where
  -- A request of a mutation of the page, for a user with the rights `r`.
  abbrev pub IsAclCall : Call → Type 0
  IsAclCall (acl_create c d) = (r.creates ≡ true) × (c ≡ cluster) × IsWellFormed d
  IsAclCall (acl_delete c d) = (r.deletes ≡ true) × (c ≡ cluster) × IsListed d
  IsAclCall _ = ⊥

  acl_page-Lawful :
      (to_lower_case : Text → Text)
      → Lawful (acl_page to_lower_case cluster) r IsListed IsOffered IsAclCall
  unfolding acl_page
  acl_page-Lawful to_lower_case = record {
    initial-IsFine = initial-IsOffered;
    edit-IsFine = edit_entry-IsOffered;
    submit-IsSound = λ f c may h complete at.
        subst IsAclCall (resolved_inj (acl_create cluster (entry_of f)) c at)
          (may, refl, entry_of-IsWellFormed f h);
    delete-IsSound =
        λ row t given may at. let same : row ≡ t = cc in (may, refl, subst IsListed same given);
  }

  -- Whatever the user does and the server answers, the page creates entries only for a user with the
  -- right to, each with an offered type, pattern, operation and permission, and with no resource's
  -- name if it is about the cluster, also when a name was typed before; and it deletes only, for a
  -- user with that right, entries as the server has listed them.
  pub run-IsAclCall :
      (to_lower_case : Text → Text) (es : List (Event AclEntry AclEdit))
      → All (IsGivenEvent IsListed) es
      → All IsAclCall (run to_lower_case cluster r es).calls
  run-IsAclCall to_lower_case =
      run-IsSound (acl_page to_lower_case cluster) r IsListed IsOffered IsAclCall
        (acl_page-Lawful to_lower_case)
