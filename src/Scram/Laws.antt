-- ===== src/Scram/Laws.antt =====
-- What the mutations of UsersPage.tsx send.
use mathlib.Core.Path.{subst}
use kafka_ui.Base.{
  ◌≡◌, refl, true, ◌&&◌, ◌⊎◌, inl, inr, none, some, Option-cases, parse_int_radix_10, pos, List,
  All, get_elem?, any, Text, truthy, text_eq, ℤ, option_elim, and_parts, any-get_elem?,
}
use kafka_ui.Api.Bodies.{UpsertScramUserRequest, DeleteScramUserRequest}
use kafka_ui.Api.Routes.{Call, users_create, users_delete}
use kafka_ui.ListPage.{Rights, Event}
use kafka_ui.ListPage.Sends.{Lawful, IsGivenEvent, resolved_inj, run-IsSound}
use kafka_ui.Scram.{
  ScramUser, scram_mechanisms, ScramForm, initial_form, ScramEdit, name_typed, password_typed,
  iterations_typed, mechanism_chosen, edit_form, iterations_of, create_request, delete_request,
  scram_page, run,
}

-- A mechanism that the form offers.
abbrev pub IsMechanism : Text → Type 0
IsMechanism m = any (text_eq m) scram_mechanisms ≡ true

-- The number of iterations is the decimal number that some text starts with, or 4096 where it starts
-- with none.
abbrev pub IsRead : ℤ → Text → Type 0
IsRead n t = (parse_int_radix_10 t ≡ some n) ⊎ ((parse_int_radix_10 t ≡ none) × (n ≡ pos 4096))

-- The request for new credentials holds a name, a password, a mechanism that is offered and a number
-- of iterations that some text was read as.
abbrev pub IsComplete : UpsertScramUserRequest → Type 0
IsComplete d =
    (truthy d.name ≡ true)
    × (truthy d.password ≡ true)
    × IsMechanism d.mechanism
    × ((n : ℤ) × (t : Text) × (d.iterations ≡ some (some n)) × IsRead n t)

iterations_of-IsRead : (t : Text) → IsRead (iterations_of t) t
unfolding iterations_of
iterations_of-IsRead t = elim (Option-cases (parse_int_radix_10 t)) [
  | inl nothing ↦ rw (nothing, iterations_of) (inr (refl, refl))
  | inr (n, read) ↦ rw (read, iterations_of) (inl refl)
]

edit_form-IsMechanism :
    (x : ScramEdit) (f : ScramForm)
    → IsMechanism f.mechanism
    → IsMechanism (edit_form x f).mechanism
unfolding edit_form
edit_form-IsMechanism (name_typed v) f h = h
edit_form-IsMechanism (password_typed v) f h = h
edit_form-IsMechanism (iterations_typed v) f h = h
edit_form-IsMechanism (mechanism_chosen i) f h =
    option_elim (λ (f' : ScramForm). IsMechanism f'.mechanism) (get_elem? scram_mechanisms i) f _
      (λ _. h) (λ m at. any-get_elem? scram_mechanisms i m at)

create_request-IsComplete :
    (f : ScramForm)
    → IsMechanism f.mechanism
    → (truthy f.name && truthy f.password) ≡ true
    → IsComplete (create_request f)
unfolding create_request
create_request-IsComplete f h complete =
    let (named, secret) = and_parts (truthy f.name) (truthy f.password) complete in
    (
      named,
      secret,
      h,
      (iterations_of f.iterations, f.iterations, refl, iterations_of-IsRead f.iterations),
    )

module _ (cluster : Text) (r : Rights) (IsListed : DeleteScramUserRequest → Type 0) where
  -- A request of a mutation of the page, for a user with the rights `r`.
  abbrev pub IsScramCall : Call → Type 0
  IsScramCall (users_create c d) = (r.creates ≡ true) × (c ≡ cluster) × IsComplete d
  IsScramCall (users_delete c d) = (r.deletes ≡ true) × (c ≡ cluster) × IsListed d
  IsScramCall _ = ⊥

  initial-IsMechanism : IsMechanism initial_form.mechanism
  unfolding text_eq
  initial-IsMechanism = refl

  scram_page-Lawful :
      (to_lower_case : Text → Text)
      → Lawful
          (scram_page to_lower_case cluster)
          r
          (λ u. IsListed (delete_request u))
          (λ f. IsMechanism f.mechanism)
          IsScramCall
  unfolding scram_page
  scram_page-Lawful to_lower_case = record {
    initial-IsFine = initial-IsMechanism;
    edit-IsFine = edit_form-IsMechanism;
    submit-IsSound = λ f c may h complete at.
        subst IsScramCall (resolved_inj (users_create cluster (create_request f)) c at)
          (may, refl, create_request-IsComplete f h complete);
    delete-IsSound = λ row t given may at.
        let same : row ≡ t = cc in (may, refl, subst (λ u. IsListed (delete_request u)) same given);
  }

  pub run-Sends :
      (to_lower_case : Text → Text) (es : List (Event ScramUser ScramEdit))
      → All (IsGivenEvent (λ u. IsListed (delete_request u))) es
      → All IsScramCall (run to_lower_case cluster r es).calls
  run-Sends to_lower_case =
      run-IsSound (scram_page to_lower_case cluster) r (λ u. IsListed (delete_request u))
        (λ f. IsMechanism f.mechanism) IsScramCall (scram_page-Lawful to_lower_case)
