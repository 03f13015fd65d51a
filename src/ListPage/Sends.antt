-- ===== src/ListPage/Sends.antt =====
-- What the mutations of the pages with a list of resources send.
use mathlib.Core.Path.{subst}
use kafka_ui.Base.{
  ℕ, ◌≡◌, refl, true, not, ◌&&◌, Option, none, some, List, [], ◌∷◌, All, get_elem?, All-keep,
  All-get_elem?, if_elim, option_elim, and_parts, arith,
}
use kafka_ui.Api.Errors.{Settled, resolved, rejected}
use kafka_ui.Api.Routes.{Call}
use kafka_ui.ListPage.{
  Shape, Rights, Page, Event, reloaded, fetched, search_typed, create_opened, create_closed, edited,
  submitted, create_settled, delete_clicked, confirmed, cancelled, delete_settled, is_listed, rows,
  form_shown, is_free, may_delete, delete_settles, initial_page, filtered, create, create_settles,
  on_confirm, act, run,
}

-- What a page promises a user with the rights `r`: `IsFine` holds of the form whatever is typed, and
-- what its mutations send is `IsSound`, if `IsGiven` holds of the rows that the server gives.
pub record Lawful {Item : Type 0} {Form : Type 0} {Edit : Type 0} {Target : Type 0}
    (s : Shape Item Form Edit Target) (r : Rights) (IsGiven : Item → Type 0)
    (IsFine : Form → Type 0) (IsSound : Call → Type 0) : Type 0 where
  pub initial-IsFine : IsFine s.initial
  pub edit-IsFine : (x : Edit) (f : Form) → IsFine f → IsFine (s.edit x f)
  pub submit-IsSound :
      (f : Form) (c : Call)
      → r.creates ≡ true
      → IsFine f
      → s.is_complete f ≡ true
      → s.submit f ≡ resolved c
      → IsSound c
  pub delete-IsSound :
      (row : Item) (t : Target)
      → IsGiven row
      → r.deletes ≡ true
      → s.target row ≡ some t
      → IsSound (s.delete t)

-- Of the events, only an answer of the server brings rows.
abbrev pub IsGivenEvent :
    {Item : Type 0} {Edit : Type 0} → (Item → Type 0) → Event Item Edit → Type 0
IsGivenEvent IsGiven (fetched (resolved rs)) = All IsGiven rs
IsGivenEvent IsGiven _ = Unit

module _ {Item : Type 0} {Form : Type 0} {Edit : Type 0} {Target : Type 0}
    (s : Shape Item Form Edit Target) (r : Rights) (IsGiven : Item → Type 0)
    (IsFine : Form → Type 0) (IsSound : Call → Type 0) (l : Lawful s r IsGiven IsFine IsSound) where
  -- What a stored target asks for.
  abbrev pub IsDue : Option Target → Type 0
  IsDue none = Unit
  IsDue (some t) = IsSound (s.delete t)

  -- The invariant of the page.
  abbrev pub Sends : Page Item Form Target → Type 0
  Sends p =
      (p.is_open ≡ true → r.creates ≡ true)
      × IsFine p.form
      × IsDue p.delete_target
      × All IsSound p.calls
      × All IsGiven (rows p.view)

  create-Sends :
      (p : Page Item Form Target)
      → r.creates ≡ true
      → s.is_complete p.form ≡ true
      → Sends p
      → Sends (create s p)
  unfolding create
  create-Sends p rightful complete h = go (s.submit p.form) refl
    where
      go :
          (a : Settled Call)
          → s.submit p.form ≡ a
          → Sends (elim a [
            | rejected e ↦ record p { create_error = some e }
            | resolved c ↦ record p { creating = true; create_error = none; calls = c ∷ p.calls }
          ])
      go (rejected e) at = h
      go (resolved c) at =
          (h.0, h.1, h.2, (l.submit-IsSound p.form c rightful h.1 complete at, h.3), h.4)

  pub filtered-IsGiven :
      (p : Page Item Form Target) (i : ℕ) (row : Item)
      → All IsGiven (rows p.view)
      → get_elem? (filtered s p) i ≡ some row
      → IsGiven row
  unfolding filtered
  filtered-IsGiven p i row h at =
      All-get_elem? IsGiven (filtered s p) i row
        (All-keep IsGiven (s.matches p.search) (rows p.view) h) at

  pub act-Sends :
      (p : Page Item Form Target) (e : Event Item Edit)
      → IsGivenEvent IsGiven e
      → Sends p
      → Sends (act s r p e)
  unfolding act create_settles delete_settles on_confirm
  act-Sends p reloaded g h = (h.0, h.1, h.2, h.3, tt)
  act-Sends p (fetched (resolved rs)) g h = (h.0, h.1, h.2, h.3, g)
  act-Sends p (fetched (rejected e)) g h = (h.0, h.1, h.2, h.3, tt)
  act-Sends p (search_typed v) g h = if_elim Sends (is_free p) (λ _. h) (λ _. h)
  act-Sends p create_opened g h =
      if_elim Sends (is_free p && r.creates)
        (λ t. ((λ _. (and_parts (is_free p) r.creates t).1), h.1, h.2, h.3, h.4)) (λ _. h)
  act-Sends p create_closed g h =
      if_elim Sends (form_shown p) (λ _. ((λ c. absurd (cc)), h.1, h.2, h.3, h.4)) (λ _. h)
  act-Sends p (edited x) g h =
      if_elim Sends (form_shown p) (λ _. (h.0, l.edit-IsFine x p.form h.1, h.2, h.3, h.4)) (λ _. h)
  act-Sends p submitted g h =
      if_elim Sends (form_shown p && not p.creating && s.is_complete p.form)
        (λ t. create-Sends p (h.0 (ground arith)) (ground arith) h) (λ _. h)
  act-Sends p (create_settled (resolved u)) g h =
      if_elim Sends p.creating (λ _. ((λ c. absurd (cc)), l.initial-IsFine, h.2, h.3, h.4)) (λ _. h)
  act-Sends p (create_settled (rejected e)) g h = if_elim Sends p.creating (λ _. h) (λ _. h)
  act-Sends p (delete_clicked i) g h =
      if_elim Sends (is_free p && may_delete s r p)
        (λ t.
          option_elim Sends (get_elem? (filtered s p) i) p _ (λ _. h)
            (λ row found.
              option_elim Sends (s.target row) p _ (λ _. h)
                (λ u at. (
                  h.0,
                  h.1,
                  l.delete-IsSound row u (filtered-IsGiven p i row h.4 found) (ground arith) at,
                  h.3,
                  h.4,
                ))))
        (λ _. h)
  act-Sends p confirmed g h =
      if_elim Sends (is_listed p.view)
        (λ _.
          option_elim Sends p.delete_target p _ (λ _. h)
            (λ u at. (h.0, h.1, tt, (subst IsDue at h.2, h.3), h.4)))
        (λ _. h)
  act-Sends p cancelled g h =
      if_elim Sends (is_listed p.view) (λ _. (h.0, h.1, tt, h.3, h.4)) (λ _. h)
  act-Sends p (delete_settled i (resolved u)) g h =
      option_elim Sends (get_elem? p.deleting i) p _ (λ _. h) (λ _ _. h)
  act-Sends p (delete_settled i (rejected e)) g h =
      option_elim Sends (get_elem? p.deleting i) p _ (λ _. h) (λ _ _. h)

  run-Sends :
      (p : Page Item Form Target) (es : List (Event Item Edit))
      → All (IsGivenEvent IsGiven) es
      → Sends p
      → Sends (run s r p es)
  unfolding run
  run-Sends p [] g h = h
  run-Sends p (e ∷ es) g h = run-Sends (act s r p e) es g.1 (act-Sends p e g.0 h)

  pub initial-Sends : Sends (initial_page s)
  initial-Sends = ((λ c. absurd (cc)), l.initial-IsFine, tt, tt, tt)

  -- Whatever the user does and the server answers, every request that a mutation of the page sends
  -- is sound, if
  -- the page keeps what its `Shape` promises.
  pub run-IsSound :
      (es : List (Event Item Edit))
      → All (IsGivenEvent IsGiven) es
      → All IsSound (run s r (initial_page s) es).calls
  run-IsSound es g = (run-Sends (initial_page s) es g initial-Sends).3

pub resolved_inj {ℓ} : {A : Type ℓ} (a b : A) → resolved a ≡ resolved b → a ≡ b
resolved_inj a b e = cc
