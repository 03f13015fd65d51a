-- ===== src/ListPage/Deletes.antt =====
-- Which row a confirmed deletion deletes.
use kafka_ui.Base.{
  ℕ, ◌≡◌, refl, ap, true, false, ◌&&◌, some, List, [], ◌∷◌, All, get_elem?, if_elim, option_elim,
  arith,
}
use kafka_ui.Api.Errors.{resolved, rejected}
use kafka_ui.Api.Routes.{Call}
use kafka_ui.ListPage.{
  Shape, Rights, Page, Event, reloaded, fetched, search_typed, create_opened, create_closed, edited,
  submitted, create_settled, delete_clicked, confirmed, cancelled, delete_settled, is_listed,
  form_shown, is_free, may_delete, delete_settles, filtered, create_settles, on_confirm, act, run,
}

-- Everything but the two buttons of the ConfirmDialog.
abbrev pub IsElsewhere : {Item : Type 0} {Edit : Type 0} → Event Item Edit → Type 0
IsElsewhere confirmed = ⊥
IsElsewhere cancelled = ⊥
IsElsewhere _ = Unit

module _ {Item : Type 0} {Form : Type 0} {Edit : Type 0} {Target : Type 0}
    (s : Shape Item Form Edit Target) (r : Rights) (t : Target) (calls : List Call) where
  -- The ConfirmDialog is open for `t`.
  abbrev Asks : Page Item Form Target → Type 0
  Asks p = (p.is_open ≡ false) × (p.delete_target ≡ some t) × (p.calls ≡ calls)

  no_form : (p : Page Item Form Target) → Asks p → form_shown p ≡ false
  no_form p h = ground arith

  not_free : (p : Page Item Form Target) → Asks p → is_free p ≡ false
  not_free p h = ground arith

  act-Asks :
      (p : Page Item Form Target) (e : Event Item Edit)
      → IsElsewhere e
      → Asks p
      → Asks (act s r p e)
  unfolding act create_settles delete_settles
  act-Asks p reloaded o h = h
  act-Asks p (fetched (resolved rs)) o h = h
  act-Asks p (fetched (rejected e)) o h = h
  act-Asks p (search_typed v) o h = if_elim Asks (is_free p) (λ _. h) (λ _. h)
  act-Asks p create_opened o h = rw (not_free p h) h
  act-Asks p create_closed o h = rw (no_form p h) h
  act-Asks p (edited x) o h = rw (no_form p h) h
  act-Asks p submitted o h = rw (no_form p h) h
  act-Asks p (create_settled (resolved u)) o h =
      if_elim Asks p.creating (λ _. (refl, h.1, h.2)) (λ _. h)
  act-Asks p (create_settled (rejected e)) o h = if_elim Asks p.creating (λ _. h) (λ _. h)
  act-Asks p (delete_clicked i) o h = rw (not_free p h) h
  act-Asks p confirmed o h = absurd o
  act-Asks p cancelled o h = absurd o
  act-Asks p (delete_settled i (resolved u)) o h =
      option_elim Asks (get_elem? p.deleting i) p _ (λ _. h) (λ _ _. h)
  act-Asks p (delete_settled i (rejected e)) o h =
      option_elim Asks (get_elem? p.deleting i) p _ (λ _. h) (λ _ _. h)

  run-Asks :
      (p : Page Item Form Target) (es : List (Event Item Edit))
      → All IsElsewhere es
      → Asks p
      → Asks (run s r p es)
  unfolding run
  run-Asks p [] os h = h
  run-Asks p (e ∷ es) os h = run-Asks (act s r p e) es os.1 (act-Asks p e os.0 h)

module _ {Item : Type 0} {Form : Type 0} {Edit : Type 0} {Target : Type 0}
    (s : Shape Item Form Edit Target) (r : Rights) where
  clicked-Asks :
      (p : Page Item Form Target) (i : ℕ) (row : Item) (t : Target)
      → (is_free p && may_delete s r p) ≡ true
      → get_elem? (filtered s p) i ≡ some row
      → s.target row ≡ some t
      → Asks s r t p.calls (act s r p (delete_clicked i))
  unfolding act
  clicked-Asks p i row t free found at = rw (free, found, at, act) (ground arith, refl, refl)

  -- A confirmed deletion deletes what was clicked, and no mutation of the page is sent between the
  -- click and the confirmation, whatever happens there: answers that change the list, requests that settle, or attempts
  -- to use the rest of the page.
  pub clicked_confirmed :
      (p : Page Item Form Target) (i : ℕ) (row : Item) (t : Target) (es : List (Event Item Edit))
      → (is_free p && may_delete s r p) ≡ true
      → get_elem? (filtered s p) i ≡ some row
      → s.target row ≡ some t
      → All IsElsewhere es
      → let q = run s r (act s r p (delete_clicked i)) es in
        is_listed q.view ≡ true → (act s r q confirmed).calls ≡ s.delete t ∷ p.calls
  unfolding act on_confirm
  clicked_confirmed p i row t es free found at os shown =
      let h =
        run-Asks s r t p.calls (act s r p (delete_clicked i)) es os
          (clicked-Asks p i row t free found at) in
      rw (shown, act, h.1, on_confirm) (ap (s.delete t ∷◌) h.2)
