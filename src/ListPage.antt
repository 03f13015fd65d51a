-- ===== src/ListPage.antt =====
-- What the pages with a list of resources have in common: TopicsPage.tsx, SchemaRegistryPage.tsx,
-- KafkaConnectPage.tsx, UsersPage.tsx and AclPage.tsx under frontend/src/pages. Each has a search, a
-- dialog with a form whose success resets it, and a deletion behind a ConfirmDialog. A page gives its
-- own part by a `Shape`. The form's text is the page's state, so it outlives the dialog.
pub mod Sends
pub mod Deletes
use kafka_ui.Base.{
  ℕ, ◌+◌, Bool, true, false, not, ◌&&◌, ◌||◌, Option, none, some, List, [], ◌∷◌, keep, get_elem?,
  erase_idx, if◌then◌else◌, Text,
}
use kafka_ui.Api.Errors.{Thrown, Settled, resolved, rejected}
use kafka_ui.Api.Routes.{Call}

-- `matches` is the search's test of a row. `target` is what the row's button for the deletion stores,
-- `none` where there is no button or where what it stores is falsy, which opens no dialog. `submit`
-- is the mutation's function: the request, or what it throws before it sends one. `waits` says that
-- the buttons are disabled while a deletion is under way.
pub record Shape (Item : Type 0) (Form : Type 0) (Edit : Type 0) (Target : Type 0) : Type 0 where
  pub matches : Text → Item → Bool
  pub initial : Form
  pub edit : Edit → Form → Form
  pub is_complete : Form → Bool
  pub submit : Form → Settled Call
  pub target : Item → Option Target
  pub delete : Target → Call
  pub waits : Bool

-- Whether the user may create and delete.
pub record Rights : Type 0 where
  pub creates : Bool
  pub deletes : Bool

-- What the query gives. The first request and a retry of it show `loading`.
pub data View (Item : Type 0) : Type 0 where
  loading : View Item
  failed : Thrown → View Item
  listed : List Item → View Item

abbrev pub is_listed : {Item : Type 0} → View Item → Bool
is_listed loading = false
is_listed (failed e) = false
is_listed (listed is) = true

abbrev pub rows : {Item : Type 0} → View Item → List Item
rows loading = []
rows (failed e) = []
rows (listed is) = is

-- `creating` and `deleting` are what is under way; `create_error` is the mutation's error, which the
-- dialog shows. `calls` are the requests that the mutations sent, the last one first; the GETs of the
-- query, at mount, on a retry and after an invalidation, are not recorded, and their answers are the
-- events `fetched`. `refreshes` counts the invalidations.
pub record Page (Item : Type 0) (Form : Type 0) (Target : Type 0) : Type 0 where
  pub view : View Item
  pub search : Text
  pub is_open : Bool
  pub form : Form
  pub delete_target : Option Target
  pub creating : Bool
  pub create_error : Option Thrown
  pub deleting : List Target
  pub calls : List Call
  pub refreshes : ℕ

pub data Event (Item : Type 0) (Edit : Type 0) : Type 0 where
  reloaded : Event Item Edit
  fetched : Settled (List Item) → Event Item Edit
  search_typed : Text → Event Item Edit
  create_opened create_closed : Event Item Edit
  edited : Edit → Event Item Edit
  submitted : Event Item Edit
  create_settled : Settled (Unit {0}) → Event Item Edit
  delete_clicked : ℕ → Event Item Edit
  confirmed cancelled : Event Item Edit
  delete_settled : ℕ → Settled (Unit {0}) → Event Item Edit

abbrev pub is_none {ℓ} : {A : Type ℓ} → Option A → Bool
is_none none = true
is_none (some a) = false

abbrev pub is_empty {ℓ} : {A : Type ℓ} → List A → Bool
is_empty [] = true
is_empty (a ∷ rest) = false

module _ {Item : Type 0} {Form : Type 0} {Target : Type 0} where
  unfoldable pub delete_settles :
      ℕ → Settled (Unit {0}) → Page Item Form Target → Page Item Form Target
  delete_settles i (resolved u) p = record p {
    deleting = erase_idx p.deleting i;
    refreshes = p.refreshes + 1;
  }
  delete_settles i (rejected e) p = record p { deleting = erase_idx p.deleting i }

  abbrev pub form_shown : Page Item Form Target → Bool
  form_shown p = is_listed p.view && p.is_open

  -- No dialog lies over the page.
  abbrev pub is_free : Page Item Form Target → Bool
  is_free p = is_listed p.view && not p.is_open && is_none p.delete_target

module _ {Item : Type 0} {Form : Type 0} {Edit : Type 0} {Target : Type 0}
    (s : Shape Item Form Edit Target) where
  abbrev pub initial_page : Page Item Form Target
  initial_page = record {
    view = loading;
    search = [];
    is_open = false;
    form = s.initial;
    delete_target = none;
    creating = false;
    create_error = none;
    deleting = [];
    calls = [];
    refreshes = 0;
  }

  -- The rows of the table.
  unfoldable pub filtered : Page Item Form Target → List Item
  filtered p = keep (s.matches p.search) (rows p.view)

  -- `createMutation.mutate`
  unfoldable pub create : Page Item Form Target → Page Item Form Target
  create p = elim (s.submit p.form) [
    | rejected e ↦ record p { create_error = some e }
    | resolved c ↦ record p { creating = true; create_error = none; calls = c ∷ p.calls }
  ]

  unfoldable pub create_settles : Settled (Unit {0}) → Page Item Form Target → Page Item Form Target
  create_settles (resolved u) p = record p {
    creating = false;
    is_open = false;
    form = s.initial;
    refreshes = p.refreshes + 1;
  }
  create_settles (rejected e) p = record p { creating = false; create_error = some e }

  -- `onConfirm`
  unfoldable pub on_confirm : Target → Page Item Form Target → Page Item Form Target
  on_confirm t p = record p {
    deleting = t ∷ p.deleting;
    delete_target = none;
    calls = s.delete t ∷ p.calls;
  }

  abbrev pub may_delete : Rights → Page Item Form Target → Bool
  may_delete r p = r.deletes && not (s.waits && not (is_empty p.deleting))

  unfoldable pub act : Rights → Page Item Form Target → Event Item Edit → Page Item Form Target
  act r p reloaded = record p { view = loading }
  act r p (fetched (resolved is)) = record p { view = listed is }
  act r p (fetched (rejected e)) = record p { view = failed e }
  act r p (search_typed v) = if is_free p then record p { search = v } else p
  act r p create_opened = if is_free p && r.creates then record p { is_open = true } else p
  act r p create_closed = if form_shown p then record p { is_open = false } else p
  act r p (edited x) = if form_shown p then record p { form = s.edit x p.form } else p
  act r p submitted = if form_shown p && not p.creating && s.is_complete p.form then create p else p
  act r p (create_settled a) = if p.creating then create_settles a p else p
  act r p (delete_clicked i) =
      if is_free p && may_delete r p
      then elim (get_elem? (filtered p) i) [
        | none ↦ p
        | some row ↦ elim (s.target row) [ none ↦ p | some t ↦ record p { delete_target = some t } ]
      ]
      else p
  act r p confirmed =
      if is_listed p.view then elim p.delete_target [ none ↦ p | some t ↦ on_confirm t p ] else p
  act r p cancelled = if is_listed p.view then record p { delete_target = none } else p
  act r p (delete_settled i a) = elim (get_elem? p.deleting i) [
    | none ↦ p
    | some t ↦ delete_settles i a p
  ]

  unfoldable pub run :
      Rights → Page Item Form Target → List (Event Item Edit) → Page Item Form Target
  run r p [] = p
  run r p (e ∷ es) = run r (act r p e) es
