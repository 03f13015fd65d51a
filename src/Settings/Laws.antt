-- ===== src/Settings/Laws.antt =====
-- What the settings page keeps true, and when it closes a wizard that is in use.
use kafka_ui.Base.{
  ℕ, zero, suc, ◌-◌, ◌<◌, ◌≡◌, refl, sym, ◌∙◌, inl, inr, Bool, true, false, not, ◌&&◌, none, some,
  List, [], ◌∷◌, ◌++◌, map, length, get_elem?, ltb, if_elim, arith, truthy, Option-cases,
  List-cases,
}
use kafka_ui.Api.Clusters.{AdminClusterInfo, AdminClusterList}
use kafka_ui.Api.Errors.{Settled, resolved, rejected}
use kafka_ui.Wizard.Flow
use kafka_ui.Wizard.Flow.{Wizard, initial_wizard}
use kafka_ui.Settings.{
  Settings, Source, static, dynamic, all_clusters, initial_settings, set_wizard_open, close_edit,
  handle_saved, after_wizard, is_blocked, on_row, open_edit, ask_delete, delete_settles,
  orphan_settles, Event, listed, add_clicked, add_closed, edit_closed, add_event, edit_event,
  edit_clicked, delete_clicked, delete_cancelled, delete_confirmed, delete_settled, orphan_settled,
  act, run,
}

static_row :
    (cs : List AdminClusterInfo) (rest : List (AdminClusterInfo × Source)) (i : ℕ)
    → i < length cs
    → (c : AdminClusterInfo) × (get_elem?
          (map {A = AdminClusterInfo} {B = AdminClusterInfo × Source} (λ c. (c, static)) cs ++ rest)
          i
        ≡ some (c, static))
static_row [] rest i h = absurd (omega arith)
static_row (c ∷ cs) rest zero h = (c, refl)
static_row (c ∷ cs) rest (suc i) h = static_row cs rest i (omega arith)

static-on_row :
    (i : ℕ) (change : AdminClusterInfo → Settings → Settings) (s : Settings) (c : AdminClusterInfo)
    → get_elem? (all_clusters s.clusters) i ≡ some (c, static)
    → on_row i change s ≡ s
static-on_row i change s c at = rw (at, on_row) refl

-- The rows of the clusters from the server's own configuration offer neither an edit nor a deletion.
static_rows_inert :
    (s : Settings) (l : AdminClusterList) (i : ℕ)
    → s.clusters ≡ some l
    → i < length l.static
    → (act s (edit_clicked i) ≡ s) × (act s (delete_clicked i) ≡ s)
unfolding act
static_rows_inert s l i at h =
    let (c, found) = static_row l.static (map (λ c. (c, dynamic)) l.dynamic) i h in
    let row : get_elem? (all_clusters s.clusters) i ≡ some (c, static) =
      unfold all_clusters in rw at found in
    (static-on_row i open_edit s c row, static-on_row i ask_delete s c row)

close_edit-none : (s : Settings) → (close_edit s).edit ≡ none
unfolding close_edit
close_edit-none s = elim (Option-cases s.edit) [
  | inl shut ↦ rw (shut, close_edit) shut
  | inr (w, at) ↦ rw (at, close_edit) refl
]

-- Closing the edit wizard leaves the other one alone.
close_edit-add :
    (s : Settings)
    → ((close_edit s).wizard_open ≡ s.wizard_open) × ((close_edit s).add_wizard ≡ s.add_wizard)
unfolding close_edit
close_edit-add s = elim (Option-cases s.edit) [
  | inl shut ↦ rw (shut, close_edit) (refl, refl)
  | inr (w, at) ↦ rw (at, close_edit) (refl, refl)
]

abbrev pub IsFresh : Settings → Type 0
IsFresh s = s.wizard_open ≡ false → s.add_wizard ≡ initial_wizard none

set_wizard_open-IsFresh : (b : Bool) (s : Settings) → IsFresh s → IsFresh (set_wizard_open b s)
unfolding set_wizard_open
set_wizard_open-IsFresh true s f = if_elim IsFresh s.wizard_open (λ _. f) (λ _ _. refl)
set_wizard_open-IsFresh false s f = if_elim IsFresh s.wizard_open (λ _ _. refl) (λ _. f)

set_wizard_open-shut : (s : Settings) → (set_wizard_open false s).wizard_open ≡ false
unfolding set_wizard_open
set_wizard_open-shut s =
    if_elim (λ (t : Settings). t.wizard_open ≡ false) s.wizard_open (λ _. refl) (λ c. c)

close_edit-IsFresh : (s : Settings) → IsFresh s → IsFresh (close_edit s)
close_edit-IsFresh s f h = let (o, w) = close_edit-add s in w ∙ f (sym o ∙ h)

handle_saved-IsFresh : (s : Settings) → IsFresh s → IsFresh (handle_saved s)
unfolding handle_saved
handle_saved-IsFresh s f =
    close_edit-IsFresh (set_wizard_open false s) (set_wizard_open-IsFresh false s f)

after_wizard-IsFresh : (w w' : Wizard) (s : Settings) → IsFresh s → IsFresh (after_wizard w w' s)
unfolding after_wizard
after_wizard-IsFresh w w' s f =
    if_elim IsFresh (ltb w.saved w'.saved) (λ _. handle_saved-IsFresh s f) (λ _. f)

-- Both wizards are shut after a save that succeeded, and the next one starts afresh.
handle_saved-shut :
    (s : Settings)
    → IsFresh s
    → ((handle_saved s).wizard_open ≡ false)
      × ((handle_saved s).edit ≡ none)
      × ((handle_saved s).add_wizard ≡ initial_wizard none)
handle_saved-shut s f =
    let shut : (handle_saved s).wizard_open ≡ false =
      unfold handle_saved in
      (close_edit-add (set_wizard_open false s)).0 ∙ set_wizard_open-shut s in
    (
      shut,
      unfold handle_saved in close_edit-none (set_wizard_open false s),
      handle_saved-IsFresh s f shut,
    )

delete_settles-IsFresh :
    (o : Settled (Unit {0})) (s : Settings) → IsFresh s → IsFresh (delete_settles o s)
unfolding delete_settles
delete_settles-IsFresh (resolved u) s f = f
delete_settles-IsFresh (rejected e) s f = f

orphan_settles-IsFresh :
    (o : Settled (Unit {0})) (s : Settings) → IsFresh s → IsFresh (orphan_settles o s)
unfolding orphan_settles
orphan_settles-IsFresh (resolved u) s f = handle_saved-IsFresh s f
orphan_settles-IsFresh (rejected e) s f = f

row-IsFresh :
    (i : ℕ) (change : AdminClusterInfo → Settings → Settings) (s : Settings)
    → ((c : AdminClusterInfo) → IsFresh (change c s))
    → IsFresh s
    → IsFresh (on_row i change s)
row-IsFresh i change s keeps f = elim (Option-cases (get_elem? (all_clusters s.clusters) i)) [
  | inl none_there ↦ rw (none_there, on_row) f
  | inr ((c, static), at) ↦ rw (at, on_row) f
  | inr ((c, dynamic), at) ↦
      rw (at, on_row) (if_elim IsFresh (is_blocked s) (λ _. f) (λ _. keeps c))
]

act-IsFresh : (s : Settings) (e : Event) → IsFresh s → IsFresh (act s e)
unfolding act
act-IsFresh s (listed l) f = f
act-IsFresh s add_clicked f =
    if_elim IsFresh (is_blocked s) (λ _. f) (λ _. set_wizard_open-IsFresh true s f)
act-IsFresh s add_closed f =
    if_elim IsFresh s.wizard_open (λ _. set_wizard_open-IsFresh false s f) (λ _. f)
act-IsFresh s (add_event e) f =
    if_elim IsFresh s.wizard_open
      (λ o.
        after_wizard-IsFresh s.add_wizard (Flow.act s.add_wizard e)
          (record s { add_wizard = Flow.act s.add_wizard e })
          (λ c. let bad : true ≡ false = sym o ∙ c in cc))
      (λ _. f)
act-IsFresh s edit_closed f = close_edit-IsFresh s f
act-IsFresh s (edit_event e) f = elim (Option-cases s.edit) [
  | inl shut ↦ rw (shut, act) f
  | inr (w, at) ↦
      rw (at, act)
        (after_wizard-IsFresh w (Flow.act w e) (record s { edit = some (Flow.act w e) }) f)
]
act-IsFresh s (edit_clicked i) f = row-IsFresh i open_edit s (λ c. f) f
act-IsFresh s (delete_clicked i) f = row-IsFresh i ask_delete s (λ c. f) f
act-IsFresh s delete_cancelled f = f
act-IsFresh s delete_confirmed f = elim (Option-cases s.delete_confirm) [
  | inl shut ↦ rw (shut, act) f
  | inr (name, at) ↦
      rw (at, act)
        (if_elim IsFresh (truthy name && not (ltb 0 (length s.deletes))) (λ _. f) (λ _. f))
]
act-IsFresh s (delete_settled o) f = elim (List-cases s.deletes) [
  | inl none_sent ↦ rw (none_sent, act) f
  | inr (name, names, at) ↦ rw (at, act) (delete_settles-IsFresh o (record s { deletes = names }) f)
]
act-IsFresh s (orphan_settled o) f =
    if_elim IsFresh (ltb 0 s.orphans)
      (λ _. orphan_settles-IsFresh o (record s { orphans = s.orphans - 1 }) f) (λ _. f)

pub run-IsFresh : (s : Settings) (es : List Event) → IsFresh s → IsFresh (run s es)
unfolding run
run-IsFresh s [] f = f
run-IsFresh s (e ∷ es) f = run-IsFresh (act s e) es (act-IsFresh s e f)

-- Whatever happened before, the wizard for a new cluster opens with no trace of it: no data, no test
-- result, no error.
run-opens_fresh :
    (es : List Event)
    → is_blocked (run initial_settings es) ≡ false
    → let s = act (run initial_settings es) add_clicked in
      (s.wizard_open ≡ true) × (s.add_wizard ≡ initial_wizard none)
unfolding act set_wizard_open
run-opens_fresh es free =
    let shut : (run initial_settings es).wizard_open ≡ false = ground arith in
    rw (free, act, shut, set_wizard_open) (refl, refl)

-- A save of a wizard that was closed while it was under way closes, when it succeeds, the wizard
-- that is open by then, and what was typed into that one is lost.
orphan_save_closes :
    (s : Settings) (n : ℕ) (u : Unit {0})
    → s.orphans ≡ suc n
    → s.wizard_open ≡ true
    → let s' = act s (orphan_settled (resolved u)) in
      (s'.wizard_open ≡ false) × (s'.edit ≡ none) × (s'.add_wizard ≡ initial_wizard none)
unfolding act orphan_settles
orphan_save_closes s n u h o =
    let some_orphan : ltb 0 s.orphans ≡ true = ground arith in
    rw (some_orphan, act)
      (handle_saved-shut (record s { orphans = s.orphans - 1 })
        (λ c. let bad : true ≡ false = sym o ∙ c in cc))
