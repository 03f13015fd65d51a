-- ===== src/Settings.antt =====
-- frontend/src/pages/SettingsClustersPage.tsx, for a user who may manage clusters: the two wizards
-- that it mounts and the deletion of clusters. A wizard that is unmounted loses its state, and a save
-- of its that is under way calls `onSaved` all the same when it succeeds.
pub mod Laws
pub mod Tests
use kafka_ui.Base.{
  ℕ, ◌+◌, ◌-◌, Bool, true, false, not, ◌&&◌, ◌||◌, Option, none, some, List, [], ◌∷◌, ◌++◌, map,
  length, get_elem?, erase_idx, ltb, if◌then◌else◌, Text, truthy,
}
use kafka_ui.Api.Clusters.{
  AddClusterRequest, AdminClusterInfo, AdminClusterList, ClusterCall, delete_cluster,
}
use kafka_ui.Api.Errors.{Settled, resolved, rejected}
use kafka_ui.Wizard.Flow
use kafka_ui.Wizard.Flow.{Wizard, initial_wizard}

pub data Source : Type 0 where
  static dynamic : Source

-- `orphans` counts the saves under way of wizards that were unmounted; `deletes` holds the names of
-- the deletions under way, `calls` the deletions sent, and `refreshes` counts the
-- invalidations. The GETs of the clusters are not recorded.
pub record Settings : Type 0 where
  pub clusters : Option AdminClusterList
  pub wizard_open : Bool
  pub add_wizard : Wizard
  pub edit : Option Wizard
  pub delete_confirm : Option Text
  pub deletes : List Text
  pub calls : List ClusterCall
  pub orphans : ℕ
  pub refreshes : ℕ

abbrev pub initial_settings : Settings
initial_settings = record {
  clusters = none;
  wizard_open = false;
  add_wizard = initial_wizard none;
  edit = none;
  delete_confirm = none;
  deletes = [];
  calls = [];
  orphans = 0;
  refreshes = 0;
}

unfoldable pub all_clusters : Option AdminClusterList → List (AdminClusterInfo × Source)
all_clusters none = []
all_clusters (some l) = map (λ c. (c, static)) l.static ++ map (λ c. (c, dynamic)) l.dynamic

-- `setWizardOpen`: the wizard's key follows the flag, so a change of it mounts a new wizard.
unfoldable pub set_wizard_open : Bool → Settings → Settings
set_wizard_open b s =
    let s' : Settings = record s {
      wizard_open = b;
      add_wizard = initial_wizard none;
      orphans = s.orphans + length s.add_wizard.saves;
    } in
    if b then if s.wizard_open then s else s' else if s.wizard_open then s' else s

-- `setEditCluster(null)`
unfoldable pub close_edit : Settings → Settings
close_edit s = elim s.edit [
  | none ↦ s
  | some w ↦ record s { edit = none; orphans = s.orphans + length w.saves }
]

unfoldable pub handle_saved : Settings → Settings
unfolding set_wizard_open close_edit
handle_saved s =
    let s' = close_edit (set_wizard_open false s) in record s' { refreshes = s'.refreshes + 1 }

-- After an event of a wizard: `onSaved` is called if a save of it has succeeded.
unfoldable pub after_wizard : Wizard → Wizard → Settings → Settings
unfolding handle_saved
after_wizard w w' s = if ltb w.saved w'.saved then handle_saved s else s

-- The mutation's `onSuccess`.
unfoldable pub delete_settles : Settled (Unit {0}) → Settings → Settings
delete_settles (resolved u) s = record s { delete_confirm = none; refreshes = s.refreshes + 1 }
delete_settles (rejected e) s = s

unfoldable pub orphan_settles : Settled (Unit {0}) → Settings → Settings
unfolding handle_saved
orphan_settles (resolved u) s = handle_saved s
orphan_settles (rejected e) s = s

-- A dialog is modal: the controls behind it cannot be reached.
abbrev pub is_blocked : Settings → Bool
is_blocked s =
    s.wizard_open
    || (elim s.edit [ none ↦ false | some w ↦ true ])
    || (elim s.delete_confirm [ none ↦ false | some name ↦ truthy name ])

pub data Event : Type 0 where
  listed : AdminClusterList → Event
  add_clicked add_closed edit_closed : Event
  add_event edit_event : Flow.Event → Event
  edit_clicked delete_clicked : ℕ → Event
  delete_cancelled delete_confirmed : Event
  delete_settled orphan_settled : Settled (Unit {0}) → Event

-- A click on a button of the row at a position, which only the rows of dynamic clusters have.
abbrev pub on_row : ℕ → (AdminClusterInfo → Settings → Settings) → Settings → Settings
on_row i change s = elim (get_elem? (all_clusters s.clusters) i) [
  | none ↦ s
  | some (c, static) ↦ s
  | some (c, dynamic) ↦ if is_blocked s then s else change c s
]

abbrev pub open_edit : AdminClusterInfo → Settings → Settings
open_edit c s = record s { edit = some (initial_wizard (some c.request)) }

abbrev pub ask_delete : AdminClusterInfo → Settings → Settings
ask_delete c s = record s { delete_confirm = some c.request.name }

unfoldable pub act : Settings → Event → Settings
unfolding set_wizard_open close_edit handle_saved after_wizard delete_settles orphan_settles
act s (listed l) = record s { clusters = some l }
act s add_clicked = if is_blocked s then s else set_wizard_open true s
act s add_closed = if s.wizard_open then set_wizard_open false s else s
act s (add_event e) =
    let w = Flow.act s.add_wizard e in
    if s.wizard_open then after_wizard s.add_wizard w (record s { add_wizard = w }) else s
act s edit_closed = close_edit s
act s (edit_event e) = elim s.edit [
  | none ↦ s
  | some w ↦ let w' = Flow.act w e in after_wizard w w' (record s { edit = some w' })
]
act s (edit_clicked i) = on_row i open_edit s
act s (delete_clicked i) = on_row i ask_delete s
act s delete_cancelled = record s { delete_confirm = none }
act s delete_confirmed = elim s.delete_confirm [
  | none ↦ s
  | some name ↦
      if truthy name && not (ltb 0 (length s.deletes))
      then record s { deletes = name ∷ s.deletes; calls = delete_cluster name ∷ s.calls }
      else s
]
act s (delete_settled o) = elim s.deletes [
  | [] ↦ s
  | name ∷ names ↦ delete_settles o (record s { deletes = names })
]
act s (orphan_settled o) =
    if ltb 0 s.orphans then orphan_settles o (record s { orphans = s.orphans - 1 }) else s

unfoldable pub run : Settings → List Event → Settings
unfolding act
run s [] = s
run s (e ∷ es) = run (act s e) es
