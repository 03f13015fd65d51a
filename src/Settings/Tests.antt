-- ===== src/Settings/Tests.antt =====
-- The settings page's theorems on a concrete session.
use kafka_ui.Base.{◌≡◌, refl, true, false, none, List, [], ◌∷◌, codes}
use kafka_ui.Api.Clusters.{AdminClusterInfo, AdminClusterList}
use kafka_ui.Wizard.State.{blank_request}
use kafka_ui.Wizard.Flow.{initial_wizard}
use kafka_ui.Settings.{
  Settings, initial_settings, set_wizard_open, is_blocked, Event, add_clicked, add_closed, act, run,
}

abbrev info : AdminClusterInfo
info = record { request = record blank_request { name = codes "c" }; dynamic = false }

abbrev listing : AdminClusterList
listing = record { static = info ∷ []; dynamic = [] }

abbrev reopened : List Event
reopened = add_clicked ∷ add_closed ∷ []

free_again : is_blocked (run initial_settings reopened) ≡ false
unfolding run act set_wizard_open
free_again = refl

-- The wizard is closed while its save is under way, and another one is opened.
abbrev saving : Settings
saving = record initial_settings {
  wizard_open = true;
  add_wizard = record (initial_wizard none) { saves = blank_request ∷ [] };
}

another_is_open :
    ((run saving (add_closed ∷ add_clicked ∷ [])).orphans ≡ 1)
    × ((run saving (add_closed ∷ add_clicked ∷ [])).wizard_open ≡ true)
unfolding run act set_wizard_open
another_is_open = (refl, refl)
