-- ===== src/Theme/Tests.antt =====
-- The theorems about the theme, on a concrete page.
use kafka_ui.Base.{◌≡◌, refl, true, false, none, [], ◌∷◌, codes, inr, text_eq}
use kafka_ui.Theme.{
  Page, chosen, media, toggled, dark_theme, system, dark, light, mount, run, act, is_dark, toggle,
  media_changed, set_theme, apply_theme, resolve, remove_class, add_class,
}
use kafka_ui.Theme.Laws.{IsShown}

abbrev start : Page
start = record {
  theme = system;
  stored = none;
  classes = codes "app" ∷ light ∷ [];
  prefers_dark = false;
}

mount-start : mount system none (codes "app" ∷ dark ∷ []) false ≡ start
unfolding mount apply_theme resolve remove_class add_class text_eq
mount-start = refl

dark_later :
    (run start (media true ∷ toggled ∷ chosen dark_theme ∷ [])).classes ≡ codes "app" ∷ dark ∷ []
unfolding run act toggle is_dark set_theme media_changed apply_theme resolve remove_class add_class
    text_eq
dark_later = refl

start-IsShown : IsShown start
unfolding is_dark text_eq
start-IsShown = record { theme = inr (inr refl); dark_class = refl; light_class = refl }
