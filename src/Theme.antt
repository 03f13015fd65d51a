-- ===== src/Theme.antt =====
-- The theme: ThemeProvider.tsx and ThemeToggle.tsx of frontend/src/components. A theme is any text
-- that the browser's storage may hold; the classes of the root element are a list without repeats.
pub mod Laws
pub mod Tests
use kafka_ui.Base.{
  Bool, true, false, not, ◌&&◌, ◌||◌, Option, none, some, List, [], ◌∷◌, ◌++◌, any, keep,
  if◌then◌else◌, Text, codes, truthy, text_eq,
}

abbrev pub light : Text
light = codes "light"

abbrev pub dark : Text
dark = codes "dark"

abbrev pub system : Text
system = codes "system"

-- The type `Theme`, and its value.
pub data Theme : Type 0 where
  light_theme dark_theme system_theme : Theme

abbrev pub theme_text : Theme → Text
theme_text light_theme = light
theme_text dark_theme = dark
theme_text system_theme = system

-- `prefers_dark` is the media query's `matches`, `stored` the entry of localStorage.
pub record Page : Type 0 where
  pub theme : Text
  pub stored : Option Text
  pub classes : List Text
  pub prefers_dark : Bool

unfoldable pub resolve : Text → Bool → Text
resolve theme prefers_dark =
    if text_eq theme system then if prefers_dark then dark else light else theme

-- `classList.remove(c)` and `classList.add(c)`.
unfoldable pub remove_class : Text → List Text → List Text
remove_class c classes = keep (λ d. not (text_eq d c)) classes

unfoldable pub add_class : Text → List Text → List Text
add_class c classes = if any (text_eq c) classes then classes else classes ++ (c ∷ [])

unfoldable pub apply_theme : Page → Page
unfolding resolve remove_class add_class
apply_theme p = record p {
  classes =
      add_class (resolve p.theme p.prefers_dark) (remove_class dark (remove_class light p.classes));
}

-- The first render and its effect.
unfoldable pub mount : Text → Option Text → List Text → Bool → Page
unfolding apply_theme
mount default_theme stored classes prefers_dark = apply_theme (record {
  theme = elim stored [ none ↦ default_theme | some t ↦ if truthy t then t else default_theme ];
  stored = stored;
  classes = classes;
  prefers_dark = prefers_dark;
})

-- The provider's `setTheme`: the effect runs again only for a theme that differs.
unfoldable pub set_theme : Text → Page → Page
unfolding apply_theme
set_theme t p =
    let p' : Page = record p { theme = t; stored = some t } in
    if text_eq t p.theme then p' else apply_theme p'

-- The media query changes; the effect listens only while the theme is "system".
unfoldable pub media_changed : Bool → Page → Page
unfolding apply_theme
media_changed b p =
    let p' : Page = record p { prefers_dark = b } in
    if text_eq p.theme system then apply_theme p' else p'

unfoldable pub is_dark : Page → Bool
is_dark p = text_eq p.theme dark || (text_eq p.theme system && p.prefers_dark)

unfoldable pub toggle : Page → Page
unfolding set_theme is_dark
toggle p = set_theme (if is_dark p then light else dark) p

-- `setTheme` of the context, the media query's change, and the button of ThemeToggle.tsx.
pub data Event : Type 0 where
  chosen : Theme → Event
  media : Bool → Event
  toggled : Event

unfoldable pub act : Page → Event → Page
unfolding set_theme media_changed toggle
act p (chosen t) = set_theme (theme_text t) p
act p (media b) = media_changed b p
act p toggled = toggle p

unfoldable pub run : Page → List Event → Page
unfolding act
run p [] = p
run p (e ∷ es) = run (act p e) es
