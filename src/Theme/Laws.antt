-- ===== src/Theme/Laws.antt =====
-- The classes of the root element follow the theme.
use kafka_ui.Base.{
  ◌≡◌, refl, sym, ap, ◌∙◌, ◌⊎◌, inl, inr, Bool, true, false, not, ◌&&◌, ◌||◌, Option, none, some,
  List, [], ◌∷◌, ◌++◌, any, if_elim, if◌then◌else◌, arith, Text, truthy, text_eq, text_eq_iff,
  text_eq_refl, Bool-cases,
}
use kafka_ui.Theme.{
  light, dark, system, Page, resolve, remove_class, add_class, apply_theme, mount, set_theme,
  media_changed, is_dark, toggle, Theme, light_theme, dark_theme, system_theme, theme_text, Event,
  chosen, media, toggled, act, run,
}

abbrev pub has_class : Text → List Text → Bool
has_class c classes = any (text_eq c) classes

-- One of the three themes of the type.
abbrev pub IsTheme : Text → Type 0
IsTheme t = (t ≡ light) ⊎ ((t ≡ dark) ⊎ (t ≡ system))

-- The theme is one of the three, the storage is empty or holds it, and the root element has the
-- class of the resolved theme and not the other one.
pub record IsShown (p : Page) : Type 0 where
  pub theme : IsTheme p.theme
  pub dark_class : has_class dark p.classes ≡ is_dark p
  pub light_class : has_class light p.classes ≡ not (is_dark p)

text_ne_sym : (c d : Text) → text_eq c d ≡ false → text_eq d c ≡ false
text_ne_sym c d h = elim (Bool-cases (text_eq d c)) [
  | inl same ↦
      let bad : true ≡ false =
        sym (text_eq_refl c) ∙ ap (λ x. text_eq c x) (sym ((text_eq_iff d c).0 same)) ∙ h in
      cc
  | inr other ↦ other
]

has_class-remove_same :
    (c : Text) (classes : List Text) → has_class c (remove_class c classes) ≡ false
unfolding remove_class
has_class-remove_same c [] = refl
has_class-remove_same c (d ∷ classes) = elim (Bool-cases (text_eq d c)) [
  | inl same ↦ rw same (has_class-remove_same c classes)
  | inr other ↦
      let flipped : text_eq c d ≡ false = text_ne_sym d c other in
      rw (other, flipped) (has_class-remove_same c classes)
]

has_class-remove_other :
    (c d : Text) (classes : List Text)
    → text_eq d c ≡ false
    → has_class c (remove_class d classes) ≡ has_class c classes
unfolding remove_class
has_class-remove_other c d [] h = refl
has_class-remove_other c d (e ∷ classes) h = elim (Bool-cases (text_eq e d)) [
  | inl same ↦
      let other : text_eq c e ≡ false =
        text_ne_sym e c (ap (λ x. text_eq x c) ((text_eq_iff e d).0 same) ∙ h) in
      rw (same, other) (has_class-remove_other c d classes h)
  | inr other ↦ rw other (ap (λ b. text_eq c e || b) (has_class-remove_other c d classes h))
]

has_class-append :
    (c d : Text) (classes : List Text)
    → has_class c (classes ++ (d ∷ [])) ≡ (has_class c classes || text_eq c d)
has_class-append c d [] = ground arith
has_class-append c d (e ∷ classes) = rw (has_class-append c d classes) (ground arith)

has_class-add :
    (c d : Text) (classes : List Text)
    → has_class c (add_class d classes) ≡ (has_class c classes || text_eq c d)
unfolding add_class
has_class-add c d classes = elim (Bool-cases (has_class d classes)) [
  | inl there ↦ elim (Bool-cases (text_eq c d)) [
    | inl same ↦
        let found : has_class c classes ≡ true =
          ap (λ x. has_class x classes) ((text_eq_iff c d).0 same) ∙ there in
        rw (there, found) refl
    | inr other ↦ rw (there, other) (ground arith)
  ]
  | inr absent ↦ rw absent (has_class-append c d classes)
]

-- The classes of the two themes after `apply_theme` has set the class r.
dark_after :
    (r : Text) (cs : List Text)
    → has_class dark (add_class r (remove_class dark (remove_class light cs))) ≡ text_eq dark r
dark_after r cs =
    has_class-add dark r (remove_class dark (remove_class light cs))
    ∙ ap (λ b. b || text_eq dark r) (has_class-remove_same dark (remove_class light cs))

light_after :
    (r : Text) (cs : List Text)
    → has_class light (add_class r (remove_class dark (remove_class light cs))) ≡ text_eq light r
unfolding text_eq
light_after r cs =
    has_class-add light r (remove_class dark (remove_class light cs))
    ∙ ap (λ b. b || text_eq light r)
        (has_class-remove_other light dark (remove_class light cs) refl
          ∙ has_class-remove_same light cs)

resolved_classes :
    (t : Text) (b : Bool)
    → IsTheme t
    → (text_eq dark (resolve t b) ≡ (text_eq t dark || (text_eq t system && b)))
      × (text_eq light (resolve t b) ≡ not (text_eq t dark || (text_eq t system && b)))
unfolding resolve text_eq
resolved_classes t b (inl h) = rw h (refl, refl)
resolved_classes t b (inr (inl h)) = rw h (refl, refl)
resolved_classes t true (inr (inr h)) = rw h (refl, refl)
resolved_classes t false (inr (inr h)) = rw h (refl, refl)

apply_theme-IsShown : (p : Page) → IsTheme p.theme → IsShown (apply_theme p)
unfolding apply_theme is_dark
apply_theme-IsShown p h = record {
  theme = h;
  dark_class =
      dark_after (resolve p.theme p.prefers_dark) p.classes
      ∙ (resolved_classes p.theme p.prefers_dark h).0;
  light_class =
      light_after (resolve p.theme p.prefers_dark) p.classes
      ∙ (resolved_classes p.theme p.prefers_dark h).1;
}

-- The first render shows the stored theme, or the default when nothing is stored, provided that it
-- is one of the three.
mount-IsShown :
    (default_theme : Text) (stored : Option Text) (classes : List Text) (prefers_dark : Bool)
    → IsTheme default_theme
    → ((t : Text) → stored ≡ some t → IsTheme t)
    → IsShown (mount default_theme stored classes prefers_dark)
unfolding mount
mount-IsShown default_theme none classes prefers_dark d h = apply_theme-IsShown _ d
mount-IsShown default_theme (some t) classes prefers_dark d h =
    apply_theme-IsShown _ (if_elim IsTheme (truthy t) (λ _. h t refl) (λ _. d))

set_theme-IsShown : (t : Text) (p : Page) → IsTheme t → IsShown p → IsShown (set_theme t p)
unfolding set_theme is_dark
set_theme-IsShown t p h s =
    if_elim IsShown (text_eq t p.theme)
      (λ same.
        let e : p.theme ≡ t = sym ((text_eq_iff t p.theme).0 same) in
        let is_on : Text → Bool = λ x. text_eq x dark || (text_eq x system && p.prefers_dark) in
        record {
          theme = h;
          dark_class = s.dark_class ∙ ap is_on e;
          light_class = s.light_class ∙ ap (λ x. not (is_on x)) e;
        })
      (λ _. apply_theme-IsShown (record p { theme = t; stored = some t }) h)

media_changed-IsShown : (b : Bool) (p : Page) → IsShown p → IsShown (media_changed b p)
unfolding media_changed is_dark
media_changed-IsShown b p s =
    if_elim IsShown (text_eq p.theme system)
      (λ _. apply_theme-IsShown (record p { prefers_dark = b }) s.theme)
      (λ off.
        let e : text_eq p.theme system ≡ false = ground arith in
        let same : (text_eq p.theme dark || (text_eq p.theme system && b)) ≡ is_dark p =
          rw e refl in
        record {
          theme = s.theme;
          dark_class = s.dark_class ∙ sym same;
          light_class = s.light_class ∙ ap not (sym same);
        })

theme_text-IsTheme : (t : Theme) → IsTheme (theme_text t)
theme_text-IsTheme light_theme = inl refl
theme_text-IsTheme dark_theme = inr (inl refl)
theme_text-IsTheme system_theme = inr (inr refl)

act-IsShown : (p : Page) (e : Event) → IsShown p → IsShown (act p e)
unfolding act toggle
act-IsShown p (chosen t) s = set_theme-IsShown (theme_text t) p (theme_text-IsTheme t) s
act-IsShown p (media b) s = media_changed-IsShown b p s
act-IsShown p toggled s =
    set_theme-IsShown (if is_dark p then light else dark) p
      (if_elim IsTheme (is_dark p) (λ _. inl refl) (λ _. inr (inl refl))) s

-- After any run of choices, toggles and changes of the system's preference, the root element carries
-- exactly one of the classes "dark" and "light": "dark" exactly if the chosen theme is dark, or is
-- "system" while the system prefers dark.
run-IsShown : (p : Page) (es : List Event) → IsShown p → IsShown (run p es)
unfolding run
run-IsShown p [] s = s
run-IsShown p (e ∷ es) s = run-IsShown (act p e) es (act-IsShown p e s)

abbrev Chose : Text → Page → Type 0
Chose t p = (p.theme ≡ t) × (p.stored ≡ some t)

set_theme-Chose : (t : Text) (p : Page) → Chose t (set_theme t p)
unfolding set_theme apply_theme
set_theme-Chose t p = if_elim (Chose t) (text_eq t p.theme) (λ _. (refl, refl)) (λ _. (refl, refl))

toggle-Chose : (p : Page) → Chose (if is_dark p then light else dark) (toggle p)
unfolding toggle
toggle-Chose p = set_theme-Chose (if is_dark p then light else dark) p

explicit_is_dark :
    (p q : Page)
    → q.theme ≡ (if is_dark p then light else dark)
    → (is_dark q ≡ not (is_dark p)) × (text_eq q.theme system ≡ false)
unfolding is_dark text_eq
explicit_is_dark p q h = elim (Bool-cases (is_dark p)) [
  | inl now_dark ↦
      let e : q.theme ≡ light = h ∙ ap (λ b. if b then light else dark) now_dark in
      rw (e, now_dark) (refl, refl)
  | inr now_light ↦
      let e : q.theme ≡ dark = h ∙ ap (λ b. if b then light else dark) now_light in
      rw (e, now_light) (refl, refl)
]

unmoved :
    (q : Page) (b : Bool) → text_eq q.theme system ≡ false → (media_changed b q).classes ≡ q.classes
unfolding media_changed
unmoved q b h = rw h refl

-- A toggle turns a dark page light and a light page dark, stores the theme that it chose, and leaves
-- the system's preference without effect.
toggle_lem :
    (p : Page) (b : Bool)
    → IsShown p
    → (is_dark (toggle p) ≡ not (is_dark p))
      × ((has_class dark (toggle p).classes ≡ not (is_dark p))
          × (((toggle p).stored ≡ some (toggle p).theme)
              × ((media_changed b (toggle p)).classes ≡ (toggle p).classes)))
unfolding act
toggle_lem p b s =
    let (t, st) = toggle-Chose p in
    let (flips, explicit) = explicit_is_dark p (toggle p) t in
    let shown = act-IsShown p toggled s in
    (flips, (shown.dark_class ∙ flips, (st ∙ ap some (sym t), unmoved (toggle p) b explicit)))
