-- ===== src/Nav/Tabs.antt =====
-- frontend/src/components/TopicTabs.tsx: which of a topic's two tabs is marked.
use mathlib.Core.Path.{subst}
use kafka_ui.Base.{
  ◌≡◌, ◌↔◌, ◌==◌, refl, ap, sym, ◌∙◌, Bool, true, false, not, ◌||◌, [], ◌∷◌, ◌++◌, all, Text, codes,
  text_eq, text_eq_iff, text_eq_refl, Bool-cases, inl, inr, arith, append_assoc,
}

-- `t.endsWith(u)`
unfoldable pub ends_with : Text → Text → Bool
ends_with [] u = text_eq [] u
ends_with (c ∷ t) u = text_eq (c ∷ t) u || ends_with t u

abbrev pub base_path : Text → Text → Text
base_path cluster topic = codes "/clusters/" ++ (cluster ++ (codes "/topics/" ++ topic))

-- The tab "Messages" is marked; otherwise "Details" is.
abbrev pub is_messages : Text → Bool
is_messages pathname = ends_with pathname (codes "/messages")

abbrev pub messages_href : Text → Text → Text
messages_href cluster topic = base_path cluster topic ++ codes "/messages"

ends_with_start : (t u : Text) → ends_with t u ≡ true → (a : Text) × (t ≡ a ++ u)
unfolding ends_with
ends_with_start [] u h = ([], (text_eq_iff [] u).0 h)
ends_with_start (c ∷ t) u h = elim (Bool-cases (text_eq (c ∷ t) u)) [
  | inl e ↦ ([], (text_eq_iff (c ∷ t) u).0 e)
  | inr e ↦ let (a, f) = ends_with_start t u (ground arith) in (c ∷ a, ap (c ∷◌) f)
]

ends_with_append : (a u : Text) → ends_with (a ++ u) u ≡ true
unfolding ends_with
ends_with_append [] [] = text_eq_refl []
ends_with_append [] (c ∷ u) = rw (text_eq_refl (c ∷ u)) refl
ends_with_append (c ∷ a) u = ground (arith, ends_with_append a u)

-- A text with no slash, such as a segment of a path.
abbrev pub has_no_slash : Text → Bool
has_no_slash = all (λ c. not (c == b'/'))

slash_inside : (a t : Text) → has_no_slash (a ++ (b'/' ∷ t)) ≡ false
slash_inside [] t = refl
slash_inside (c ∷ a) t = ground (arith, slash_inside a t)

-- What follows the last slash.
last_segment :
    (x a t u : Text)
    → has_no_slash t ≡ true
    → has_no_slash u ≡ true
    → x ++ (b'/' ∷ t) ≡ a ++ (b'/' ∷ u)
    → t ≡ u
last_segment [] [] t u ht hu e = cc
last_segment [] (c ∷ a) t u ht hu e =
    let f : t ≡ a ++ (b'/' ∷ u) = cc in
    let g : has_no_slash t ≡ false = rw f (slash_inside a u) in absurd (ground arith)
last_segment (c ∷ x) [] t u ht hu e =
    let f : x ++ (b'/' ∷ t) ≡ u = cc in
    let g : has_no_slash u ≡ false = rw (sym f) (slash_inside x t) in absurd (ground arith)
last_segment (c ∷ x) (d ∷ a) t u ht hu e =
    let f : x ++ (b'/' ∷ t) ≡ a ++ (b'/' ∷ u) = cc in last_segment x a t u ht hu f

base_path-last :
    (cluster topic : Text)
    → base_path cluster topic
      ≡ (codes "/clusters/" ++ (cluster ++ codes "/topics")) ++ (b'/' ∷ topic)
base_path-last cluster topic = simp append_assoc

-- The link "Messages" leads to a page that marks it. The page that "Details" leads to marks
-- "Messages" too if the topic is named "messages", and otherwise does not. The topic's name has no
-- slash, and the router's path is the link's.
pub is_messages_iff :
    (cluster topic : Text)
    → has_no_slash topic ≡ true
    → (is_messages (messages_href cluster topic) ≡ true)
      × ((is_messages (base_path cluster topic) ≡ true) ↔ (topic ≡ codes "messages"))
is_messages_iff cluster topic h = (
  ends_with_append (base_path cluster topic) (codes "/messages"),
  (
    λ e.
        let (a, f) = ends_with_start (base_path cluster topic) (codes "/messages") e in
        last_segment (codes "/clusters/" ++ (cluster ++ codes "/topics")) a topic (codes "messages")
          h refl (sym (base_path-last cluster topic) ∙ f),
    λ e.
        subst (λ p. is_messages p ≡ true)
          (sym (ap (base_path cluster) e ∙ base_path-last cluster (codes "messages")))
          (ends_with_append (codes "/clusters/" ++ (cluster ++ codes "/topics"))
            (codes "/messages")),
  ),
)
