-- ===== src/Nav/Laws.antt =====
-- Which links of AppSidebar.tsx are marked.
use kafka_ui.Base.{
  apart, at_most_one, suc, ◌≡◌, ◌≢◌, ◌≤◌, ◌+◌, ◌==◌, refl, ap, ap₂, ◌∙◌, Bool, true, false, not,
  ◌&&◌, ◌||◌, some, List, [], ◌∷◌, ◌++◌, map, keep, any, all, length, if◌then◌else◌, Text, truthy,
  text_eq, text_eq_refl, text_eq_iff, starts_with, and_parts, Bool-cases, inl, inr, arith, All,
}
use kafka_ui.Nav.{
  Link, cluster_nav_items, cluster_path, section_link, sections_of, section_links, cluster_link,
  cluster_links,
}

-- Whether one of two texts starts with the other.
abbrev comparable : Text → Text → Bool
comparable u v = starts_with u v || starts_with v u

-- Two texts that a third starts with are comparable.
starts-comparable :
    (t u v : Text) → starts_with t u ≡ true → starts_with t v ≡ true → comparable u v ≡ true
unfolding starts_with
starts-comparable t [] [] h k = refl
starts-comparable t [] (d ∷ v) h k = ground arith
starts-comparable t (c ∷ u) [] h k = ground arith
starts-comparable [] (c ∷ u) (d ∷ v) h k = absurd (cc)
starts-comparable (a ∷ t) (c ∷ u) (d ∷ v) h k =
    let (first, later) = and_parts (a == c) (starts_with t u) h in
    let (second, last) = and_parts (a == d) (starts_with t v) k in
    let rest = starts-comparable t u v later last in ground arith

-- A common start makes no difference.
starts_with_cancel : (b u v : Text) → starts_with (b ++ u) (b ++ v) ≡ starts_with u v
unfolding starts_with
starts_with_cancel [] u v = refl
starts_with_cancel (c ∷ b) u v = ground (arith, starts_with_cancel b u v)

apart-map :
    (b : Text) (us : List Text) → apart comparable (map (λ u. b ++ u) us) ≡ apart comparable us
apart-map b [] = refl
apart-map b (u ∷ us) = ap₂ (λ x y. x && y) (head us) (apart-map b us)
  where
    head :
        (vs : List Text)
        → all (λ v. not (comparable (b ++ u) v)) (map (λ w. b ++ w) vs)
          ≡ all (λ v. not (comparable u v)) vs
    head [] = refl
    head (v ∷ vs) = rw (starts_with_cancel b u v, starts_with_cancel b v u, head vs) refl

abbrev paths : List (Text × Text) → List Text
paths = map (λ (item : Text × Text). item.1)

nav_items-apart : apart comparable (paths cluster_nav_items) ≡ true
unfolding starts_with
nav_items-apart = refl

abbrev is_marked : Link → Bool
is_marked l = l.is_active

-- The marked sections of a cluster are those whose address the path starts with.
sections-length :
    (pathname name : Text) (items : List (Text × Text))
    → length (keep is_marked (map (section_link pathname name) items))
      ≡ length (keep (starts_with pathname) (map (λ u. cluster_path name ++ u) (paths items)))
sections-length pathname name [] = refl
sections-length pathname name (item ∷ items) =
    let rest = sections-length pathname name items in
    elim (Bool-cases (starts_with pathname (cluster_path name ++ item.1))) [
      | inl e ↦ rw e (ap suc rest)
      | inr e ↦ rw e rest
    ]

count_step {ℓ} :
    {A : Type ℓ} (t a : Bool) (x : A) (xs : List A)
    → (length xs ≤ 1 → length xs ≡ (if a then 1 else 0))
    → length (if t then x ∷ xs else xs) ≤ 1
    → length (if t then x ∷ xs else xs) ≡ (if t || a then 1 else 0)
count_step true a x xs rest h = omega arith
count_step false a x xs rest h = rest h

-- Where at most one element passes a test, there is one exactly if any does.
count_of_any {ℓ} :
    {A : Type ℓ} (f : A → Bool) (xs : List A)
    → length (keep f xs) ≤ 1
    → length (keep f xs) ≡ (if any f xs then 1 else 0)
count_of_any f [] h = refl
count_of_any f (x ∷ xs) h = count_step (f x) (any f xs) x (keep f xs) (count_of_any f xs) h

any-map :
    (pathname name : Text) (items : List (Text × Text))
    → any is_marked (map (section_link pathname name) items)
      ≡ any (λ (item : Text × Text). starts_with pathname (cluster_path name ++ item.1)) items
any-map pathname name [] = refl
any-map pathname name (item ∷ items) = rw (any-map pathname name items) refl

sections_count :
    (pathname name : Text)
    → length (keep is_marked (sections_of pathname name)) ≡ (
        if any
          (λ (item : Text × Text). starts_with pathname (cluster_path name ++ item.1))
          cluster_nav_items
        then 1
        else 0)
sections_count pathname name =
    let few : length (keep is_marked (sections_of pathname name)) ≤ 1 =
      rw (sections-length pathname name cluster_nav_items) (
        at_most_one (starts_with pathname) comparable (starts-comparable pathname)
          (map (λ u. cluster_path name ++ u) (paths cluster_nav_items))
          (apart-map (cluster_path name) (paths cluster_nav_items) ∙ nav_items-apart)) in
    count_of_any is_marked (sections_of pathname name) few
    ∙ ap (λ b. if b then 1 else 0) (any-map pathname name cluster_nav_items)

-- The links of the other clusters.
others_unmarked :
    (pathname name : Text) (names : List Text)
    → All (λ n. name ≢ n) names
    → keep is_marked (map (cluster_link pathname (some name)) names) ≡ []
unfolding cluster_link
others_unmarked pathname name [] h = refl
others_unmarked pathname name (n ∷ ns) h = elim (Bool-cases (text_eq name n)) [
  | inl e ↦ absurd (h.0 ((text_eq_iff name n).0 e))
  | inr e ↦ rw e (others_unmarked pathname name ns h.1)
]

abbrev in_section : Text → Text → Bool
in_section pathname name =
    any (λ (item : Text × Text). starts_with pathname (cluster_path name ++ item.1))
      cluster_nav_items

own_count :
    (pathname name : Text) (after : List Text)
    → All (λ n. name ≢ n) after
    → length (keep is_marked (map (cluster_link pathname (some name)) (name ∷ after)))
      ≡ (if in_section pathname name then 0 else 1)
unfolding cluster_link
own_count pathname name after h =
    rw (others_unmarked pathname name after h, text_eq_refl name)
      (elim (Bool-cases (in_section pathname name)) [ inl e ↦ rw e refl | inr e ↦ rw e refl ])

clusters_count :
    (pathname name : Text) (before after : List Text)
    → All (λ n. name ≢ n) before
    → All (λ n. name ≢ n) after
    → length (keep is_marked (map (cluster_link pathname (some name)) (before ++ name ∷ after)))
      ≡ (if in_section pathname name then 0 else 1)
unfolding cluster_link
clusters_count pathname name [] after b a = own_count pathname name after a
clusters_count pathname name (n ∷ ns) after b a = elim (Bool-cases (text_eq name n)) [
  | inl e ↦ absurd (b.0 ((text_eq_iff name n).0 e))
  | inr e ↦ rw e (clusters_count pathname name ns after b.1 a)
]

sections_shown :
    (pathname name : Text)
    → truthy name ≡ true
    → section_links pathname (some name) ≡ sections_of pathname name
unfolding section_links
sections_shown pathname name named = rw named refl

complement : (b : Bool) → (if b then 0 else 1) + (if b then 1 else 0) ≡ 1
complement true = refl
complement false = refl

-- On any page of a listed cluster, one link of the sidebar's lower part is marked, and no more: the
-- link of one of its sections, or the cluster's own. The names of the clusters are different.
pub one_marked :
    (pathname name : Text) (before after : List Text)
    → truthy name ≡ true
    → All (λ n. name ≢ n) before
    → All (λ n. name ≢ n) after
    → length (
          keep
            (λ l. l.is_active)
            (cluster_links pathname (some name) (some (before ++ name ∷ after))))
        + length (keep (λ l. l.is_active) (section_links pathname (some name)))
      ≡ 1
unfolding cluster_links
one_marked pathname name before after named b a =
    ap₂ (λ m n. m + n) (clusters_count pathname name before after b a)
      (ap (λ ls. length (keep is_marked ls)) (sections_shown pathname name named)
        ∙ sections_count pathname name)
    ∙ complement (in_section pathname name)
