-- ===== src/Schemas/Detail/Laws.antt =====
-- The order of the versions on SchemaDetailPage.tsx, and which of them is shown.
use mathlib.Core.List.{Perm}
use mathlib.Core.List.Perm
use kafka_ui.Base.{
  ℕ, ◌≡◌, ◌≢◌, ◌≤◌, ◌==◌, refl, ap, sym, ◌∙◌, leb, Option, none, some, List, [], ◌∷◌, All,
  All-get_elem?, All-map, get_elem?, if_elim, Bool-cases, Option-cases, List-cases, inl, inr, arith,
}
use kafka_ui.Schemas.Detail.{
  SchemaVersion, insert_version, sorted_versions, find_version, active_schema, view_clicked,
}

abbrev pub IsDescending : List SchemaVersion → Type 0
IsDescending [] = Unit
IsDescending (v ∷ vs) = All (λ (w : SchemaVersion). w.version ≤ v.version) vs × IsDescending vs

insert_version-perm :
    (v : SchemaVersion) (ws : List SchemaVersion) → Perm (insert_version v ws) (v ∷ ws)
unfolding insert_version
insert_version-perm v [] = Perm.rfl
insert_version-perm v (w ∷ ws) =
    if_elim (λ xs. Perm xs (v ∷ w ∷ ws)) (leb w.version v.version) (λ _. Perm.rfl)
      (λ _. Perm.trans (Perm.cons w (insert_version-perm v ws)) (Perm.swap v w ws))

sorted_versions-perm : (vs : List SchemaVersion) → Perm (sorted_versions vs) vs
unfolding sorted_versions
sorted_versions-perm [] = Perm.rfl
sorted_versions-perm (v ∷ vs) =
    Perm.trans (insert_version-perm v (sorted_versions vs)) (Perm.cons v (sorted_versions-perm vs))

module _ (P : SchemaVersion → Type 0) where
  All-insert_version :
      (v : SchemaVersion) (ws : List SchemaVersion) → P v → All P ws → All P (insert_version v ws)
  unfolding insert_version
  All-insert_version v [] p h = (p, tt)
  All-insert_version v (w ∷ ws) p h =
      if_elim (All P) (leb w.version v.version) (λ _. (p, h))
        (λ _. (h.0, All-insert_version v ws p h.1))

  All-sorted_versions : (vs : List SchemaVersion) → All P vs → All P (sorted_versions vs)
  unfolding sorted_versions
  All-sorted_versions [] h = tt
  All-sorted_versions (v ∷ vs) h =
      All-insert_version v (sorted_versions vs) h.0 (All-sorted_versions vs h.1)

  insert_version-All :
      (v : SchemaVersion) (ws : List SchemaVersion) → All P (insert_version v ws) → P v × All P ws
  unfolding insert_version
  insert_version-All v [] h = h
  insert_version-All v (w ∷ ws) h =
      if_elim (λ xs. All P xs → P v × (P w × All P ws)) (leb w.version v.version) (λ _ k. k)
        (λ _ k. let (p, rest) = insert_version-All v ws k.1 in (p, (k.0, rest))) h

  sorted_versions-All : (vs : List SchemaVersion) → All P (sorted_versions vs) → All P vs
  unfolding sorted_versions
  sorted_versions-All [] h = tt
  sorted_versions-All (v ∷ vs) h =
      let (p, rest) = insert_version-All v (sorted_versions vs) h in
      (p, sorted_versions-All vs rest)

insert_version-IsDescending :
    (v : SchemaVersion) (ws : List SchemaVersion)
    → IsDescending ws
    → IsDescending (insert_version v ws)
unfolding insert_version
insert_version-IsDescending v [] h = (tt, tt)
insert_version-IsDescending v (w ∷ ws) h =
    if_elim IsDescending (leb w.version v.version)
      (λ t.
        let le : w.version ≤ v.version = ground arith in
        ((le, All-map _ _ (λ x (b : x.version ≤ w.version). omega arith) ws h.0), h))
      (λ t. (
        All-insert_version (λ (x : SchemaVersion). x.version ≤ w.version) v ws (ground arith) h.0,
        insert_version-IsDescending v ws h.1,
      ))

sorted_versions-IsDescending : (vs : List SchemaVersion) → IsDescending (sorted_versions vs)
unfolding sorted_versions
sorted_versions-IsDescending [] = tt
sorted_versions-IsDescending (v ∷ vs) =
    insert_version-IsDescending v (sorted_versions vs) (sorted_versions-IsDescending vs)

-- The table lists the versions of the schema, each as often as the server does, the greatest first.
sorted_versions_lem :
    (vs : List SchemaVersion) → Perm (sorted_versions vs) vs × IsDescending (sorted_versions vs)
sorted_versions_lem vs = (sorted_versions-perm vs, sorted_versions-IsDescending vs)

-- A version that is not found is none of the list's.
find_version-none :
    (n : ℕ) (vs : List SchemaVersion)
    → find_version n vs ≡ none
    → All (λ (v : SchemaVersion). v.version ≢ n) vs
unfolding find_version
find_version-none n [] h = tt
find_version-none n (v ∷ vs) h = elim (Bool-cases (v.version == n)) [
  | inl e ↦ absurd (ground arith)
  | inr e ↦ (ground arith, find_version-none n vs (ground arith))
]

find_version-some :
    (n : ℕ) (vs : List SchemaVersion) (v : SchemaVersion)
    → find_version n vs ≡ some v
    → v.version ≡ n
unfolding find_version
find_version-some n [] v h = absurd (cc)
find_version-some n (w ∷ vs) v h = elim (Bool-cases (w.version == n)) [
  | inl e ↦
      let same : w ≡ v = ground arith in
      sym (ap (λ (x : SchemaVersion). x.version) same) ∙ ground arith
  | inr e ↦ find_version-some n vs v (ground arith)
]

-- What stands in the sorted list is found.
listed-found :
    (vs : List SchemaVersion) (i : ℕ) (w : SchemaVersion)
    → get_elem? (sorted_versions vs) i ≡ some w
    → (v : SchemaVersion) × (find_version w.version vs ≡ some v) × (v.version ≡ w.version)
listed-found vs i w at = elim (Option-cases (find_version w.version vs)) [
  | inl e ↦ absurd (
      All-get_elem? (λ (v : SchemaVersion). v.version ≢ w.version) (sorted_versions vs) i w
        (All-sorted_versions _ vs (find_version-none w.version vs e)) at refl)
  | inr (v, e) ↦ (v, e, find_version-some w.version vs v e)
]

insert_version-nonempty : (v : SchemaVersion) (ws : List SchemaVersion) → insert_version v ws ≢ []
unfolding insert_version
insert_version-nonempty v [] = cc
insert_version-nonempty v (w ∷ ws) =
    if_elim (λ xs. xs ≢ []) (leb w.version v.version) (λ _. cc) (λ _. cc)

sorted_empty : (vs : List SchemaVersion) → sorted_versions vs ≡ [] → vs ≡ []
unfolding sorted_versions
sorted_empty [] e = refl
sorted_empty (v ∷ vs) e = absurd (insert_version-nonempty v (sorted_versions vs) e)

nonempty_of_listed :
    (vs : List SchemaVersion) (i : ℕ) (w : SchemaVersion)
    → get_elem? (sorted_versions vs) i ≡ some w
    → vs ≢ []
unfolding sorted_versions
nonempty_of_listed [] i w at = absurd (cc)
nonempty_of_listed (v ∷ vs) i w at = cc

active_of_latest :
    (vs : List SchemaVersion) (s : SchemaVersion) (ss : List SchemaVersion)
    → sorted_versions vs ≡ s ∷ ss
    → active_schema none vs ≡ find_version s.version vs
unfolding active_schema
active_of_latest vs s ss e = rw (e, active_schema) refl

active_of_click :
    (vs : List SchemaVersion) (i : ℕ) (w : SchemaVersion) (selected : Option ℕ)
    → get_elem? (sorted_versions vs) i ≡ some w
    → active_schema (view_clicked i vs selected) vs ≡ find_version w.version vs
unfolding active_schema view_clicked
active_of_click vs i w selected at = rw (at, view_clicked, active_schema) refl

latest-active :
    (vs : List SchemaVersion)
    → vs ≢ []
    → (v : SchemaVersion) × (active_schema none vs ≡ some v)
      × All (λ (w : SchemaVersion). w.version ≤ v.version) vs
latest-active vs some_there = elim (List-cases (sorted_versions vs)) [
  | inl e ↦ absurd (some_there (sorted_empty vs e))
  | inr (s, ss, e) ↦
      let (v, found, same) = listed-found vs 0 s (ap (λ xs. get_elem? xs 0) e) in
      let below : All (λ (w : SchemaVersion). w.version ≤ s.version) (sorted_versions vs) =
        rw e (omega arith, (rw e at (sorted_versions-IsDescending vs)).0) in
      (
        v,
        active_of_latest vs s ss e ∙ found,
        All-map _ _ (λ x (b : x.version ≤ s.version). omega arith) vs
            (sorted_versions-All _ vs below),
      )
]

-- If there are versions, one with the greatest number is shown at first; and a click on the button of
-- a version shows one with that version's number, whatever was selected before.
pub active_schema_lem :
    (vs : List SchemaVersion) (i : ℕ) (w : SchemaVersion) (selected : Option ℕ)
    → get_elem? (sorted_versions vs) i ≡ some w
    → ((v : SchemaVersion) × (active_schema none vs ≡ some v)
        × All (λ (u : SchemaVersion). u.version ≤ v.version) vs)
      × ((v : SchemaVersion) × (active_schema (view_clicked i vs selected) vs ≡ some v)
          × (v.version ≡ w.version))
active_schema_lem vs i w selected at =
    let (v, found, same) = listed-found vs i w at in
    (
      latest-active vs (nonempty_of_listed vs i w at),
      (v, active_of_click vs i w selected at ∙ found, same),
    )
