-- ===== src/Regex/Laws.antt =====
-- The derivative matcher decides the language of a pattern.
use kafka_ui.Base.{
  ℕ, ◌≡◌, refl, sym, ap, ◌∙◌, ◌↔◌, inl, inr, true, List, [], ◌∷◌, ◌++◌, Text, All, concat,
  Bool-cases, and_parts, arith,
}
use kafka_ui.Regex.{Re, never, empty, class, seq, alt, star, nullable, deriv, matches, Lang}

nullable_sound : (r : Re) → nullable r ≡ true → Lang r []
unfolding nullable
nullable_sound never h = cc
nullable_sound empty h = refl
nullable_sound (class p) h = cc
nullable_sound (seq r s) h =
    let (a, b) = and_parts (nullable r) (nullable s) h in
    ([], [], refl, nullable_sound r a, nullable_sound s b)
nullable_sound (alt r s) h = elim (Bool-cases (nullable r)) [
  | inl a ↦ inl (nullable_sound r a)
  | inr b ↦ inr (nullable_sound s (ground arith))
]
nullable_sound (star r) h = ([], refl, tt)

nil_parts : (u v : Text) → [] ≡ u ++ v → (u ≡ []) × (v ≡ [])
nil_parts [] v h = (refl, sym h)
nil_parts (c ∷ u) v h = cc

nullable_complete : (r : Re) → Lang r [] → nullable r ≡ true
unfolding nullable
nullable_complete never h = absurd h
nullable_complete empty h = refl
nullable_complete (class p) (c, e, h) = cc
nullable_complete (seq r s) (u, v, e, a, b) =
    let (p, q) = nil_parts u v e in
    let x : nullable r ≡ true = nullable_complete r (rw p at a) in
    let y : nullable s ≡ true = nullable_complete s (rw q at b) in rw (x, y)
nullable_complete (alt r s) (inl a) = rw (nullable_complete r a)
nullable_complete (alt r s) (inr b) =
    let y : nullable s ≡ true = nullable_complete s b in ground arith
nullable_complete (star r) h = refl

deriv_sound : (c : ℕ) (r : Re) (t : Text) → Lang (deriv c r) t → Lang r (c ∷ t)
unfolding deriv
deriv_sound c never t h = absurd h
deriv_sound c empty t h = absurd h
deriv_sound c (class p) t h = elim (Bool-cases (p c)) [
  | inl e ↦ let f : t ≡ [] = rw e at h in (c, ap (c ∷◌) f, e)
  | inr e ↦ absurd (rw e at h)
]
deriv_sound c (seq r s) t h = elim (Bool-cases (nullable r)) [
  | inl e ↦ elim (let g : Lang (alt (seq (deriv c r) s) (deriv c s)) t = rw e at h in g) [
    | inl (u, v, f, a, b) ↦ (c ∷ u, v, ap (c ∷◌) f, deriv_sound c r u a, b)
    | inr b ↦ ([], c ∷ t, refl, nullable_sound r e, deriv_sound c s t b)
  ]
  | inr e ↦
      let (u, v, f, a, b) = (let g : Lang (seq (deriv c r) s) t = rw e at h in g) in
      (c ∷ u, v, ap (c ∷◌) f, deriv_sound c r u a, b)
]
deriv_sound c (alt r s) t (inl a) = inl (deriv_sound c r t a)
deriv_sound c (alt r s) t (inr b) = inr (deriv_sound c s t b)
deriv_sound c (star r) t (u, v, e, a, (us, f, h)) =
    ((c ∷ u) ∷ us, ap (c ∷◌) (e ∙ ap (u ++◌) f), (deriv_sound c r u a, h))

-- A nonempty text of a starred pattern has a first piece that is not empty.
star_step :
    (c : ℕ) (r : Re) (t : Text) (us : List Text)
    → c ∷ t ≡ concat us
    → All (Lang r) us
    → (u : Text) × (v : Text) × (t ≡ u ++ v) × Lang r (c ∷ u) × Lang (star r) v
star_step c r t [] e h = cc
star_step c r t ([] ∷ us) e (a, h) = star_step c r t us e h
star_step c r t ((d ∷ u) ∷ us) e (a, h) =
    let same : c ≡ d = cc in (u, concat us, cc, rw same a, (us, refl, h))

deriv_complete : (c : ℕ) (r : Re) (t : Text) → Lang r (c ∷ t) → Lang (deriv c r) t
unfolding deriv
deriv_complete c never t h = absurd h
deriv_complete c empty t h = cc
deriv_complete c (class p) t (d, e, h) =
    let same : c ≡ d = cc in rw (same, h) (let f : t ≡ [] = cc in f)
deriv_complete c (seq r s) t ([], v, e, a, b) =
    rw (nullable_complete r a) (inr (deriv_complete c s t (rw e b)))
deriv_complete c (seq r s) t (d ∷ u, v, e, a, b) =
    let same : c ≡ d = cc in
    let first : Lang (deriv c r) u = deriv_complete c r u (rw same a) in
    let both : Lang (seq (deriv c r) s) t = (u, v, cc, first, b) in
    elim (Bool-cases (nullable r)) [ inl n ↦ rw n (inl both) | inr n ↦ rw n both ]
deriv_complete c (alt r s) t (inl a) = inl (deriv_complete c r t a)
deriv_complete c (alt r s) t (inr b) = inr (deriv_complete c s t b)
deriv_complete c (star r) t (us, e, h) =
    let (u, v, f, a, rest) = star_step c r t us e h in (u, v, f, deriv_complete c r u a, rest)

-- A pattern matches a text exactly if the text is in the pattern's language.
pub matches_iff : (r : Re) (t : Text) → (matches r t ≡ true) ↔ Lang r t
unfolding matches
matches_iff r [] = (nullable_sound r, nullable_complete r)
matches_iff r (c ∷ t) = (
  λ h. deriv_sound c r t ((matches_iff (deriv c r) t).0 h),
  λ h. (matches_iff (deriv c r) t).1 (deriv_complete c r t h),
)
