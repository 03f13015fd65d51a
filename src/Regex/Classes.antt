-- ===== src/Regex/Classes.antt =====
-- The languages of the patterns that the source writes with a class: `[...]+`, `\d{1,5}`, `\s*`.
use kafka_ui.Base.{
  ℕ, zero, suc, ◌≤◌, ◌≡◌, ◌≢◌, refl, sym, ap, ◌∙◌, ◌↔◌, inl, inr, Bool, true, List, [], ◌∷◌, ◌++◌,
  Text, All, concat, arith, length,
}
use kafka_ui.Regex.{class, star, unit, up_to, plus, Lang}

module _ (p : ℕ → Bool) where
  abbrev pub InClass : Text → Type 0
  InClass = All (λ c. p c ≡ true)

  pieces_in : (us : List Text) → All (Lang (class p)) us → InClass (concat us)
  pieces_in [] h = tt
  pieces_in (u ∷ us) ((c, e, k), h) = rw e (k, pieces_in us h)

  singles : Text → List Text
  singles [] = []
  singles (c ∷ t) = (c ∷ []) ∷ singles t

  concat-singles : (t : Text) → t ≡ concat (singles t)
  unfolding singles
  concat-singles [] = refl
  concat-singles (c ∷ t) = ap (c ∷◌) (concat-singles t)

  singles_in : (t : Text) → InClass t → All (Lang (class p)) (singles t)
  unfolding singles
  singles_in [] h = tt
  singles_in (c ∷ t) (k, h) = ((c, refl, k), singles_in t h)

  pub star-class_iff : (t : Text) → Lang (star (class p)) t ↔ InClass t
  star-class_iff t = (
    λ h. let (us, e, k) = h in rw e (pieces_in us k),
    λ h. (singles t, concat-singles t, singles_in t h),
  )

  pub plus-class_iff : (t : Text) → Lang (plus (class p)) t ↔ (InClass t × (t ≢ []))
  plus-class_iff t = (
    λ h.
        let (u, v, e, (c, f, k), s) = h in
        let same : t ≡ c ∷ v = e ∙ ap (λ (x : Text). x ++ v) f in
        (rw same (k, (star-class_iff v).0 s), (λ n. let bad : c ∷ v ≡ [] = sym same ∙ n in cc)),
    λ h. some_more t h.0 h.1,
  )
    where
      some_more : (u : Text) → InClass u → u ≢ [] → Lang (plus (class p)) u
      some_more [] h n = absurd (n refl)
      some_more (c ∷ u) (k, h) n = (c ∷ [], u, refl, (c, refl, k), (star-class_iff u).1 h)

  pub up_to-class_sound :
      (n : ℕ) (t : Text) → Lang (up_to n (class p)) t → InClass t × (length t ≤ n)
  up_to-class_sound zero t h = rw h (tt, omega arith)
  up_to-class_sound (suc n) t (inl h) = rw h (tt, omega arith)
  up_to-class_sound (suc n) t (inr (u, v, e, (c, f, k), s)) =
      let (a, b) = up_to-class_sound n v s in
      let same : t ≡ c ∷ v = e ∙ ap (λ (x : Text). x ++ v) f in rw same ((k, a), omega arith)

  pub up_to-class_complete :
      (n : ℕ) (t : Text) → InClass t → length t ≤ n → Lang (up_to n (class p)) t
  up_to-class_complete zero [] h k = refl
  up_to-class_complete zero (c ∷ t) h k = absurd (omega arith)
  up_to-class_complete (suc n) [] h k = inl refl
  up_to-class_complete (suc n) (c ∷ t) (q, h) k =
      inr (c ∷ [], t, refl, (c, refl, q), up_to-class_complete n t h (omega arith))

pub unit_iff : (c : ℕ) (t : Text) → Lang (unit c) t ↔ (t ≡ c ∷ [])
unit_iff c t = (
  λ h. let (d, e, k) = h in let same : d ≡ c = ground arith in rw (← same) e,
  λ h. (c, h, ground arith),
)
