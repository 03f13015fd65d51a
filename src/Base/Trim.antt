-- ===== src/Base/Trim.antt =====
-- What `trim` and `split` do to a text that is built from known parts.
use Prim.Native.Nat.{ℕ}
use mathlib.Core.Path.{◌≡◌, refl, ap, ◌∙◌}
use mathlib.Core.Bool.{true, false, not, ◌&&◌}
use mathlib.Core.List.{[], ◌∷◌, ◌++◌}
use native.Mathlib.Omega.{arith}
use mathlib.Core.Logic.{inl, inr}
use kafka_ui.Base.Tests.{◌==◌, Bool-cases, ==_iff}
use kafka_ui.Base.Lists.{All}
use kafka_ui.Base.Strings.{Text, is_space, trim_start, trim_end, trim, truthy, split}

abbrev pub IsBlank : Text → Type 0
IsBlank = All (λ c. is_space c ≡ true)

abbrev pub IsSolid : Text → Type 0
IsSolid = All (λ c. is_space c ≡ false)

abbrev pub HasNo : ℕ → Text → Type 0
HasNo sep = All (λ c. (c == sep) ≡ false)

trim_start_parts : (t : Text) → (w : Text) × (t ≡ w ++ trim_start t) × IsBlank w
unfolding trim_start
trim_start_parts [] = ([], refl, tt)
trim_start_parts (c ∷ t) = elim (Bool-cases (is_space c)) [
  | inl e ↦ let (w, f, h) = trim_start_parts t in (c ∷ w, rw (e, trim_start) (ap (c ∷◌) f), (e, h))
  | inr e ↦ ([], rw (e, trim_start) refl, tt)
]

trim_end-IsBlank : (t : Text) → truthy (trim_end t) ≡ false → IsBlank t
unfolding trim_end
trim_end-IsBlank [] h = tt
trim_end-IsBlank (c ∷ t) h = ground (arith, trim_end-IsBlank t)

trim_end_parts : (t : Text) → (v : Text) × (t ≡ trim_end t ++ v) × IsBlank v
unfolding trim_end
trim_end_parts [] = ([], refl, tt)
trim_end_parts (c ∷ t) = elim (Bool-cases (is_space c && not (truthy (trim_end t)))) [
  | inl e ↦ (c ∷ t, rw e refl, (ground arith, trim_end-IsBlank t (ground arith)))
  | inr e ↦ let (v, f, h) = trim_end_parts t in (v, rw e (ap (c ∷◌) f), h)
]

-- A text is its trimmed part between two blank ones.
pub trim_parts :
    (t : Text) → (w : Text) × (v : Text) × (t ≡ w ++ (trim t ++ v)) × IsBlank w × IsBlank v
unfolding trim
trim_parts t =
    let (w, e, h) = trim_start_parts t in
    let (v, f, k) = trim_end_parts (trim_start t) in (w, v, e ∙ ap (w ++◌) f, h, k)

trim_start-append : (w t : Text) → IsBlank w → trim_start (w ++ t) ≡ trim_start t
unfolding trim_start
trim_start-append [] t h = refl
trim_start-append (c ∷ w) t (e, h) = rw (e, trim_start) (trim_start-append w t h)

trim_end_of_blank : (v : Text) → IsBlank v → trim_end v ≡ []
unfolding trim_end
trim_end_of_blank [] h = refl
trim_end_of_blank (c ∷ v) (e, h) = rw (e, trim_end_of_blank v h)

trim_end_of_solid : (t v : Text) → IsSolid t → IsBlank v → trim_end (t ++ v) ≡ t
unfolding trim_end
trim_end_of_solid [] v h k = trim_end_of_blank v k
trim_end_of_solid (c ∷ t) v (e, h) k = rw (e, trim_end_of_solid t v h k)

trim_start_of_blank : (v : Text) → IsBlank v → trim_start v ≡ []
unfolding trim_start
trim_start_of_blank [] h = refl
trim_start_of_blank (c ∷ v) (e, h) = rw (e, trim_start) (trim_start_of_blank v h)

-- Blanks around a part with none inside are cut off.
pub trim-append : (w t v : Text) → IsBlank w → IsSolid t → IsBlank v → trim (w ++ (t ++ v)) ≡ t
unfolding trim trim_end
trim-append w [] v hw ht hv = rw (trim_start-append w v hw, trim_start_of_blank v hv)
trim-append w (c ∷ t) v hw (e, ht) hv =
    rw (trim_start-append w (c ∷ (t ++ v)) hw)
      (rw (e, trim_start) (trim_end_of_solid (c ∷ t) v (e, ht) hv))

-- `split` cuts at the first separator, and goes on behind it.
pub split-append :
    (sep : ℕ) (t u : Text) → HasNo sep t → split sep (t ++ (sep ∷ u)) ≡ t ∷ split sep u
unfolding split
split-append sep [] u h = rw ((==_iff sep sep).1 refl)
split-append sep (c ∷ t) u (e, h) = rw (e, split-append sep t u h)

pub split_whole : (sep : ℕ) (t : Text) → HasNo sep t → split sep t ≡ t ∷ []
unfolding split
split_whole sep [] h = refl
split_whole sep (c ∷ t) (e, h) = rw (e, split_whole sep t h)
