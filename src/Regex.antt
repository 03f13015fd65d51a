-- ===== src/Regex.antt =====
-- RegExp.prototype.test on the patterns of frontend/src that have no back reference: a pattern is
-- a regular expression over code units, and a whole text is tested by derivatives.
pub mod Laws
pub mod Classes
use kafka_ui.Base.{
  ℕ, zero, suc, ◌≡◌, Bool, true, false, ◌&&◌, ◌||◌, List, [], ◌∷◌, ◌++◌, if◌then◌else◌, Text, ◌==◌,
  All, concat, ◌⊎◌,
}

pub data Re : Type 0 where
  never empty : Re
  class : (ℕ → Bool) → Re
  seq alt : Re → Re → Re
  star : Re → Re

-- `[...]+`, `...?`, `(...){1,n+1}`, and a literal.
abbrev pub plus : Re → Re
plus r = seq r (star r)

abbrev pub maybe : Re → Re
maybe r = alt empty r

abbrev pub up_to : ℕ → Re → Re
up_to zero r = empty
up_to (suc n) r = maybe (seq r (up_to n r))

abbrev pub unit : ℕ → Re
unit c = class (λ d. d == c)

abbrev pub literal : Text → Re
literal [] = empty
literal (c ∷ t) = seq (unit c) (literal t)

nullable : Re → Bool
nullable never = false
nullable empty = true
nullable (class p) = false
nullable (seq r s) = nullable r && nullable s
nullable (alt r s) = nullable r || nullable s
nullable (star r) = true

-- What is left of a pattern after one code unit.
deriv : ℕ → Re → Re
deriv c never = never
deriv c empty = never
deriv c (class p) = if p c then empty else never
deriv c (seq r s) =
    let rest = seq (deriv c r) s in
    let skip = alt rest (deriv c s) in if nullable r then skip else rest
deriv c (alt r s) = alt (deriv c r) (deriv c s)
deriv c (star r) = seq (deriv c r) (star r)

unfoldable pub matches : Re → Text → Bool
unfolding nullable deriv
matches r [] = nullable r
matches r (c ∷ t) = matches (deriv c r) t

-- The texts that a pattern stands for.
abbrev pub Lang : Re → Text → Type 0
Lang never t = ⊥
Lang empty t = t ≡ []
Lang (class p) t = (c : ℕ) × (t ≡ c ∷ []) × (p c ≡ true)
Lang (seq r s) t = (u : Text) × (v : Text) × (t ≡ u ++ v) × Lang r u × Lang s v
Lang (alt r s) t = Lang r t ⊎ Lang s t
Lang (star r) t = (us : List Text) × (t ≡ concat us) × All (Lang r) us
