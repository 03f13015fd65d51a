-- ===== src/Base/Includes.antt =====
-- What `startsWith` and `includes` say of two texts.
use Prim.Native.Nat.{ℕ, zero, suc}
use mathlib.Core.Path.{◌≡◌, refl, ap, ◌∙◌}
use mathlib.Core.Logic.{◌↔◌, inl, inr}
use mathlib.Core.Bool.{true}
use mathlib.Core.List.{List, [], ◌∷◌, ◌++◌, append_assoc}
use mathlib.Core.Option.{some}
use native.Mathlib.Omega.{arith}
use kafka_ui.Base.Tests.{◌==◌, ==_iff, Bool-cases, and_parts}
use kafka_ui.Base.Lists.{get_elem?, any}
use kafka_ui.Base.Strings.{Text, starts_with, includes, text_eq, text_eq_refl}

pub starts_with_append : (u b : Text) → starts_with (u ++ b) u ≡ true
unfolding starts_with
starts_with_append [] [] = refl
starts_with_append [] (c ∷ b) = refl
starts_with_append (c ∷ u) b = ground (arith, starts_with_append u b)

pub starts_with_rest : (t u : Text) → starts_with t u ≡ true → (b : Text) × (t ≡ u ++ b)
unfolding starts_with
starts_with_rest t [] h = (t, refl)
starts_with_rest [] (d ∷ u) h = absurd (cc)
starts_with_rest (c ∷ t) (d ∷ u) h =
    let (first, later) = and_parts (c == d) (starts_with t u) h in
    let (b, e) = starts_with_rest t u later in let same : c ≡ d = (==_iff c d).0 first in (b, cc)

-- Where a text stands in another.
abbrev pub Occurs : Text → Text → Type 0
Occurs u t = (a : Text) × (b : Text) × (t ≡ a ++ (u ++ b))

pub includes-Occurs : (t u : Text) → includes t u ≡ true → Occurs u t
unfolding includes
includes-Occurs [] u h = let (b, e) = starts_with_rest [] u h in ([], b, e)
includes-Occurs (c ∷ t) u h = elim (Bool-cases (starts_with (c ∷ t) u)) [
  | inl e ↦ let (b, f) = starts_with_rest (c ∷ t) u e in ([], b, f)
  | inr e ↦ let (a, b, f) = includes-Occurs t u (ground arith) in (c ∷ a, b, ap (c ∷◌) f)
]

includes_of_start : (t u : Text) → starts_with t u ≡ true → includes t u ≡ true
unfolding includes
includes_of_start [] u h = h
includes_of_start (c ∷ t) u h = ground arith

pub includes_occurring : (a u b : Text) → includes (a ++ (u ++ b)) u ≡ true
unfolding includes
includes_occurring [] u b = includes_of_start (u ++ b) u (starts_with_append u b)
includes_occurring (c ∷ a) u b = ground (arith, includes_occurring a u b)

pub includes_iff : (t u : Text) → (includes t u ≡ true) ↔ Occurs u t
includes_iff t u = (includes-Occurs t u, λ o. rw (o.2) (includes_occurring o.0 u o.1))

-- `includes` is transitive.
pub includes_trans :
    (t u v : Text) → includes t u ≡ true → includes u v ≡ true → includes t v ≡ true
includes_trans t u v h k =
    let (a, b, e) = includes-Occurs t u h in
    let (c, d, f) = includes-Occurs u v k in
    (includes_iff t v).1 (a ++ c, d ++ b, e ∙ (ap (λ x. a ++ (x ++ b)) f ∙ simp append_assoc))

-- What stands in a list passes the test for its members.
pub any-get_elem? :
    (ms : List Text) (i : ℕ) (m : Text) → get_elem? ms i ≡ some m → any (text_eq m) ms ≡ true
any-get_elem? [] i m at = ground arith
any-get_elem? (x ∷ ms) zero m at = let e : x ≡ m = cc in rw (e, text_eq_refl m) refl
any-get_elem? (x ∷ ms) (suc i) m at = ground (arith, any-get_elem? ms i m at)
