-- ===== src/Users/Sets.antt =====
-- A JavaScript Set of texts, as the list of its members in the order of their insertion.
use kafka_ui.Base.{
  ◌≡◌, refl, sym, ◌∙◌, Bool, true, false, not, ◌&&◌, ◌||◌, List, [], ◌∷◌, ◌++◌, any, keep,
  if◌then◌else◌, Text, text_eq, text_eq_iff, Bool-cases, arith, inl, inr,
}

abbrev pub has : Text → List Text → Bool
has x xs = any (λ y. text_eq x y) xs

abbrev pub add : Text → List Text → List Text
add x xs = if has x xs then xs else xs ++ (x ∷ [])

abbrev pub remove : Text → List Text → List Text
remove x xs = keep (λ y. not (text_eq x y)) xs

-- `new Set([...acc, ...xs])`
abbrev pub set_of : List Text → List Text → List Text
set_of acc [] = acc
set_of acc (x ∷ xs) = set_of (add x acc) xs

-- No member is repeated.
abbrev pub IsDistinct : List Text → Type 0
IsDistinct [] = Unit
IsDistinct (x ∷ xs) = (has x xs ≡ false) × IsDistinct xs

text_eq_comm : (x y : Text) → text_eq x y ≡ text_eq y x
text_eq_comm x y = elim (Bool-cases (text_eq x y)) [
  | inl e ↦ rw ((text_eq_iff x y).0 e) refl
  | inr e ↦ elim (Bool-cases (text_eq y x)) [
    | inl f ↦ rw ((text_eq_iff y x).0 f) refl
    | inr f ↦ e ∙ sym f
  ]
]

has-append : (x : Text) (xs ys : List Text) → has x (xs ++ ys) ≡ (has x xs || has x ys)
has-append x [] ys = refl
has-append x (y ∷ xs) ys = ground (arith, has-append x xs ys)

append-IsDistinct :
    (x : Text) (xs : List Text) → IsDistinct xs → has x xs ≡ false → IsDistinct (xs ++ (x ∷ []))
append-IsDistinct x [] h e = (refl, tt)
append-IsDistinct x (y ∷ xs) (hy, h) e = (
  has-append y xs (x ∷ []) ∙ ground (arith, text_eq_comm x y, h, e),
  append-IsDistinct x xs h (ground arith),
)

pub add-IsDistinct : (x : Text) (xs : List Text) → IsDistinct xs → IsDistinct (add x xs)
add-IsDistinct x xs h = elim (Bool-cases (has x xs)) [
  | inl e ↦ rw e h
  | inr e ↦ rw e (append-IsDistinct x xs h e)
]

has-remove_none : (x y : Text) (xs : List Text) → has y xs ≡ false → has y (remove x xs) ≡ false
has-remove_none x y [] e = refl
has-remove_none x y (z ∷ xs) e = ground (arith, has-remove_none x y xs)

pub remove-IsDistinct : (x : Text) (xs : List Text) → IsDistinct xs → IsDistinct (remove x xs)
remove-IsDistinct x [] h = tt
remove-IsDistinct x (y ∷ xs) (hy, h) = elim (Bool-cases (text_eq x y)) [
  | inl e ↦ rw e (remove-IsDistinct x xs h)
  | inr e ↦ rw e (has-remove_none x y xs hy, remove-IsDistinct x xs h)
]

pub set_of-IsDistinct : (acc xs : List Text) → IsDistinct acc → IsDistinct (set_of acc xs)
set_of-IsDistinct acc [] h = h
set_of-IsDistinct acc (x ∷ xs) h = set_of-IsDistinct (add x acc) xs (add-IsDistinct x acc h)

text_eq_trans : (x y z : Text) → text_eq x y ≡ true → text_eq x z ≡ text_eq y z
text_eq_trans x y z e = rw ((text_eq_iff x y).0 e) refl

pub has-text_eq : (x y : Text) (xs : List Text) → text_eq x y ≡ true → has y xs ≡ has x xs
has-text_eq x y xs e = rw ((text_eq_iff x y).0 e) refl

pub has-add : (x y : Text) (xs : List Text) → has y (add x xs) ≡ (text_eq x y || has y xs)
has-add x y xs = elim (Bool-cases (has x xs)) [
  | inl e ↦ elim (Bool-cases (text_eq x y)) [
    | inl f ↦ rw (e, f) (has-text_eq x y xs f ∙ e)
    | inr f ↦ rw (e, f) refl
  ]
  | inr e ↦ rw e (ground (arith, has-append y xs (x ∷ []), text_eq_comm x y))
]

pub has-remove :
    (x y : Text) (xs : List Text) → has y (remove x xs) ≡ (not (text_eq x y) && has y xs)
has-remove x y [] = ground arith
has-remove x y (z ∷ xs) = elim (Bool-cases (text_eq x z)) [
  | inl e ↦ rw e (ground (arith, has-remove x y xs, text_eq_trans x z y e, text_eq_comm z y))
  | inr e ↦ elim (Bool-cases (text_eq x y)) [
    | inl f ↦ rw e (ground (arith, has-remove x y xs, text_eq_trans x y z f))
    | inr f ↦ rw e (ground (arith, has-remove x y xs))
  ]
]

pub has-set_of : (x : Text) (acc xs : List Text) → has x (set_of acc xs) ≡ (has x acc || has x xs)
has-set_of x acc [] = ground arith
has-set_of x acc (y ∷ xs) =
    has-set_of x (add y acc) xs ∙ ground (arith, has-add y x acc, text_eq_comm x y)
