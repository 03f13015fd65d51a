-- ===== src/Metrics/TimeInput/Digits.antt =====
-- Texts of digits, and texts with no blanks.
use kafka_ui.Base.{
  ℕ, ◌≡◌, refl, true, false, [], ◌∷◌, ◌++◌, any, arith, Text, truthy, trim, trim_start, trim_end,
  is_space, is_digit, IsDigits, IsSolid,
}
use kafka_ui.Metrics.TimeInput.{span}

pub span_digits :
    (ds : Text) (c : ℕ) (rest : Text)
    → IsDigits ds
    → is_digit c ≡ false
    → span is_digit (ds ++ (c ∷ rest)) ≡ (ds, c ∷ rest)
unfolding span
span_digits [] c rest h n = rw n refl
span_digits (d ∷ ds) c rest (h, hs) n = rw (span_digits ds c rest hs n, h) refl

pub span_all : (ds : Text) → IsDigits ds → span is_digit ds ≡ (ds, [])
unfolding span
span_all [] h = refl
span_all (d ∷ ds) (h, hs) = rw (span_all ds hs, h) refl

pub digit_solid : (c : ℕ) → is_digit c ≡ true → is_space c ≡ false
unfolding is_digit is_space
digit_solid c h = ground arith

pub digits-IsSolid : (ds : Text) → IsDigits ds → IsSolid ds
digits-IsSolid [] h = tt
digits-IsSolid (d ∷ ds) (h, hs) = (digit_solid d h, digits-IsSolid ds hs)

pub any-IsSolid : (t : Text) → any is_space t ≡ false → IsSolid t
any-IsSolid [] h = tt
any-IsSolid (c ∷ t) h = (ground arith, any-IsSolid t (ground arith))

pub trim_start_solid : (t : Text) → IsSolid t → trim_start t ≡ t
unfolding trim_start
trim_start_solid [] h = refl
trim_start_solid (c ∷ t) (h, hs) = rw h refl

pub trim_end_solid : (t : Text) → IsSolid t → trim_end t ≡ t
unfolding trim_end
trim_end_solid [] h = refl
trim_end_solid (c ∷ t) (h, hs) = rw (trim_end_solid t hs, h) refl

pub trim_solid : (t : Text) → IsSolid t → trim t ≡ t
unfolding trim
trim_solid t h = rw (trim_start_solid t h) (trim_end_solid t h)

pub truthy_append : (t : Text) (c : ℕ) (u : Text) → truthy (t ++ (c ∷ u)) ≡ true
truthy_append [] c u = refl
truthy_append (d ∷ t) c u = refl
