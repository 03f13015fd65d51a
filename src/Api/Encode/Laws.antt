-- ===== src/Api/Encode/Laws.antt =====
-- What an encoded component may hold.
use kafka_ui.Base.{
  ℕ, ◌/◌, ◌%◌, ◌<◌, ◌≡◌, ◌≢◌, true, ◌||◌, Option, none, some, List, [], ◌∷◌, Text, All, All-append,
  if_elim, arith, ltb,
}
use kafka_ui.Api.Encode.{
  is_unreserved, hex_digit, percent, utf8, percent_all, encode_point, encode_uri_component, is_high,
  is_low, prepend, pair_value,
}

-- A code unit that does not end a part of a path or of a query.
abbrev pub IsPlain : ℕ → Type 0
IsPlain c =
    (c ≢ b'/')
    × (c ≢ b'?')
    × (c ≢ b'#')
    × (c ≢ b'&')
    × (c ≢ b'=')
    × (c ≢ b'+')
    × (c ≢ b' ')
    × (c < 128)

unreserved-IsPlain : (c : ℕ) → is_unreserved c ≡ true → IsPlain c
unfolding is_unreserved
unreserved-IsPlain c h = ground arith

hex_digit-IsPlain : (n : ℕ) → n < 16 → IsPlain (hex_digit n)
unfolding hex_digit
hex_digit-IsPlain n h = ground arith

percent-IsPlain : (b : ℕ) → b < 256 → All IsPlain (percent b)
percent-IsPlain b h = (
  unreserved_mark,
  (hex_digit-IsPlain (b / 16) (omega arith), (hex_digit-IsPlain (b % 16) (omega arith), tt)),
)
  where
    unreserved_mark : IsPlain b'%'
    unreserved_mark = omega arith

percent_all-IsPlain : (bs : List ℕ) → All (λ b. b < 256) bs → All IsPlain (percent_all bs)
unfolding percent_all
percent_all-IsPlain [] h = tt
percent_all-IsPlain (b ∷ bs) (k, h) =
    All-append IsPlain (percent b) _ (percent-IsPlain b k) (percent_all-IsPlain bs h)

utf8_bytes : (c : ℕ) → c < 0x110000 → All (λ b. b < 256) (utf8 c)
unfolding utf8
utf8_bytes c h =
    if_elim (All (λ b. b < 256)) (ltb c 0x80) (λ t. ground arith)
      (λ _.
        if_elim (All (λ b. b < 256)) (ltb c 0x800) (λ t. ground arith)
          (λ _.
            if_elim (All (λ b. b < 256)) (ltb c 0x10000) (λ t. ground arith) (λ _. omega arith)))

encode_point-IsPlain : (c : ℕ) → c < 0x110000 → All IsPlain (encode_point c)
unfolding encode_point
encode_point-IsPlain c h =
    if_elim (All IsPlain) (is_unreserved c) (λ u. (unreserved-IsPlain c u, tt))
      (λ _. percent_all-IsPlain (utf8 c) (utf8_bytes c h))

-- Code units, as a JavaScript string holds them.
abbrev pub IsUnits : Text → Type 0
IsUnits = All (λ c. c < 0x10000)

abbrev IsPlainResult : Option Text → Type 0
IsPlainResult none = Unit
IsPlainResult (some e) = All IsPlain e

prepend-IsPlainResult :
    (t : Text) (o : Option Text) → All IsPlain t → IsPlainResult o → IsPlainResult (prepend t o)
prepend-IsPlainResult t none h k = tt
prepend-IsPlainResult t (some u) h k = All-append IsPlain t u h k

pair_bound : (c d : ℕ) → is_high c ≡ true → is_low d ≡ true → pair_value c d < 0x110000
pair_bound c d h k = ground arith

encoded-IsPlainResult : (t : Text) → IsUnits t → IsPlainResult (encode_uri_component t)
unfolding encode_uri_component
encoded-IsPlainResult [] h = tt
encoded-IsPlainResult (c ∷ []) (h, _) =
    if_elim IsPlainResult (is_high c || is_low c) (λ _. tt)
      (λ _. encode_point-IsPlain c (omega arith))
encoded-IsPlainResult (c ∷ d ∷ t) (h, (k, hs)) =
    if_elim IsPlainResult (is_high c)
      (λ high.
        if_elim IsPlainResult (is_low d)
          (λ low.
            prepend-IsPlainResult _ (encode_uri_component t)
              (encode_point-IsPlain (pair_value c d) (pair_bound c d high low))
              (encoded-IsPlainResult t hs))
          (λ _. tt))
      (λ _.
        if_elim IsPlainResult (is_low c) (λ _. tt)
          (λ _.
            prepend-IsPlainResult _ (encode_uri_component (d ∷ t))
              (encode_point-IsPlain c (omega arith)) (encoded-IsPlainResult (d ∷ t) (k, hs))))

-- What `encodeURIComponent` gives has no "/", "?", "#", "&", "=", "+" or space, and is ASCII: put
-- into a path or a query, it cannot end the part that it stands in.
pub encode_uri_component-IsPlain :
    (t e : Text) → IsUnits t → encode_uri_component t ≡ some e → All IsPlain e
encode_uri_component-IsPlain t e h same = rw same at (encoded-IsPlainResult t h)
