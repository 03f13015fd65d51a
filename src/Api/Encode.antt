-- ===== src/Api/Encode.antt =====
-- `encodeURIComponent`, which frontend/src/lib/api.ts and useWebSocket.ts call: the UTF-8 bytes of
-- the text, percent-encoded but for the unreserved marks. `none` is the URIError at a lone surrogate.
pub mod Laws
use kafka_ui.Base.{
  ℕ, ◌+◌, ◌-◌, ◌*◌, ◌/◌, ◌%◌, Bool, true, false, not, ◌&&◌, ◌||◌, Option, none, some, List, [], ◌∷◌,
  ◌++◌, if◌then◌else◌, ltb, leb, ◌==◌, Text, codes, any,
}

unfoldable pub is_unreserved : ℕ → Bool
is_unreserved c =
    (leb b'a' c && leb c b'z')
    || (leb b'A' c && leb c b'Z')
    || (leb b'0' c && leb c b'9')
    || c == b'-'
    || c == b'_'
    || c == b'.'
    || c == b'!'
    || c == b'~'
    || c == b'*'
    || c == 39
    || c == b'('
    || c == b')'

unfoldable pub hex_digit : ℕ → ℕ
hex_digit n = if ltb n 10 then b'0' + n else b'A' + (n - 10)

abbrev pub percent : ℕ → Text
percent b = b'%' ∷ hex_digit (b / 16) ∷ hex_digit (b % 16) ∷ []

-- The code point of a surrogate pair.
abbrev pub pair_value : ℕ → ℕ → ℕ
pair_value c d = 0x10000 + (c - 0xd800) * 0x400 + (d - 0xdc00)

abbrev pub is_high : ℕ → Bool
is_high c = leb 0xd800 c && leb c 0xdbff

abbrev pub is_low : ℕ → Bool
is_low c = leb 0xdc00 c && leb c 0xdfff

-- The UTF-8 bytes of a code point.
unfoldable pub utf8 : ℕ → List ℕ
utf8 c =
    if ltb c 0x80
    then c ∷ []
    else if ltb c 0x800
    then (0xc0 + c / 0x40) ∷ (0x80 + c % 0x40) ∷ []
    else if ltb c 0x10000
    then (0xe0 + c / 0x1000) ∷ (0x80 + c / 0x40 % 0x40) ∷ (0x80 + c % 0x40) ∷ []
    else (0xf0 + c / 0x40000)
      ∷ (0x80 + c / 0x1000 % 0x40)
      ∷ (0x80 + c / 0x40 % 0x40)
      ∷ (0x80 + c % 0x40)
      ∷ []

unfoldable pub percent_all : List ℕ → Text
unfolding hex_digit
percent_all [] = []
percent_all (b ∷ bs) = percent b ++ percent_all bs

unfoldable pub encode_point : ℕ → Text
unfolding is_unreserved utf8 percent_all
encode_point c = if is_unreserved c then c ∷ [] else percent_all (utf8 c)

abbrev pub prepend : Text → Option Text → Option Text
prepend t none = none
prepend t (some u) = some (t ++ u)

unfoldable pub encode_uri_component : Text → Option Text
unfolding encode_point
encode_uri_component [] = some []
encode_uri_component (c ∷ []) = if is_high c || is_low c then none else some (encode_point c)
encode_uri_component (c ∷ d ∷ t) =
    let single = prepend (encode_point c) (encode_uri_component (d ∷ t)) in
    let pair = prepend (encode_point (pair_value c d)) (encode_uri_component t) in
    if is_high c then if is_low d then pair else none else if is_low c then none else single
