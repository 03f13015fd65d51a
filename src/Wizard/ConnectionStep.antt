-- ===== src/Wizard/ConnectionStep.antt =====
-- frontend/src/components/wizard/steps/ConnectionStep.tsx: the checks of the first step.
pub mod Endpoints
pub mod Ports
pub mod Laws
use kafka_ui.Base.{
  ℕ, ◌≡◌, Bool, true, false, not, ◌&&◌, ◌||◌, Option, none, some, List, [], ◌∷◌, map, any,
  get_elem?, if◌then◌else◌, ltb, leb, ◌==◌, Text, codes, truthy, trim, split, is_space, is_digit, ℤ,
  pos, negsuc, parse_int,
}
use kafka_ui.Regex.{Re, class, seq, star, unit, plus, up_to, matches}

-- `\w`, and the two classes of the patterns.
abbrev pub is_word : ℕ → Bool
is_word c =
    (leb b'a' c && leb c b'z')
    || (leb b'A' c && leb c b'Z')
    || (leb b'0' c && leb c b'9')
    || c == b'_'

unfoldable pub is_host_char : ℕ → Bool
is_host_char c = is_word c || c == b'.' || c == b'-'

unfoldable pub is_name_char : ℕ → Bool
is_name_char c = is_word c || c == b'-'

abbrev pub port_re : Re
port_re = seq (class is_digit) (up_to 4 (class is_digit))

abbrev pub endpoint_re : Re
endpoint_re = seq (plus (class is_host_char)) (seq (unit b':') port_re)

abbrev pub more_re : Re
more_re = seq (unit b',') (seq (star (class is_space)) endpoint_re)

abbrev pub bootstrap_re : Re
bootstrap_re = seq endpoint_re (star more_re)

abbrev pub name_re : Re
name_re = plus (class is_name_char)

abbrev pub bad_format : Text
bad_format = codes "Format: host:port (e.g. localhost:9092, broker1:9092,broker2:9092)"

abbrev pub bad_port : Text
bad_port = codes "Port must be between 1 and 65535"

abbrev pub bad_name : Text
bad_name = codes "Only letters, numbers, hyphens, and underscores"

-- `parseInt(s.trim().split(":")[1])`; a missing part is undefined, which reads as NaN.
unfoldable pub port_of : Text → Option ℤ
port_of s = elim (get_elem? (split b':' (trim s)) 1) [ none ↦ none | some part ↦ parse_int part ]

-- `p < 1 || p > 65535`, which is false of NaN.
abbrev pub port_out_of_range : Option ℤ → Bool
port_out_of_range none = false
port_out_of_range (some (pos p)) = ltb p 1 || ltb 65535 p
port_out_of_range (some (negsuc p)) = true

unfoldable pub validate_bootstrap : Text → Option Text
unfolding port_of
validate_bootstrap value =
    if not (truthy (trim value))
    then none
    else if not (matches bootstrap_re (trim value))
    then some bad_format
    else if any port_out_of_range (map port_of (split b',' value))
    then some bad_port
    else none

unfoldable pub validate_name : Text → Option Text
validate_name value =
    if not (truthy (trim value))
    then none
    else if not (matches name_re (trim value))
    then some bad_name
    else none
