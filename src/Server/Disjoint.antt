-- ===== src/Server/Disjoint.antt =====
-- That the order of the server's routes does not matter.
use kafka_ui.Base.{
  ◌≡◌, ◌≤◌, refl, Bool, true, false, ◌&&◌, List, [], ◌∷◌, keep, length, apart, at_most_one, Text,
  text_eq, text_eq_iff, text_eq_refl, and_parts,
}
use kafka_ui.Api.Routes.{Method, get, post, put, delete}
use kafka_ui.Server.{Segment, literal, placeholder, Route, same_method, routes, takes, matches}

-- Whether some path may match both patterns.
abbrev compatible : Segment → Segment → Bool
compatible (literal u) (literal v) = text_eq u v
compatible _ _ = true

abbrev meet : List Segment → List Segment → Bool
meet [] [] = true
meet [] (t ∷ ts) = false
meet (s ∷ ss) [] = false
meet (s ∷ ss) (t ∷ ts) = compatible s t && meet ss ts

abbrev clash : Route → Route → Bool
clash r s = same_method r.method s.method && meet r.pattern s.pattern

abbrev pub is_found : (Text → Bool) → Method → List Text → Route → Bool
is_found accepts m path r = same_method r.method m && matches accepts r.pattern path

same_method_eq : (m n : Method) → same_method m n ≡ true → m ≡ n
same_method_eq get get h = refl
same_method_eq post post h = refl
same_method_eq put put h = refl
same_method_eq delete delete h = refl
same_method_eq _ _ h = absurd (cc)

same_method_refl : (m : Method) → same_method m m ≡ true
same_method_refl get = refl
same_method_refl post = refl
same_method_refl put = refl
same_method_refl delete = refl

same_method_trans :
    (m n k : Method) → same_method m k ≡ true → same_method n k ≡ true → same_method m n ≡ true
same_method_trans m n k h i = rw (same_method_eq m k h, same_method_eq n k i) (same_method_refl k)

takes-compatible :
    (accepts : Text → Bool) (s t : Segment) (u : Text)
    → takes accepts s u ≡ true
    → takes accepts t u ≡ true
    → compatible s t ≡ true
takes-compatible accepts (literal a) (literal b) u h k =
    let same : a ≡ u = (text_eq_iff a u).0 h in
    let other : b ≡ u = (text_eq_iff b u).0 k in rw (same, other) (text_eq_refl u)
takes-compatible accepts (literal a) placeholder u h k = refl
takes-compatible accepts placeholder (literal b) u h k = refl
takes-compatible accepts placeholder placeholder u h k = refl

matches-meet :
    (accepts : Text → Bool) (ss ts : List Segment) (path : List Text)
    → matches accepts ss path ≡ true
    → matches accepts ts path ≡ true
    → meet ss ts ≡ true
unfolding matches
matches-meet accepts [] [] path h k = refl
matches-meet accepts [] (t ∷ ts) [] h k = absurd (cc)
matches-meet accepts [] (t ∷ ts) (u ∷ us) h k = absurd (cc)
matches-meet accepts (s ∷ ss) [] [] h k = absurd (cc)
matches-meet accepts (s ∷ ss) [] (u ∷ us) h k = absurd (cc)
matches-meet accepts (s ∷ ss) (t ∷ ts) [] h k = absurd (cc)
matches-meet accepts (s ∷ ss) (t ∷ ts) (u ∷ us) h k =
    let (first, later) = and_parts (takes accepts s u) (matches accepts ss us) h in
    let (second, last) = and_parts (takes accepts t u) (matches accepts ts us) k in
    rw (takes-compatible accepts s t u first second, matches-meet accepts ss ts us later last) refl

routes-apart : apart clash routes ≡ true
unfolding text_eq
routes-apart = refl

-- No request has more than one route on the server, whatever a placeholder takes.
pub is_found_unique :
    (accepts : Text → Bool) (m : Method) (path : List Text)
    → length (keep (is_found accepts m path) routes) ≤ 1
is_found_unique accepts m path =
    at_most_one (is_found accepts m path) clash
      (λ r s h k.
        let (first, later) =
          and_parts (same_method r.method m) (matches accepts r.pattern path) h in
        let (second, last) =
          and_parts (same_method s.method m) (matches accepts s.pattern path) k in
        rw
          (
            same_method_trans r.method s.method m first second,
            matches-meet accepts r.pattern s.pattern path later last,
          )
          refl)
      routes routes-apart
