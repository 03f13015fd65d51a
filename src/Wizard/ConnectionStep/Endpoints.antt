-- ===== src/Wizard/ConnectionStep/Endpoints.antt =====
-- The texts that BOOTSTRAP_RE accepts, read as a list of endpoints.
use kafka_ui.Base.{
  ◌≤◌, ◌≡◌, ◌≢◌, refl, sym, ap, ◌∙◌, ap₂, List, [], ◌∷◌, ◌++◌, Text, All, concat, length, arith,
  IsBlank, IsDigits,
}
use kafka_ui.Regex.{star, Lang}
use kafka_ui.Regex.Classes.{
  InClass, plus-class_iff, star-class_iff, up_to-class_sound, up_to-class_complete, unit_iff,
}
use kafka_ui.Wizard.ConnectionStep.{is_host_char, port_re, endpoint_re, more_re, bootstrap_re}

-- `gap` is the space behind the comma.
pub record Endpoint : Type 0 where
  pub gap : Text
  pub host : Text
  pub port : Text

pub record IsEndpoint (e : Endpoint) : Type 0 where
  pub blank : IsBlank e.gap
  pub named : InClass is_host_char e.host
  pub nonempty : e.host ≢ []
  pub digits : IsDigits e.port
  pub some_digit : 1 ≤ length e.port
  pub few_digits : length e.port ≤ 5

abbrev pub body : Endpoint → Text
body e = e.host ++ (b':' ∷ e.port)

abbrev pub later : List Endpoint → Text
later [] = []
later (e ∷ es) = (b',' ∷ (e.gap ++ body e)) ++ later es

-- The first endpoint, and those behind a comma.
abbrev pub render : Endpoint → List Endpoint → Text
render e es = body e ++ later es

port_sound : (t : Text) → Lang port_re t → IsDigits t × (1 ≤ length t) × (length t ≤ 5)
port_sound t (u, v, e, (c, f, k), s) =
    let (a, b) = up_to-class_sound _ 4 v s in
    let same : t ≡ c ∷ v = e ∙ ap (λ (x : Text). x ++ v) f in
    rw same ((k, a), omega arith, omega arith)

port_complete : (t : Text) → IsDigits t → 1 ≤ length t → length t ≤ 5 → Lang port_re t
port_complete [] h a b = absurd (omega arith)
port_complete (c ∷ t) (k, h) a b =
    (c ∷ [], t, refl, (c, refl, k), up_to-class_complete _ 4 t h (omega arith))

endpoint_sound :
    (gap t : Text)
    → IsBlank gap
    → Lang endpoint_re t
    → (e : Endpoint) × (t ≡ body e) × (e.gap ≡ gap) × IsEndpoint e
endpoint_sound gap t blank (u, v, e, h, (x, y, f, sep, p)) =
    let (named, nonempty) = (plus-class_iff is_host_char u).0 h in
    let colon : x ≡ b':' ∷ [] = (unit_iff b':' x).0 sep in
    let (digits, one, five) = port_sound y p in
    (
      record { gap = gap; host = u; port = y },
      e ∙ ap (u ++◌) (f ∙ ap (λ (z : Text). z ++ y) colon),
      refl,
      record {
        blank = blank;
        named = named;
        nonempty = nonempty;
        digits = digits;
        some_digit = one;
        few_digits = five;
      },
    )

endpoint_complete : (e : Endpoint) → IsEndpoint e → Lang endpoint_re (body e)
endpoint_complete e w = (
  e.host,
  b':' ∷ e.port,
  refl,
  (plus-class_iff is_host_char e.host).1 (w.named, w.nonempty),
  (
    b':' ∷ [],
    e.port,
    refl,
    (unit_iff b':' _).1 refl,
    port_complete e.port w.digits w.some_digit w.few_digits,
  ),
)

more_sound :
    (u : Text) → Lang more_re u → (e : Endpoint) × (u ≡ b',' ∷ (e.gap ++ body e)) × IsEndpoint e
more_sound u (x, y, e, sep, (g, z, f, blank, h)) =
    let comma : x ≡ b',' ∷ [] = (unit_iff b',' x).0 sep in
    let (p, same, gap, ok) = endpoint_sound g z ((star-class_iff _ g).0 blank) h in
    (
      p,
      e ∙ ap₂ (λ (a b : Text). a ++ b) comma (f ∙ ap₂ (λ (a b : Text). a ++ b) (sym gap) same),
      ok,
    )

later_sound :
    (us : List Text)
    → All (Lang more_re) us
    → (es : List Endpoint) × (concat us ≡ later es) × All IsEndpoint es
later_sound [] h = ([], refl, tt)
later_sound (u ∷ us) (h, hs) =
    let (e, same, ok) = more_sound u h in
    let (es, rest, oks) = later_sound us hs in
    (e ∷ es, ap₂ (λ (a b : Text). a ++ b) same rest, (ok, oks))

later_complete : (es : List Endpoint) → All IsEndpoint es → Lang (star more_re) (later es)
later_complete [] h = ([], refl, tt)
later_complete (e ∷ es) (w, h) =
    let (us, f, k) = later_complete es h in
    (
      (b',' ∷ (e.gap ++ body e)) ∷ us,
      ap ((b',' ∷ (e.gap ++ body e)) ++◌) f,
      (
        (
          b',' ∷ [],
          e.gap ++ body e,
          refl,
          (unit_iff b',' _).1 refl,
          (e.gap, body e, refl, (star-class_iff _ e.gap).1 w.blank, endpoint_complete e w),
        ),
        k,
      ),
    )

-- What BOOTSTRAP_RE accepts.
pub record Parsed (t : Text) : Type 0 where
  pub first : Endpoint
  pub others : List Endpoint
  pub text : t ≡ render first others
  pub first_ok : IsEndpoint first
  pub others_ok : All IsEndpoint others

pub bootstrap_sound : (t : Text) → Lang bootstrap_re t → Parsed t
bootstrap_sound t (u, v, e, h, (us, f, hs)) =
    let (p, same, _, ok) = endpoint_sound [] u tt h in
    let (es, rest, oks) = later_sound us hs in
    record {
      first = p;
      others = es;
      text = e ∙ ap₂ (λ (x y : Text). x ++ y) same (f ∙ rest);
      first_ok = ok;
      others_ok = oks;
    }

pub bootstrap_complete : (t : Text) → Parsed t → Lang bootstrap_re t
bootstrap_complete t p = (
  body p.first,
  later p.others,
  p.text,
  endpoint_complete p.first p.first_ok,
  later_complete p.others p.others_ok,
)
