-- ===== src/Wizard/ConnectionStep/Laws.antt =====
-- What the checks of the first step accept.
use kafka_ui.Base.{
  ℕ, ◌≤◌, ◌≡◌, ◌≢◌, refl, sym, ap, ◌∙◌, ◌↔◌, ◌⊎◌, inl, inr, true, false, Option, none, some, List,
  [], ◌∷◌, ◌++◌, map, any, Text, All, arith, truthy, trim, trim_parts, split, decimal, pos,
  Bool-cases, if◌then◌else◌, append_assoc,
}
use kafka_ui.Regex.{matches}
use kafka_ui.Regex.Laws.{matches_iff}
use kafka_ui.Regex.Classes.{InClass, plus-class_iff}
use kafka_ui.Wizard.ConnectionStep.{
  is_name_char, bootstrap_re, name_re, bad_format, bad_port, port_of, port_out_of_range,
  validate_bootstrap, validate_name,
}
use kafka_ui.Wizard.ConnectionStep.Endpoints.{Endpoint, Parsed, bootstrap_sound, bootstrap_complete}
use kafka_ui.Wizard.ConnectionStep.Ports.{ports_of_render}

abbrev pub InRange : Endpoint → Type 0
InRange e = (1 ≤ decimal e.port) × (decimal e.port ≤ 65535)

-- A list of endpoints whose ports are all in range.
pub record IsBootstrap (t : Text) : Type 0 where
  pub parsed : Parsed t
  pub ranges : All InRange (parsed.first ∷ parsed.others)

any-out_iff :
    (es : List Endpoint)
    → (any port_out_of_range (map (λ e. some (pos (decimal e.port))) es) ≡ false) ↔ All InRange es
any-out_iff [] = ((λ h. tt), (λ h. refl))
any-out_iff (e ∷ es) = ground (arith, any-out_iff es)

ports_of_value :
    (value : Text) (p : Parsed (trim value))
    → map port_of (split b',' value) ≡ map (λ e. some (pos (decimal e.port))) (p.first ∷ p.others)
ports_of_value value p =
    let (w, v, e, hw, hv) = trim_parts value in
    ap (λ t. map port_of (split b',' t))
      (e ∙ ap (λ t. w ++ (t ++ v)) p.text ∙ ap (w ++◌) (append_assoc _ _ v))
    ∙ ports_of_render w v p.first p.others hw hv p.first_ok p.others_ok

nil_of_falsy : (t : Text) → truthy t ≡ false → t ≡ []
nil_of_falsy [] h = refl
nil_of_falsy (c ∷ t) h = cc

-- On a text of endpoints, the value is refused exactly if some port is out of range.
validate-Parsed :
    (value : Text) (p : Parsed (trim value))
    → truthy (trim value) ≡ true
    → validate_bootstrap value ≡ (
        if any port_out_of_range (map (λ e. some (pos (decimal e.port))) (p.first ∷ p.others))
        then some bad_port
        else none)
unfolding validate_bootstrap
validate-Parsed value p h =
    let accepted : matches bootstrap_re (trim value) ≡ true =
      (matches_iff bootstrap_re (trim value)).1 (bootstrap_complete _ p) in
    rw (h, accepted, ports_of_value value p) refl

validate-unparsed :
    (value : Text)
    → truthy (trim value) ≡ true
    → ¬ Parsed (trim value)
    → validate_bootstrap value ≡ some bad_format
unfolding validate_bootstrap
validate-unparsed value h n = elim (Bool-cases (matches bootstrap_re (trim value))) [
  | inl e ↦ absurd (n (bootstrap_sound _ ((matches_iff bootstrap_re (trim value)).0 e)))
  | inr e ↦ rw (h, e) refl
]

dec_parsed : (t : Text) → Dec (Parsed t)
dec_parsed t = elim (Bool-cases (matches bootstrap_re t)) [
  | inl e ↦ yes (bootstrap_sound t ((matches_iff bootstrap_re t).0 e))
  | inr e ↦ no (λ p. let m = (matches_iff bootstrap_re t).1 (bootstrap_complete t p) in cc)
]

validate_blank : (value : Text) → truthy (trim value) ≡ false → validate_bootstrap value ≡ none
unfolding validate_bootstrap
validate_blank value h = rw h refl

accepted-IsBootstrap :
    (value : Text)
    → truthy (trim value) ≡ true
    → validate_bootstrap value ≡ none
    → IsBootstrap (trim value)
accepted-IsBootstrap value h e = elim (dec_parsed (trim value)) [
  | no n ↦ let bad = validate-unparsed value h n in cc
  | yes p ↦ record {
    parsed = p;
    ranges = (any-out_iff (p.first ∷ p.others)).0 (ground (arith, validate-Parsed value p h));
  }
]

-- A value passes exactly if, cut of the blanks around it, it is empty or a list of one or more
-- endpoints "host:port" between commas, each with a port from 1 to 65535.
pub validate_bootstrap_iff :
    (value : Text)
    → (validate_bootstrap value ≡ none) ↔ ((trim value ≡ []) ⊎ IsBootstrap (trim value))
validate_bootstrap_iff value = elim (Bool-cases (truthy (trim value))) [
  | inl h ↦ (λ e. inr (accepted-IsBootstrap value h e), λ s. passes h s)
  | inr h ↦ (λ e. inl (nil_of_falsy _ h), λ s. validate_blank value h)
]
  where
    passes :
        truthy (trim value) ≡ true
        → (trim value ≡ []) ⊎ IsBootstrap (trim value)
        → validate_bootstrap value ≡ none
    passes h (inl n) = let bad : truthy (trim value) ≡ false = rw n refl in cc
    passes h (inr b) =
        let p = b.parsed in
        validate-Parsed value p h
        ∙ ap (λ t. if t then some bad_port else none)
            ((any-out_iff (p.first ∷ p.others)).1 b.ranges)

truthy_middle : (h : Text) (c : ℕ) (r m : Text) → truthy ((h ++ (c ∷ r)) ++ m) ≡ true
truthy_middle [] c r m = refl
truthy_middle (d ∷ h) c r m = refl

truthy_of_Parsed : (t : Text) → Parsed t → truthy t ≡ true
truthy_of_Parsed t p = ap truthy p.text ∙ truthy_middle p.first.host b':' p.first.port _

first_code : Option Text → ℕ
first_code none = 0
first_code (some []) = 0
first_code (some (c ∷ t)) = c

messages_differ : some bad_format ≡ some bad_port → ⊥
unfolding first_code
messages_differ e = absurd (omega (arith, ap first_code e))

bad_port_sound :
    (value : Text)
    → validate_bootstrap value ≡ some bad_port
    → (p : Parsed (trim value)) × ¬ All InRange (p.first ∷ p.others)
bad_port_sound value e = elim (Bool-cases (truthy (trim value))) [
  | inr h ↦ let blank = validate_blank value h in absurd (cc)
  | inl h ↦ elim (dec_parsed (trim value)) [
    | no n ↦ absurd (messages_differ (sym (validate-unparsed value h n) ∙ e))
    | yes p ↦ (
      p,
      λ r.
          let fine = (any-out_iff (p.first ∷ p.others)).1 r in
          let passed = validate-Parsed value p h in ground (arith, fine, passed),
    )
  ]
]

bad_port_complete :
    (value : Text) (p : Parsed (trim value))
    → ¬ All InRange (p.first ∷ p.others)
    → validate_bootstrap value ≡ some bad_port
bad_port_complete value p n =
    let ports = map (λ e. some (pos (decimal e.port))) (p.first ∷ p.others) in
    elim (Bool-cases (any port_out_of_range ports)) [
      | inl e ↦
          validate-Parsed value p (truthy_of_Parsed _ p)
          ∙ ap (λ t. if t then some bad_port else none) e
      | inr e ↦ absurd (n ((any-out_iff (p.first ∷ p.others)).0 e))
    ]

-- The message about ports is given exactly for a list of endpoints that has a port out of range.
pub validate_bootstrap-bad_port_iff :
    (value : Text)
    → (validate_bootstrap value ≡ some bad_port)
      ↔ ((p : Parsed (trim value)) × ¬ All InRange (p.first ∷ p.others))
validate_bootstrap-bad_port_iff value = (bad_port_sound value, λ h. bad_port_complete value h.0 h.1)

name_sound : (value : Text) → validate_name value ≡ none → InClass is_name_char (trim value)
unfolding validate_name
name_sound value e = elim (Bool-cases (truthy (trim value))) [
  | inr h ↦ rw (nil_of_falsy _ h) tt
  | inl h ↦ elim (Bool-cases (matches name_re (trim value))) [
    | inl m ↦ ((plus-class_iff _ _).0 ((matches_iff name_re _).0 m)).0
    | inr m ↦ absurd (ground arith)
  ]
]

name_complete : (value : Text) → InClass is_name_char (trim value) → validate_name value ≡ none
unfolding validate_name
name_complete value c = elim (Bool-cases (truthy (trim value))) [
  | inr h ↦ rw h refl
  | inl h ↦
      let nonempty : trim value ≢ [] =
        λ n. let bad : truthy (trim value) ≡ false = rw n refl in cc in
      let m = (matches_iff name_re _).1 ((plus-class_iff is_name_char _).1 (c, nonempty)) in
      rw (h, m) refl
]

-- A name passes exactly if, cut of the blanks around it, it has letters, digits, "-" and "_" only.
pub validate_name_iff :
    (value : Text) → (validate_name value ≡ none) ↔ InClass is_name_char (trim value)
validate_name_iff value = (name_sound value, name_complete value)
