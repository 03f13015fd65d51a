-- ===== src/Wizard/ConnectionStep/Ports.antt =====
-- The ports that validateBootstrap reads from a text of endpoints.
use kafka_ui.Base.{
  ℕ, ◌≤◌, ◌≡◌, refl, ap, ap₂, ◌∙◌, true, false, some, List, [], ◌∷◌, ◌++◌, append_assoc, append-nil,
  map, Text, All, All-append, All-map, arith, IsBlank, IsSolid, HasNo, IsDigits, is_digit, is_space,
  split, split-append, split_whole, trim-append, parse_int, parse_int_of_digits, decimal, pos,
  length, ◌==◌,
}
use kafka_ui.Wizard.ConnectionStep.{is_host_char, port_of}
use kafka_ui.Wizard.ConnectionStep.Endpoints.{Endpoint, IsEndpoint, body, later}

host_char_plain :
    (c : ℕ)
    → is_host_char c ≡ true
    → (is_space c ≡ false) × ((c == b':') ≡ false) × ((c == b',') ≡ false)
unfolding is_host_char is_space
host_char_plain c h = ground arith

digit_plain :
    (c : ℕ)
    → is_digit c ≡ true
    → (is_space c ≡ false) × ((c == b':') ≡ false) × ((c == b',') ≡ false)
unfolding is_digit is_space
digit_plain c h = ground arith

space_plain : (c : ℕ) → is_space c ≡ true → (c == b',') ≡ false
unfolding is_space
space_plain c h = ground arith

module _ (e : Endpoint) (ok : IsEndpoint e) where
  body-IsSolid : IsSolid (body e)
  unfolding is_space
  body-IsSolid =
      All-append _ e.host _ (All-map _ _ (λ c h. (host_char_plain c h).0) e.host ok.named)
        (refl, All-map _ _ (λ c h. (digit_plain c h).0) e.port ok.digits)

  body_no_comma : HasNo b',' (body e)
  body_no_comma =
      All-append _ e.host _ (All-map _ _ (λ c h. (host_char_plain c h).2) e.host ok.named)
        (refl, All-map _ _ (λ c h. (digit_plain c h).2) e.port ok.digits)

  split-body : split b':' (body e) ≡ e.host ∷ e.port ∷ []
  split-body =
      split-append b':' e.host e.port (All-map _ _ (λ c h. (host_char_plain c h).1) e.host ok.named)
      ∙ ap (e.host ∷◌)
          (split_whole b':' e.port (All-map _ _ (λ c h. (digit_plain c h).1) e.port ok.digits))

  port_of_endpoint :
      (w v : Text)
      → IsBlank w
      → IsBlank v
      → port_of (w ++ (body e ++ v)) ≡ some (pos (decimal e.port))
  unfolding port_of
  port_of_endpoint w v hw hv =
      rw (trim-append w (body e) v hw body-IsSolid hv, split-body, port_of)
        (read e.port ok.digits ok.some_digit)
    where
      read : (p : Text) → IsDigits p → 1 ≤ length p → parse_int p ≡ some (pos (decimal p))
      read [] h k = absurd (omega arith)
      read (c ∷ p) h k = parse_int_of_digits c p h

blank_no_comma : (w : Text) → IsBlank w → HasNo b',' w
blank_no_comma w h = All-map _ _ space_plain w h

regroup :
    (w b l m v : Text) (c : ℕ)
    → w ++ (b ++ (((c ∷ l) ++ m) ++ v)) ≡ (w ++ (b ++ [])) ++ (c ∷ (l ++ (m ++ v)))
regroup w b l m v c = simp (append-nil, append_assoc)

-- Each part between commas gives the port of its endpoint, whatever blanks stand around.
pub ports_of_render :
    (w v : Text) (e : Endpoint) (es : List Endpoint)
    → IsBlank w
    → IsBlank v
    → IsEndpoint e
    → All IsEndpoint es
    → map port_of (split b',' (w ++ (body e ++ (later es ++ v))))
      ≡ map (λ f. some (pos (decimal f.port))) (e ∷ es)
ports_of_render w v e [] hw hv ok oks =
    let whole : HasNo b',' (w ++ (body e ++ v)) =
      All-append _ w _ (blank_no_comma w hw)
        (All-append _ (body e) v (body_no_comma e ok) (blank_no_comma v hv)) in
    rw (split_whole b',' _ whole, port_of_endpoint e ok w v hw hv)
ports_of_render w v e (f ∷ fs) hw hv ok (okf, oks) =
    let bare : HasNo b',' (w ++ (body e ++ [])) =
      All-append _ w _ (blank_no_comma w hw) (All-append _ (body e) [] (body_no_comma e ok) tt) in
    let tail_text : Text = f.gap ++ (body f ++ (later fs ++ v)) in
    ap (map port_of) (
      ap (split b',') (regroup w (body e) (f.gap ++ body f) (later fs) v b',')
      ∙ ap (λ t. split b',' ((w ++ (body e ++ [])) ++ (b',' ∷ t)))
          (append_assoc f.gap (body f) (later fs ++ v))
      ∙ split-append b',' (w ++ (body e ++ [])) tail_text bare)
    ∙ ap₂ (λ x xs. x ∷ xs) (port_of_endpoint e ok w [] hw tt)
        (ports_of_render f.gap v f fs okf.blank hv okf oks)
