-- ===== src/Browser/Produce/Laws.antt =====
-- Which headers a new message gets.
use kafka_ui.Base.{
  ℕ, zero, suc, ◌≤◌, ◌&&◌, length, ltb, get_elem?, erase_idx, ◌≡◌, refl, sym, ap, ◌∙◌, inl, inr,
  true, false, not, Option, none, some, List, [], ◌∷◌, if◌then◌else◌, Text, codes, truthy, text_eq,
  text_eq_iff, text_eq_refl, Bool-cases, Option-cases, if_elim, arith,
}
use kafka_ui.Api.Messages.{Headers, ProduceRequest}
use kafka_ui.Api.Errors.{Thrown, Settled, resolved, rejected}
use kafka_ui.Browser.Produce.{
  HeaderRow, put, assign, collect, ProduceForm, message_of, handle_produce, Event, opened, closed,
  key_typed, value_typed, header_added, header_key_typed, header_value_typed, header_removed, sent,
  settled, act, produce_settles, initial_form,
}

abbrev pub value_of : Text → Headers → Option Text
value_of k [] = none
value_of k ((l, w) ∷ hs) = if text_eq k l then some w else value_of k hs

-- The value in the last row with a key.
abbrev pub last_value : Text → List HeaderRow → Option Text
last_value k [] = none
last_value k (r ∷ rows) = elim (last_value k rows) [
  | some v ↦ some v
  | none ↦ if text_eq k r.key then some r.value else none
]

abbrev pub or_else : Option Text → Option Text → Option Text
or_else none u = u
or_else (some v) u = some v

value_of-put_same : (k v : Text) (hs : Headers) → value_of k (put hs k v) ≡ some v
unfolding put
value_of-put_same k v [] = rw (text_eq_refl k) refl
value_of-put_same k v ((l, w) ∷ hs) = elim (Bool-cases (text_eq k l)) [
  | inl same ↦ rw (same, same) refl
  | inr other ↦ rw (other, other) (value_of-put_same k v hs)
]

value_of-put_other :
    (k l v : Text) (hs : Headers) → text_eq k l ≡ false → value_of k (put hs l v) ≡ value_of k hs
unfolding put
value_of-put_other k l v [] h = rw h refl
value_of-put_other k l v ((m, w) ∷ hs) h = elim (Bool-cases (text_eq l m)) [
  | inl same ↦
      let other : text_eq k m ≡ false =
        ap (λ x. text_eq k x) (sym ((text_eq_iff l m).0 same)) ∙ h in
      rw (same, other) refl
  | inr other ↦
      rw other (ap (λ u. if text_eq k m then some w else u) (value_of-put_other k l v hs h))
]

or_else-last :
    (k : Text) (r : HeaderRow) (rows : List HeaderRow) (u : Option Text)
    → or_else (last_value k (r ∷ rows)) u
      ≡ or_else (last_value k rows) (if text_eq k r.key then some r.value else u)
or_else-last k r rows u = elim (Option-cases (last_value k rows)) [
  | inr (v, found) ↦ rw found refl
  | inl absent ↦ elim (Bool-cases (text_eq k r.key)) [
    | inl same ↦ rw (absent, same) refl
    | inr other ↦ rw (absent, other) refl
  ]
]

-- The value of a key after one row.
abbrev after_row : Headers → HeaderRow → Headers
after_row hs r = if truthy r.key then assign hs r.key r.value else hs

value_of-after_row :
    (k : Text) (hs : Headers) (r : HeaderRow)
    → truthy k ≡ true
    → text_eq k (codes "__proto__") ≡ false
    → value_of k (after_row hs r) ≡ (if text_eq k r.key then some r.value else value_of k hs)
unfolding assign
value_of-after_row k hs r named plain = elim (Bool-cases (text_eq k r.key)) [
  | inl same ↦
      let e : r.key ≡ k = sym ((text_eq_iff k r.key).0 same) in
      rw (same, e, named, plain) (value_of-put_same k r.value hs)
  | inr other ↦ rw other (
      if_elim (λ hs'. value_of k hs' ≡ value_of k hs) (truthy r.key)
        (λ _.
          if_elim (λ hs'. value_of k hs' ≡ value_of k hs) (text_eq r.key (codes "__proto__"))
            (λ _. refl) (λ _. value_of-put_other k r.key r.value hs other))
        (λ _. refl))
]

value_of-collect :
    (k : Text) (hs : Headers) (rows : List HeaderRow)
    → truthy k ≡ true
    → text_eq k (codes "__proto__") ≡ false
    → value_of k (collect hs rows) ≡ or_else (last_value k rows) (value_of k hs)
unfolding collect
value_of-collect k hs [] named plain = refl
value_of-collect k hs (r ∷ rows) named plain =
    value_of-collect k (after_row hs r) rows named plain
    ∙ (ap (or_else (last_value k rows)) (value_of-after_row k hs r named plain)
        ∙ sym (or_else-last k r rows (value_of k hs)))

or_else-none : (u : Option Text) → or_else u none ≡ u
or_else-none none = refl
or_else-none (some v) = refl

elim_sent :
    (hs : Headers)
    → elim (if ltb 0 (length hs) then some hs else none) [ none ↦ [] | some gs ↦ gs ] ≡ hs
elim_sent [] = refl
elim_sent (h ∷ hs) = let filled : ltb 0 (suc (length hs)) ≡ true = ground arith in rw filled refl

-- A header goes with a message exactly as the last row with its key says; rows without a key are
-- dropped. (The key "__proto__" is left out.)
message_headers_lem :
    (f : ProduceForm) (k : Text)
    → truthy k ≡ true
    → text_eq k (codes "__proto__") ≡ false
    → value_of k (elim (message_of f).headers [ none ↦ [] | some hs ↦ hs ]) ≡ last_value k f.headers
unfolding message_of
message_headers_lem f k named plain =
    rw (elim_sent (collect [] f.headers))
      (value_of-collect k [] f.headers named plain ∙ or_else-none (last_value k f.headers))

erased_le : (rs : List ProduceRequest) (i : ℕ) → length (erase_idx rs i) ≤ length rs
erased_le [] i = omega arith
erased_le (r ∷ rs) zero = omega arith
erased_le (r ∷ rs) (suc i) = omega (arith, erased_le rs i)

produce_settles_sending :
    (o : Settled (Unit {0})) (f : ProduceForm) → (produce_settles o f).sending ≡ f.sending
unfolding produce_settles
produce_settles_sending (resolved u) f = refl
produce_settles_sending (rejected e) f = refl

abbrev pub IsSingle : ProduceForm → Type 0
IsSingle f = length f.sending ≤ 1

-- A message is sent only when no other one is under way, so one click sends it once.
act-IsSingle : (f : ProduceForm) (e : Event) → IsSingle f → IsSingle (act f e)
unfolding act handle_produce
act-IsSingle f opened h = h
act-IsSingle f closed h = h
act-IsSingle f (key_typed v) h = if_elim IsSingle f.is_open (λ _. h) (λ _. h)
act-IsSingle f (value_typed v) h = if_elim IsSingle f.is_open (λ _. h) (λ _. h)
act-IsSingle f header_added h = if_elim IsSingle f.is_open (λ _. h) (λ _. h)
act-IsSingle f (header_key_typed i v) h = if_elim IsSingle f.is_open (λ _. h) (λ _. h)
act-IsSingle f (header_value_typed i v) h = if_elim IsSingle f.is_open (λ _. h) (λ _. h)
act-IsSingle f (header_removed i) h = if_elim IsSingle f.is_open (λ _. h) (λ _. h)
act-IsSingle f sent h =
    if_elim IsSingle (f.is_open && not (ltb 0 (length f.sending))) (λ free. ground arith) (λ _. h)
act-IsSingle f (settled i o) h = elim (Option-cases (get_elem? f.sending i)) [
  | inl gone ↦ rw (gone, act) h
  | inr (r, found) ↦ rw (found, act, produce_settles_sending) (omega (arith, erased_le f.sending i))
]

-- A message that the server takes closes the dialog and empties the form; one that it refuses leaves
-- both as they are.
pub settled_lem :
    (f : ProduceForm) (r : ProduceRequest) (u : Unit {0}) (e : Thrown)
    → f.sending ≡ r ∷ []
    → (act f (settled 0 (resolved u)) ≡ initial_form)
      × (act f (settled 0 (rejected e)) ≡ record f { sending = [] })
unfolding act produce_settles
settled_lem f r u e h =
    let found : get_elem? f.sending 0 ≡ some r = rw h refl in
    let gone : erase_idx f.sending 0 ≡ [] = rw h refl in rw (found, act, gone) (refl, refl)
