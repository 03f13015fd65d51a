-- ===== src/Wizard/Steps/Entries.antt =====
-- The list of Kafka Connect clusters.
use kafka_ui.Base.{
  ℕ, zero, suc, ◌<◌, ◌≡◌, ◌≢◌, refl, ap, true, Option, none, some, List, [], ◌∷◌, ◌++◌, length, set,
  erase_idx, get_elem?, get_elem?-set_self, length-set, lt-length_of_get_elem?, get_elem?-set_ne,
  if◌then◌else◌, arith, ltb, Option-cases, inl, inr,
}
use kafka_ui.Api.Clusters.{NamedEndpoint}
use kafka_ui.Wizard.Steps.{entries_of, add_entry, remove_entry, update_entry}

-- The section is absent or has an entry.
abbrev pub IsFilled : Option (List NamedEndpoint) → Type 0
IsFilled none = Unit
IsFilled (some []) = ⊥
IsFilled (some (e ∷ es)) = Unit

pub add_entry-IsFilled : (kc : Option (List NamedEndpoint)) → IsFilled (add_entry kc)
unfolding add_entry
add_entry-IsFilled none = tt
add_entry-IsFilled (some []) = tt
add_entry-IsFilled (some (e ∷ es)) = tt

pos-IsFilled : (es : List NamedEndpoint) → IsFilled (if ltb 0 (length es) then some es else none)
pos-IsFilled [] = tt
pos-IsFilled (e ∷ es) =
    let some_entry : ltb 0 (suc (length es)) ≡ true = ground arith in rw some_entry tt

pub remove_entry-IsFilled :
    (kc : Option (List NamedEndpoint)) (i : ℕ) → IsFilled (remove_entry kc i)
unfolding remove_entry
remove_entry-IsFilled kc i = pos-IsFilled (erase_idx (entries_of kc) i)

erase_idx-append :
    (es : List NamedEndpoint) (e : NamedEndpoint) → erase_idx (es ++ e ∷ []) (length es) ≡ es
erase_idx-append [] e = refl
erase_idx-append (x ∷ es) e = ap (x ∷◌) (erase_idx-append es e)

restore :
    (kc : Option (List NamedEndpoint))
    → IsFilled kc
    → (if ltb 0 (length (entries_of kc)) then some (entries_of kc) else none) ≡ kc
restore none h = refl
restore (some []) h = absurd h
restore (some (e ∷ es)) h = ground arith

-- Removing the entry that was just added gives back the section as it was, absent if it was absent.
remove_entry-add_entry :
    (kc : Option (List NamedEndpoint))
    → IsFilled kc
    → remove_entry (add_entry kc) (length (entries_of kc)) ≡ kc
unfolding remove_entry add_entry
remove_entry-add_entry kc h =
    rw (erase_idx-append (entries_of kc) (record { name = []; url = [] })) (restore kc h)

-- Typing into an entry changes that entry as told, and no other, and keeps their number.
update_entry_lem :
    (change : NamedEndpoint → NamedEndpoint) (kc : Option (List NamedEndpoint)) (i : ℕ)
    (e : NamedEndpoint)
    → get_elem? (entries_of kc) i ≡ some e
    → (get_elem? (entries_of (update_entry change kc i)) i ≡ some (change e))
      × ((j : ℕ)
          → i ≢ j
          → get_elem? (entries_of (update_entry change kc i)) j ≡ get_elem? (entries_of kc) j)
      × (length (entries_of (update_entry change kc i)) ≡ length (entries_of kc))
unfolding update_entry
update_entry_lem change kc i e h =
    let es = entries_of kc in
    rw (h, update_entry)
      (
        get_elem?-set_self es i (change e) (lt-length_of_get_elem? es i h),
        (λ j ne. get_elem?-set_ne es i j (change e) ne),
        length-set es i (change e),
      )

set-IsFilled :
    (es : List NamedEndpoint) (i : ℕ) (e : NamedEndpoint)
    → IsFilled (some es)
    → IsFilled (some (set es i e))
set-IsFilled [] i e h = h
set-IsFilled (x ∷ es) zero e h = tt
set-IsFilled (x ∷ es) (suc i) e h = tt

pub update_entry-IsFilled :
    (change : NamedEndpoint → NamedEndpoint) (kc : Option (List NamedEndpoint)) (i : ℕ)
    → IsFilled kc
    → i < length (entries_of kc)
    → IsFilled (update_entry change kc i)
unfolding update_entry
update_entry-IsFilled change none i h lt = absurd (omega arith)
update_entry-IsFilled change (some es) i h lt = elim (Option-cases (get_elem? es i)) [
  | inl gone ↦ rw (gone, update_entry) h
  | inr (e, found) ↦ rw (found, update_entry) (set-IsFilled es i (change e) h)
]
