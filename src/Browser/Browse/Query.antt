-- ===== src/Browser/Browse/Query.antt =====
-- What the query of `api.messages.browse` holds under each name.
use kafka_ui.Base.{
  ◌≡◌, refl, sym, ap, ◌∙◌, ◌⊎◌, inl, inr, append-nil, text_eq_refl, false, Option, none, some, [],
  ◌∷◌, ◌++◌, if◌then◌else◌, Text, codes, truthy, text_eq, ℤ,
}
use kafka_ui.Api.Messages.{BrowseParams}
use kafka_ui.Browser.Browse.{Query, set_text, set_number, browse_query}

unfoldable pub lookup : Text → Query → Option Text
lookup k [] = none
lookup k ((l, v) ∷ q) = let rest = lookup k q in if text_eq k l then some v else rest

pub some-inj {ℓ} : {A : Type ℓ} {a b : A} → some a ≡ some b → a ≡ b
some-inj h = cc

-- A part of the query that sets one name at most.
Only : Text → Query → Type 0
Only name q = (q ≡ []) ⊎ ((v : Text) × (q ≡ (name, v) ∷ []))

set_text-Only : (name : Text) (o : Option Text) → Only name (set_text name o)
unfolding Only
set_text-Only name none = inl refl
set_text-Only name (some []) = inl refl
set_text-Only name (some (c ∷ v)) = inr (c ∷ v, refl)

lookup-skip :
    (k name : Text) (q rest : Query)
    → Only name q
    → text_eq k name ≡ false
    → lookup k (q ++ rest) ≡ lookup k rest
unfolding lookup Only
lookup-skip k name q rest (inl none_set) h = rw none_set refl
lookup-skip k name q rest (inr (v, one_set)) h = rw (one_set, h) refl

abbrev pub given : Text → Option Text
given t = if truthy t then some t else none

unfoldable pub given_option : Option Text → Option Text
given_option none = none
given_option (some t) = given t

lookup-text :
    (k : Text) (o : Option Text) (rest : Query)
    → lookup k rest ≡ none
    → lookup k (set_text k o ++ rest) ≡ given_option o
unfolding lookup given_option
lookup-text k none rest h = h
lookup-text k (some []) rest h = h
lookup-text k (some (c ∷ v)) rest h = rw (text_eq_refl k) refl

module _ (to_string : Option ℤ → Text) where
  unfoldable pub given_number : Option (Option ℤ) → Option Text
  given_number none = none
  given_number (some n) = some (to_string n)

  set_number-Only : (name : Text) (o : Option (Option ℤ)) → Only name (set_number to_string name o)
  unfolding Only
  set_number-Only name none = inl refl
  set_number-Only name (some n) = inr (to_string n, refl)

  lookup-number :
      (k : Text) (o : Option (Option ℤ)) (rest : Query)
      → lookup k rest ≡ none
      → lookup k (set_number to_string k o ++ rest) ≡ given_number o
  unfolding lookup given_number
  lookup-number k none rest h = h
  lookup-number k (some n) rest h = rw (text_eq_refl k) refl

  module _ (p : BrowseParams) where
    -- The pieces of the query from one name on.
    abbrev from_filter : Query
    from_filter = set_text (codes "filter") p.filter

    abbrev from_timestamp : Query
    from_timestamp = set_text (codes "timestamp") p.timestamp ++ from_filter

    abbrev from_limit : Query
    from_limit = set_number to_string (codes "limit") p.limit ++ from_timestamp

    abbrev from_offset : Query
    from_offset = set_text (codes "offset") p.offset ++ from_limit

    no_filter : (k : Text) → text_eq k (codes "filter") ≡ false → lookup k from_filter ≡ none
    unfolding lookup
    no_filter k h =
        rw (sym (append-nil from_filter)) (
          lookup-skip k (codes "filter") from_filter [] (set_text-Only (codes "filter") p.filter) h)

    no_timestamp :
        (k : Text)
        → text_eq k (codes "filter") ≡ false
        → text_eq k (codes "timestamp") ≡ false
        → lookup k from_timestamp ≡ none
    no_timestamp k f t =
        lookup-skip k (codes "timestamp") _ from_filter
          (set_text-Only (codes "timestamp") p.timestamp) t
        ∙ no_filter k f

    no_limit :
        (k : Text)
        → text_eq k (codes "filter") ≡ false
        → text_eq k (codes "timestamp") ≡ false
        → text_eq k (codes "limit") ≡ false
        → lookup k from_limit ≡ none
    no_limit k f t l =
        lookup-skip k (codes "limit") _ from_timestamp (set_number-Only (codes "limit") p.limit) l
        ∙ no_timestamp k f t

    no_offset :
        (k : Text)
        → text_eq k (codes "filter") ≡ false
        → text_eq k (codes "timestamp") ≡ false
        → text_eq k (codes "limit") ≡ false
        → text_eq k (codes "offset") ≡ false
        → lookup k from_offset ≡ none
    no_offset k f t l o =
        lookup-skip k (codes "offset") _ from_limit (set_text-Only (codes "offset") p.offset) o
        ∙ no_limit k f t l

    past_partition :
        (k : Text)
        → text_eq k (codes "partition") ≡ false
        → lookup k (browse_query to_string p) ≡ lookup k from_offset
    unfolding browse_query
    past_partition k h =
        lookup-skip k (codes "partition") _ from_offset
          (set_number-Only (codes "partition") p.partition) h

    past_offset :
        (k : Text)
        → text_eq k (codes "partition") ≡ false
        → text_eq k (codes "offset") ≡ false
        → lookup k (browse_query to_string p) ≡ lookup k from_limit
    past_offset k h o =
        past_partition k h
        ∙ lookup-skip k (codes "offset") _ from_limit (set_text-Only (codes "offset") p.offset) o

    past_limit :
        (k : Text)
        → text_eq k (codes "partition") ≡ false
        → text_eq k (codes "offset") ≡ false
        → text_eq k (codes "limit") ≡ false
        → lookup k (browse_query to_string p) ≡ lookup k from_timestamp
    past_limit k h o l =
        past_offset k h o
        ∙ lookup-skip k (codes "limit") _ from_timestamp (set_number-Only (codes "limit") p.limit) l

    past_timestamp :
        (k : Text)
        → text_eq k (codes "partition") ≡ false
        → text_eq k (codes "offset") ≡ false
        → text_eq k (codes "limit") ≡ false
        → text_eq k (codes "timestamp") ≡ false
        → lookup k (browse_query to_string p) ≡ lookup k from_filter
    past_timestamp k h o l t =
        past_limit k h o l
        ∙ lookup-skip k (codes "timestamp") _ from_filter
            (set_text-Only (codes "timestamp") p.timestamp) t

    lookup-filter : lookup (codes "filter") from_filter ≡ given_option p.filter
    lookup-filter =
        ap (lookup (codes "filter")) (sym (append-nil from_filter))
        ∙ lookup-text (codes "filter") p.filter [] (unfold lookup in refl)

    -- What the server finds under each name.
    abbrev pub Finds : Type 0
    Finds =
        let q = browse_query to_string p in
        (lookup (codes "partition") q ≡ given_number p.partition)
        × (lookup (codes "offset") q ≡ given_option p.offset)
        × (lookup (codes "limit") q ≡ given_number p.limit)
        × (lookup (codes "timestamp") q ≡ given_option p.timestamp)
        × (lookup (codes "filter") q ≡ given_option p.filter)

    pub browse_query-Finds : Finds
    unfolding text_eq
    browse_query-Finds = (
      unfold browse_query in
          lookup-number (codes "partition") p.partition from_offset
            (no_offset (codes "partition") refl refl refl refl),
      past_partition (codes "offset") refl
          ∙ lookup-text (codes "offset") p.offset from_limit
              (no_limit (codes "offset") refl refl refl),
      past_offset (codes "limit") refl refl
          ∙ lookup-number (codes "limit") p.limit from_timestamp
              (no_timestamp (codes "limit") refl refl),
      past_limit (codes "timestamp") refl refl refl
          ∙ lookup-text (codes "timestamp") p.timestamp from_filter
              (no_filter (codes "timestamp") refl),
      past_timestamp (codes "filter") refl refl refl refl ∙ lookup-filter,
    )
