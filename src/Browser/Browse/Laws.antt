-- ===== src/Browser/Browse/Laws.antt =====
-- What the server is asked for by "Fetch".
use kafka_ui.Base.{
  ◌≡◌, refl, sym, ap, Bool-cases, Option-cases, ◌∙◌, ◌⊎◌, inl, inr, Option, none, some, [], ◌∷◌,
  if◌then◌else◌, ◌↔◌, Text, codes, truthy, ℤ, parse_int,
}
use kafka_ui.Api.Messages.{BrowseParams}
use kafka_ui.Browser.Browse.Query.{
  some-inj, lookup, given, given_option, given_number, browse_query-Finds,
}
use kafka_ui.Browser.Browse.{
  OffsetMode, latest, earliest, timestamp, custom, Toolbar, start_of, fetch_params, Query,
  browse_query,
}

mode_cases : (m : OffsetMode) → (m ≡ latest) ⊎ ((m ≡ earliest) ⊎ ((m ≡ custom) ⊎ (m ≡ timestamp)))
mode_cases latest = inl refl
mode_cases earliest = inr (inl refl)
mode_cases custom = inr (inr (inl refl))
mode_cases timestamp = inr (inr (inr refl))

module _ (to_iso_string : Text → Option Text) (to_string : Option ℤ → Text) where
  -- The offset and the timestamp to start from.
  abbrev pub asked_start : Toolbar → Option Text × Option Text
  asked_start t = elim t.offset_mode [
    | latest ↦ (some (codes "latest"), none)
    | earliest ↦ (some (codes "earliest"), none)
    | custom ↦ (given t.custom_offset, none)
    | timestamp ↦ (none, elim (to_iso_string t.timestamp) [ none ↦ none | some iso ↦ given iso ])
  ]

  -- The query names what the toolbar shows.
  abbrev pub AsAsked : Toolbar → Query → Type 0
  AsAsked t q =
      (lookup (codes "partition") q
        ≡ (if truthy t.partition then some (to_string (parse_int t.partition)) else none))
      × (lookup (codes "offset") q ≡ (asked_start t).0)
      × (lookup (codes "limit") q ≡ some (to_string (some t.limit)))
      × (lookup (codes "timestamp") q ≡ (asked_start t).1)
      × (lookup (codes "filter") q ≡ given t.cel_filter)

  -- The fields of the parameters, by the toolbar's.
  abbrev Fields : Toolbar → BrowseParams → Option Text → Option Text → Type 0
  Fields t p offset at =
      (given_number to_string p.partition
        ≡ (if truthy t.partition then some (to_string (parse_int t.partition)) else none))
      × (given_option p.offset ≡ offset)
      × (given_number to_string p.limit ≡ some (to_string (some t.limit)))
      × (given_option p.timestamp ≡ at)
      × (given_option p.filter ≡ given t.cel_filter)

  partition_field :
      (t : Text)
      → given_number to_string (if truthy t then some (parse_int t) else none)
        ≡ (if truthy t then some (to_string (parse_int t)) else none)
  unfolding given_number
  partition_field [] = refl
  partition_field (c ∷ t) = refl

  -- The last step of "Fetch", which puts in the filter.
  with_filter :
      (t : Toolbar) (q p : BrowseParams)
      → given_number to_string q.partition
        ≡ (if truthy t.partition then some (to_string (parse_int t.partition)) else none)
      → q.limit ≡ some (some t.limit)
      → q.filter ≡ none
      → some (if truthy t.cel_filter then record q { filter = some t.cel_filter } else q) ≡ some p
      → Fields t p (given_option q.offset) (given_option q.timestamp)
  unfolding given_option given_number
  with_filter t q p part lim fil h = elim (Bool-cases (truthy t.cel_filter)) [
    | inl on ↦
        let e : p ≡ record q { filter = some t.cel_filter } =
          some-inj (
            sym h ∙ ap (λ b. some (if b then record q { filter = some t.cel_filter } else q)) on) in
        rw (e, lim) (part, refl, refl, refl, refl)
    | inr off ↦
        let e : p ≡ q =
          some-inj (
            sym h
            ∙ ap (λ b. some (if b then record q { filter = some t.cel_filter } else q)) off) in
        rw (e, lim, fil, off) (part, refl, refl, refl, refl)
  ]

  -- What the choice of the start puts into the parameters.
  abbrev Started : Toolbar → BrowseParams → BrowseParams → Type 0
  Started t p q =
      (start_of to_iso_string t p ≡ some q)
      × (q.partition ≡ p.partition)
      × (q.limit ≡ p.limit)
      × (q.filter ≡ p.filter)
      × (given_option q.offset ≡ (asked_start t).0)
      × (given_option q.timestamp ≡ (asked_start t).1)

  start_cases :
      (t : Toolbar) (p : BrowseParams)
      → p.offset ≡ none
      → p.timestamp ≡ none
      → ((start_of to_iso_string t p ≡ none)
          × (t.offset_mode ≡ timestamp)
          × (to_iso_string t.timestamp ≡ none))
        ⊎ ((q : BrowseParams) × Started t p q)
  unfolding start_of given_option
  start_cases t p o at = elim (mode_cases t.offset_mode) [
    | inl m ↦ inr (
      record p { offset = some (codes "latest") },
      rw (m, start_of, at) (refl, refl, refl, refl, refl, refl),
    )
    | inr (inl m) ↦ inr (
      record p { offset = some (codes "earliest") },
      rw (m, start_of, at) (refl, refl, refl, refl, refl, refl),
    )
    | inr (inr (inl m)) ↦ inr (
      record p { offset = some t.custom_offset },
      rw (m, start_of, at) (refl, refl, refl, refl, refl, refl),
    )
    | inr (inr (inr m)) ↦ elim (Option-cases (to_iso_string t.timestamp)) [
      | inl bad ↦ inl (rw (m, start_of, bad) (refl, refl, refl))
      | inr (iso, good) ↦ inr (
        record p { timestamp = some iso },
        rw (m, start_of, good, o) (refl, refl, refl, refl, refl, refl),
      )
    ]
  ]

  abbrev base_params : Toolbar → BrowseParams
  base_params t = record {
    partition = if truthy t.partition then some (parse_int t.partition) else none;
    offset = none;
    limit = some (some t.limit);
    timestamp = none;
    filter = none;
  }

  -- The last step of "Fetch".
  abbrev finished : Toolbar → BrowseParams → BrowseParams
  finished t q = if truthy t.cel_filter then record q { filter = some t.cel_filter } else q

  fetch_none :
      (t : Toolbar)
      → start_of to_iso_string t (base_params t) ≡ none
      → fetch_params to_iso_string t ≡ none
  unfolding fetch_params
  fetch_none t h = rw (fetch_params, h) refl

  fetch_some :
      (t : Toolbar) (q : BrowseParams)
      → start_of to_iso_string t (base_params t) ≡ some q
      → fetch_params to_iso_string t ≡ some (finished t q)
  unfolding fetch_params
  fetch_some t q h = rw (fetch_params, h) refl

  throwing :
      (t : Toolbar) (p : BrowseParams)
      → t.offset_mode ≡ timestamp
      → to_iso_string t.timestamp ≡ none
      → start_of to_iso_string t p ≡ none
  unfolding start_of
  throwing t p m bad = rw (m, start_of, bad) refl

  throws :
      (t : Toolbar)
      → t.offset_mode ≡ timestamp
      → to_iso_string t.timestamp ≡ none
      → fetch_params to_iso_string t ≡ none
  throws t m bad = fetch_none t (throwing t (base_params t) m bad)

  Started-query :
      (t : Toolbar) (q p : BrowseParams)
      → Started t (base_params t) q
      → fetch_params to_iso_string t ≡ some p
      → AsAsked t (browse_query to_string p)
  Started-query t q p (s, part, lim, fil, o, at) h =
      let (f1, f2, f3, f4, f5) =
        with_filter t q p (ap (given_number to_string) part ∙ partition_field t.partition) lim fil
          (sym (fetch_some t q s) ∙ h) in
      let (q1, q2, q3, q4, q5) = browse_query-Finds to_string p in
      (q1 ∙ f1, q2 ∙ (f2 ∙ o), q3 ∙ f3, q4 ∙ (f4 ∙ at), q5 ∙ f5)

  -- "Fetch" asks for what the toolbar shows: the query holds the partition if one is typed, the
  -- limit, the filter if one is typed, and as its start the offset "latest", "earliest" or the typed
  -- one, if any, or else the timestamp; and "Fetch" asks for nothing exactly if it is to start at
  -- a timestamp that is no date.
  pub fetch_params-query :
      (t : Toolbar)
      → ((p : BrowseParams)
          → fetch_params to_iso_string t ≡ some p
          → AsAsked t (browse_query to_string p))
        × ((fetch_params to_iso_string t ≡ none)
            ↔ ((t.offset_mode ≡ timestamp) × (to_iso_string t.timestamp ≡ none)))
  fetch_params-query t = elim (start_cases t (base_params t) refl refl) [
    | inl (stuck, m, bad) ↦ (
      λ p h. let clash : none ≡ some p = sym (throws t m bad) ∙ h in cc,
      (λ h. (m, bad), λ h. throws t m bad),
    )
    | inr (q, started) ↦ (
      λ p h. Started-query t q p started h,
      (
        λ h. let clash : some (finished t q) ≡ none = sym (fetch_some t q started.0) ∙ h in cc,
        λ h. throws t h.0 h.1,
      ),
    )
  ]
