-- ===== src/Browser/Browse.antt =====
-- "Fetch" in TopicMessagesPage.tsx, and the query of `api.messages.browse` in lib/api.ts. The
-- conversion of a local date is a parameter, `none` where `toISOString` throws for an invalid date.
pub mod Query
pub mod Laws
use kafka_ui.Base.{
  ℕ, zero, suc, ◌+◌, Bool, true, false, not, ◌&&◌, ◌||◌, Option, none, some, List, [], ◌∷◌, ◌++◌,
  if◌then◌else◌, Text, codes, truthy, ℤ, pos, negsuc, parse_int,
}
use kafka_ui.Api.Messages.{BrowseParams}

pub data OffsetMode : Type 0 where
  latest earliest timestamp custom : OffsetMode

pub record Toolbar : Type 0 where
  pub partition : Text
  pub offset_mode : OffsetMode
  pub custom_offset : Text
  pub timestamp : Text
  pub limit : ℤ
  pub cel_filter : Text

abbrev pub initial_toolbar : Toolbar
initial_toolbar = record {
  partition = [];
  offset_mode = earliest;
  custom_offset = [];
  timestamp = [];
  limit = pos 100;
  cel_filter = [];
}

-- `parseInt(e.target.value) || 100`
unfoldable pub limit_of : Text → ℤ
limit_of value = elim (parse_int value) [
  | none ↦ pos 100
  | some (pos zero) ↦ pos 100
  | some (pos (suc n)) ↦ pos (suc n)
  | some (negsuc n) ↦ negsuc n
]

abbrev blank_params : ℤ → BrowseParams
blank_params limit = record {
  partition = none;
  offset = none;
  limit = some (some limit);
  timestamp = none;
  filter = none;
}

module _ (to_iso_string : Text → Option Text) where
  unfoldable pub start_of : Toolbar → BrowseParams → Option BrowseParams
  start_of t p = elim t.offset_mode [
    | latest ↦ some (record p { offset = some (codes "latest") })
    | earliest ↦ some (record p { offset = some (codes "earliest") })
    | custom ↦ some (record p { offset = some t.custom_offset })
    | timestamp ↦ elim (to_iso_string t.timestamp) [
      | none ↦ none
      | some iso ↦ some (record p { timestamp = some iso })
    ]
  ]

  -- The parameters that "Fetch" asks for; `none` if it throws before it sets any.
  unfoldable pub fetch_params : Toolbar → Option BrowseParams
  unfolding start_of
  fetch_params t =
      let p : BrowseParams = record (blank_params t.limit) {
        partition = if truthy t.partition then some (parse_int t.partition) else none;
      } in
      elim (start_of t p) [
        | none ↦ none
        | some q ↦ some (if truthy t.cel_filter then record q { filter = some t.cel_filter } else q)
      ]

-- The pairs that `api.messages.browse` sets, in their order. `String` of a number is a parameter,
-- `none` is NaN.
abbrev pub Query : Type 0
Query = List (Text × Text)

-- `if (value) searchParams.set(name, value)`
abbrev pub set_text : Text → Option Text → Query
set_text name none = []
set_text name (some value) = if truthy value then (name, value) ∷ [] else []

module _ (to_string : Option ℤ → Text) where
  -- `if (value !== undefined) searchParams.set(name, String(value))`
  abbrev pub set_number : Text → Option (Option ℤ) → Query
  set_number name none = []
  set_number name (some n) = (name, to_string n) ∷ []

  unfoldable pub browse_query : BrowseParams → Query
  browse_query p =
      set_number (codes "partition") p.partition
      ++ (set_text (codes "offset") p.offset
          ++ (set_number (codes "limit") p.limit
              ++ (set_text (codes "timestamp") p.timestamp ++ set_text (codes "filter") p.filter)))
