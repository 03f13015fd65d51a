-- ===== src/Schemas/Detail.antt =====
-- frontend/src/pages/SchemaDetailPage.tsx: which version of a schema is shown.
pub mod Laws
use kafka_ui.Base.{
  ℕ, Bool, true, false, ◌==◌, leb, Option, none, some, List, [], ◌∷◌, get_elem?, if◌then◌else◌,
  Text,
}

pub record SchemaVersion : Type 0 where
  pub version : ℕ
  pub id : ℕ
  pub schema : Text
  pub schema_type : Text

-- `sort((a, b) => b.version - a.version)`, which keeps the order of equal versions.
unfoldable pub insert_version : SchemaVersion → List SchemaVersion → List SchemaVersion
insert_version v [] = v ∷ []
insert_version v (w ∷ ws) =
    let rest = insert_version v ws in if leb w.version v.version then v ∷ w ∷ ws else w ∷ rest

unfoldable pub sorted_versions : List SchemaVersion → List SchemaVersion
sorted_versions [] = []
sorted_versions (v ∷ vs) = insert_version v (sorted_versions vs)

abbrev pub latest_version : List SchemaVersion → Option SchemaVersion
latest_version vs = elim (sorted_versions vs) [ [] ↦ none | v ∷ rest ↦ some v ]

-- `selectedVersion ?? latestVersion?.version ?? null`
abbrev pub active_version : Option ℕ → List SchemaVersion → Option ℕ
active_version (some n) vs = some n
active_version none vs = elim (latest_version vs) [ none ↦ none | some v ↦ some v.version ]

-- `versions.find((v) => v.version === n)`
unfoldable pub find_version : ℕ → List SchemaVersion → Option SchemaVersion
find_version n [] = none
find_version n (v ∷ vs) = if v.version == n then some v else find_version n vs

unfoldable pub active_schema : Option ℕ → List SchemaVersion → Option SchemaVersion
active_schema selected vs = elim (active_version selected vs) [
  | none ↦ none
  | some n ↦ find_version n vs
]

-- A click on a button of a row, or on one of those over the text: both lists are sorted.
unfoldable pub view_clicked : ℕ → List SchemaVersion → Option ℕ → Option ℕ
view_clicked i vs selected = elim (get_elem? (sorted_versions vs) i) [
  | none ↦ selected
  | some v ↦ some v.version
]
