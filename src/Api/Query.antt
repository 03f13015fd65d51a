-- ===== src/Api/Query.antt =====
-- What a page knows of a query, `useQuery`: the first request and a retry show `loading`.
use kafka_ui.Base.{Bool, true, false}
use kafka_ui.Api.Errors.{Thrown}

pub data Query (Data : Type 0) : Type 0 where
  loading : Query Data
  failed : Thrown → Query Data
  loaded : Data → Query Data

abbrev pub is_loaded : {Data : Type 0} → Query Data → Bool
is_loaded loading = false
is_loaded (failed e) = false
is_loaded (loaded d) = true

-- What holds of the data that is shown.
abbrev pub IsGiven : {Data : Type 0} → (Data → Type 0) → Query Data → Type 0
IsGiven P (loaded d) = P d
IsGiven P _ = Unit
