-- ===== src/Browser/Tests.antt =====
-- The message browser's theorems on concrete input.
use kafka_ui.Base.{
  ◌≡◌, ◌↔◌, ◌⊎◌, refl, true, false, Option, none, some, List, [], ◌∷◌, any, Text, codes, trim,
  if◌then◌else◌, text_eq, ℤ,
}
use kafka_ui.Api.Messages.{BrowseParams}
use kafka_ui.Api.Errors.{Settled, resolved}
use kafka_ui.LiveTail.{initial_hook, connecting}
use kafka_ui.Browser.Filter.{CelResult, initial_filter, Event, typed, timer_fired, answered, run}
use kafka_ui.Browser.Filter.Laws.{verdict, is_live, run_shows_current}
use kafka_ui.Browser.Browse.{
  Toolbar, initial_toolbar, custom, timestamp, fetch_params, browse_query,
}
use kafka_ui.Browser.Browse.Laws.{AsAsked, fetch_params-query}
use kafka_ui.Browser.Produce.{ProduceForm, blank_message, initial_form}
use kafka_ui.Browser.Page.{BrowserPage}

-- A server that takes "true" and refuses all else.
abbrev validate : Text → Settled CelResult
validate t =
    if text_eq t (codes "true")
    then resolved (record { valid = true; error = none })
    else resolved (record { valid = false; error = some (codes "undeclared reference") })

-- The answer to "tru" comes after the filter has changed, and after the answer to "true".
abbrev typing : List Event
typing =
    typed (codes "tru")
    ∷ timer_fired
    ∷ typed (codes "true")
    ∷ timer_fired
    ∷ answered 0
    ∷ answered 0
    ∷ []

late_answer :
    (run validate initial_filter typing).valid ≡ some (record { valid = true; error = none })
unfolding run text_eq trim
late_answer = refl

run_shows_current_example :
    let s = run validate initial_filter typing in
    (s.validating ≡ false → s.valid ≡ verdict validate s.filter)
    × (s.validating ≡ true → (s.timer ≡ some s.filter) ⊎ (any is_live s.requests ≡ true))
run_shows_current_example = run_shows_current validate typing

timer_set : (run validate initial_filter (typed (codes "true") ∷ [])).timer ≡ some (codes "true")
unfolding run text_eq trim
timer_set = refl

abbrev no_date : Text → Option Text
no_date t = none

abbrev to_string : Option ℤ → Text
to_string none = codes "NaN"
to_string (some n) = codes "100"

abbrev at_five : Toolbar
at_five = record initial_toolbar { offset_mode = custom; custom_offset = codes "5" }

fetch_params-query_example :
    ((p : BrowseParams)
      → fetch_params no_date at_five ≡ some p
      → AsAsked no_date to_string at_five (browse_query to_string p))
    × ((fetch_params no_date at_five ≡ none)
        ↔ ((at_five.offset_mode ≡ timestamp) × (no_date at_five.timestamp ≡ none)))
fetch_params-query_example = fetch_params-query no_date to_string at_five

abbrev form : ProduceForm
form = record initial_form {
  is_open = true;
  headers =
      record { key = codes "a"; value = codes "1" }
      ∷ record { key = []; value = codes "2" }
      ∷ record { key = codes "a"; value = codes "3" }
      ∷ [];
}

abbrev sending : ProduceForm
sending = record form { sending = blank_message ∷ [] }

abbrev page : BrowserPage
page = record {
  toolbar = initial_toolbar;
  check = initial_filter;
  params = none;
  nonce = 0;
  expanded = none;
  hook = initial_hook;
}

abbrev live_page : BrowserPage
live_page = record page { hook = record initial_hook { state = connecting; ref = none } }

abbrev address : Option Text
address = some (codes "/ws/clusters/c/topics/t/live")
