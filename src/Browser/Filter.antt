-- ===== src/Browser/Filter.antt =====
-- The debounced check of the CEL filter in TopicMessagesPage.tsx. What the server says of an
-- expression is a parameter: its compiler answers the same expression in the same way.
pub mod Laws
use kafka_ui.Base.{
  ℕ, Bool, true, false, not, Option, none, some, List, [], ◌∷◌, map, get_elem?, erase_idx,
  if◌then◌else◌, Text, truthy, trim, text_eq,
}
use kafka_ui.Api.Errors.{Settled, resolved, rejected}

-- The answer of `api.cel.validate`.
pub record CelResult : Type 0 where
  pub valid : Bool
  pub error : Option Text

-- A request under way, with the variable `cancelled` of the effect that sent it.
pub record Request : Type 0 where
  pub expression : Text
  pub cancelled : Bool

-- `timer` is the timer of the last effect, with the filter that it will send.
pub record FilterState : Type 0 where
  pub filter : Text
  pub valid : Option CelResult
  pub validating : Bool
  pub timer : Option Text
  pub requests : List Request

abbrev pub initial_filter : FilterState
initial_filter = record {
  filter = [];
  valid = none;
  validating = false;
  timer = none;
  requests = [];
}

abbrev pub cancel : Request → Request
cancel r = record r { cancelled = true }

-- The cleanup of the effect: every older effect has been cleaned up before.
unfoldable pub clean_up : FilterState → FilterState
clean_up s = record s { timer = none; requests = map cancel s.requests }

unfoldable pub run_effect : FilterState → FilterState
run_effect s =
    if not (truthy (trim s.filter))
    then record s { valid = none; validating = false }
    else record s { validating = true; timer = some s.filter }

-- `setCelFilter`: the effect runs again only for a filter that differs.
unfoldable pub type_filter : Text → FilterState → FilterState
unfolding clean_up run_effect
type_filter t s = if text_eq t s.filter then s else run_effect (record (clean_up s) { filter = t })

unfoldable pub fire_timer : FilterState → FilterState
fire_timer s = elim s.timer [
  | none ↦ s
  | some t ↦ record s {
    timer = none;
    requests = record { expression = t; cancelled = false } ∷ s.requests;
  }
]

-- What the request's `try`, `catch` and `finally` do to the state.
unfoldable pub settle : Settled CelResult → FilterState → FilterState
settle (resolved r) s = record s { valid = some r; validating = false }
settle (rejected e) s = record s { valid = none; validating = false }

pub data Event : Type 0 where
  typed : Text → Event
  timer_fired : Event
  answered : ℕ → Event

module _ (validate : Text → Settled CelResult) where
  unfoldable pub answer : ℕ → FilterState → FilterState
  unfolding settle
  answer i s = elim (get_elem? s.requests i) [
    | none ↦ s
    | some r ↦
        let s' : FilterState = record s { requests = erase_idx s.requests i } in
        if r.cancelled then s' else settle (validate r.expression) s'
  ]

  unfoldable pub act : FilterState → Event → FilterState
  unfolding type_filter fire_timer answer
  act s (typed t) = type_filter t s
  act s timer_fired = fire_timer s
  act s (answered i) = answer i s

  unfoldable pub run : FilterState → List Event → FilterState
  unfolding act
  run s [] = s
  run s (e ∷ es) = run (act s e) es
