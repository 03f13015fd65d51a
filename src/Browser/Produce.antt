-- ===== src/Browser/Produce.antt =====
-- The form for a new message in TopicMessagesPage.tsx. A header object is read by its keys only, so
-- the order that JavaScript gives to numeric keys is left out.
pub mod Laws
use kafka_ui.Base.{
  ℕ, Bool, true, false, not, ◌&&◌, Option, none, some, List, [], ◌∷◌, ◌++◌, length, get_elem?, set,
  erase_idx, ltb, if◌then◌else◌, Text, codes, truthy, text_eq,
}
use kafka_ui.Api.Messages.{ProduceRequest, Headers}
use kafka_ui.Api.Errors.{Settled, resolved, rejected}

pub record HeaderRow : Type 0 where
  pub key : Text
  pub value : Text

pub record ProduceForm : Type 0 where
  pub is_open : Bool
  pub request : ProduceRequest
  pub headers : List HeaderRow
  pub sending : List ProduceRequest

abbrev pub blank_message : ProduceRequest
blank_message = record { key = []; value = []; partition = none; headers = none }

abbrev pub initial_form : ProduceForm
initial_form = record { is_open = false; request = blank_message; headers = []; sending = [] }

-- `headers[key] = value` on a plain object, which ignores a string for "__proto__".
unfoldable pub put : Headers → Text → Text → Headers
put [] k v = (k, v) ∷ []
put ((l, w) ∷ hs) k v = let rest = put hs k v in if text_eq k l then (l, v) ∷ hs else (l, w) ∷ rest

unfoldable pub assign : Headers → Text → Text → Headers
unfolding put
assign hs k v = if text_eq k (codes "__proto__") then hs else put hs k v

unfoldable pub collect : Headers → List HeaderRow → Headers
unfolding assign
collect hs [] = hs
collect hs (r ∷ rows) =
    let hs' : Headers = if truthy r.key then assign hs r.key r.value else hs in collect hs' rows

unfoldable pub message_of : ProduceForm → ProduceRequest
unfolding collect
message_of f =
    let headers = collect [] f.headers in
    record f.request { headers = if ltb 0 (length headers) then some headers else none }

unfoldable pub handle_produce : ProduceForm → ProduceForm
unfolding message_of
handle_produce f = record f { sending = message_of f ∷ f.sending }

unfoldable pub produce_settles : Settled (Unit {0}) → ProduceForm → ProduceForm
produce_settles (resolved u) f = record initial_form { sending = f.sending }
produce_settles (rejected e) f = f

pub data Event : Type 0 where
  opened closed : Event
  key_typed value_typed : Text → Event
  header_added : Event
  header_key_typed header_value_typed : ℕ → Text → Event
  header_removed : ℕ → Event
  sent : Event
  settled : ℕ → Settled (Unit {0}) → Event

unfoldable pub change_header : (HeaderRow → HeaderRow) → ℕ → List HeaderRow → List HeaderRow
change_header change i rows = elim (get_elem? rows i) [
  | none ↦ rows
  | some r ↦ set rows i (change r)
]

-- The dialog's controls act while it is open; `isPending` disables "Send".
unfoldable pub act : ProduceForm → Event → ProduceForm
unfolding change_header handle_produce produce_settles
act f opened = record f { is_open = true }
act f closed = record f { is_open = false }
act f (key_typed v) = if f.is_open then record f { request = record f.request { key = v } } else f
act f (value_typed v) =
    if f.is_open then record f { request = record f.request { value = v } } else f
act f header_added =
    if f.is_open
    then record f { headers = f.headers ++ (record { key = []; value = [] } ∷ []) }
    else f
act f (header_key_typed i v) =
    if f.is_open
    then record f { headers = change_header (λ r. record r { key = v }) i f.headers }
    else f
act f (header_value_typed i v) =
    if f.is_open
    then record f { headers = change_header (λ r. record r { value = v }) i f.headers }
    else f
act f (header_removed i) = if f.is_open then record f { headers = erase_idx f.headers i } else f
act f sent = if f.is_open && not (ltb 0 (length f.sending)) then handle_produce f else f
act f (settled i o) = elim (get_elem? f.sending i) [
  | none ↦ f
  | some r ↦ produce_settles o (record f { sending = erase_idx f.sending i })
]
