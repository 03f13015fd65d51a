-- ===== src/LiveTail/Tests.antt =====
-- The live tail's theorems on concrete sockets.
use kafka_ui.Base.{
  ◌≡◌, refl, false, none, some, List, [], ◌∷◌, ◌++◌, get_elem?, take, Text, codes, arith,
}
use kafka_ui.Api.Messages.{MessageRecord}
use kafka_ui.LiveTail.{
  Hook, initial_hook, Socket, open_now, closing, connected, disconnected, start, stop, limit, Event,
  connect_called, disconnect_called, opened, received, ended, act, run, connect, disconnect,
  open_socket, socket_url, report, set_ready, on_open, on_message, on_close,
}
use kafka_ui.LiveTail.Sockets.{NoLeak}
use kafka_ui.LiveTail.Messages.{history, run-messages}
use kafka_ui.LiveTail.Leak.{act-NoLeak, late_end_leaks}

abbrev host : Text
host = codes "ui:8080"

abbrev path : Text
path = codes "/ws/live"

abbrev message : MessageRecord
message = record {
  partition = 0;
  offset = 7;
  timestamp = codes "t";
  key = [];
  value = codes "v";
  headers = none;
  key_format = none;
  value_format = none;
}

-- A restart while the old socket is still closing, and then the old socket's end.
abbrev restart : List Event
restart =
    connect_called (some path) none
    ∷ opened 0
    ∷ disconnect_called
    ∷ connect_called (some path) none
    ∷ opened 1
    ∷ []

events : Unit {0}
unfolding run act connect disconnect open_socket socket_url report set_ready on_open on_message
    on_close
events = tt

restart_state : (run false host initial_hook restart).ref ≡ some 1
unfolding events
restart_state = refl

restart_leaks : (run false host initial_hook (restart ++ ended 0 ∷ [])).ref ≡ none
unfolding events
restart_leaks = refl

messages_kept :
    (run false host initial_hook
      (restart ++ received 1 (some message) ∷ received 1 none ∷ [])).messages
    ≡ message ∷ []
unfolding events
messages_kept = refl

abbrev old_socket : Socket
old_socket = record { url = path; ready = closing; sent = stop ∷ start ∷ [] }

abbrev new_socket : Socket
new_socket = record { url = path; ready = open_now; sent = start ∷ [] }

abbrev restarted : Hook
restarted = record {
  messages = [];
  state = connected;
  ref = some 1;
  sockets = old_socket ∷ new_socket ∷ [];
}

run-messages_example :
    (run false host initial_hook restart).messages
    ≡ take limit (history false host initial_hook restart [])
run-messages_example = run-messages false host initial_hook restart [] refl

initial_hook-NoLeak : NoLeak initial_hook
initial_hook-NoLeak k s e alive = cc

act-NoLeak_example : NoLeak (act false host initial_hook (connect_called (some path) none))
act-NoLeak_example =
    act-NoLeak false host initial_hook (connect_called (some path) none) tt initial_hook-NoLeak

late_end_leaks_example :
    let h' = act false host restarted (ended 0) in
    (h'.state ≡ disconnected)
    × (h'.ref ≡ none)
    × (get_elem? h'.sockets 1 ≡ some new_socket)
    × (get_elem? (act false host h' disconnect_called).sockets 1 ≡ some new_socket)
late_end_leaks_example =
    late_end_leaks false host restarted 0 1 old_socket new_socket refl refl refl
      (λ e. absurd (omega arith)) refl
