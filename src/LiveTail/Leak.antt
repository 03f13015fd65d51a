-- ===== src/LiveTail/Leak.antt =====
-- When the hook keeps its hold on every living socket, and when it loses one.
use kafka_ui.Base.{
  ℕ, ◌≡◌, ◌≢◌, refl, sym, ap, ◌∙◌, ◌⊎◌, inl, inr, Bool, true, false, Option, none, some, [], ◌∷◌,
  ◌++◌, length, get_elem?, arith, Text, truthy, Option-cases, if_elim,
}
use kafka_ui.LiveTail.{
  Hook, Socket, ReadyState, closing, closed, disconnected, connect, disconnect, unmount, close,
  send, start, set_ready, report, browser_step, ready_of, on_open, on_message, on_close, on_error,
  Event, connect_called, disconnect_called, clear_called, unmounted, opened, failed, received,
  ended, act, clear, connecting, open_socket,
}
use kafka_ui.LiveTail.Sockets.{
  alive_ready, is_alive, NoLeak, at_socket-NoLeak, release-NoLeak, get_elem?-append_new,
  get_elem?-at_socket_ne,
}

close_ends : (s : Socket) → is_alive (close s) ≡ false
close_ends s = ground arith

close_keeps : (s : Socket) → is_alive (close s) ≡ true → is_alive s ≡ true
close_keeps s h = ground arith

disconnect-NoLeak : (h : Hook) → NoLeak h → NoLeak (disconnect h)
unfolding disconnect
disconnect-NoLeak h ok = elim (Option-cases h.ref) [
  | inl free ↦ rw (free, disconnect) ok
  | inr (i, held) ↦ rw (held, disconnect) (release-NoLeak h i _ held (λ t. close_ends _) ok)
]

unmount-NoLeak : (h : Hook) → NoLeak h → NoLeak (unmount h)
unfolding unmount
unmount-NoLeak h ok = elim (Option-cases h.ref) [
  | inl free ↦ rw (free, unmount) ok
  | inr (i, held) ↦ rw (held, unmount) (release-NoLeak h i close held close_ends ok)
]

added-NoLeak :
    (h : Hook) (new : Socket)
    → h.ref ≡ none
    → NoLeak h
    → NoLeak (record h {
      state = connecting;
      sockets = h.sockets ++ (new ∷ []);
      ref = some (length h.sockets);
    })
added-NoLeak h new free ok k s e alive = from (get_elem?-append_new h.sockets new k s e)
  where
    from :
        (get_elem? h.sockets k ≡ some s) ⊎ (k ≡ length h.sockets) → some (length h.sockets) ≡ some k
    from (inl old) = let held : none ≡ some k = sym free ∙ ok k s old alive in cc
    from (inr at) = ap some (sym at)

open_socket-NoLeak :
    (ws_url : Option Text) (h : Hook) → h.ref ≡ none → NoLeak h → NoLeak (open_socket ws_url h)
unfolding open_socket
open_socket-NoLeak none h free ok = ok
open_socket-NoLeak (some ws_url) h free ok = added-NoLeak h _ free ok

browser_step_alive :
    (e : Event) (r r' : ReadyState)
    → browser_step e r ≡ some r'
    → alive_ready r' ≡ true
    → alive_ready r ≡ true
browser_step_alive e r r' h k = ground arith

set_ready-NoLeak :
    (i : ℕ) (e : Event) (r : ReadyState) (h : Hook)
    → browser_step e (ready_of i h) ≡ some r
    → NoLeak h
    → NoLeak (set_ready i r h)
unfolding set_ready
set_ready-NoLeak i e r h step ok =
    at_socket-NoLeak h i _
      (λ t found alive.
        let at : ready_of i h ≡ t.ready = rw (found, ready_of) refl in
        browser_step_alive e t.ready r (rw at at step) alive)
      ok

-- A report keeps the hold, if its handler does.
report-NoLeak :
    (i : ℕ) (e : Event) (handler : Hook → Hook) (h : Hook)
    → ((r : ReadyState)
        → browser_step e (ready_of i h) ≡ some r
        → NoLeak (handler (set_ready i r h)))
    → NoLeak h
    → NoLeak (report i e handler h)
unfolding report
report-NoLeak i e handler h keeps ok = elim (Option-cases (browser_step e (ready_of i h))) [
  | inl never ↦ rw (never, report) ok
  | inr (r, there) ↦ rw (there, report) (keeps r there)
]

-- The event is no report that a socket ended whose place `wsRef` has given to another one.
abbrev pub IsOnTime : Hook → Event → Type 0
IsOnTime h (ended i) = (h.ref ≡ none) ⊎ (h.ref ≡ some i)
IsOnTime h _ = Unit

ended_step : (i : ℕ) (r r' : ReadyState) → browser_step (ended i) r ≡ some r' → r' ≡ closed
ended_step i r r' h = ground arith

on_close-NoLeak :
    (i : ℕ) (r : ReadyState) (h : Hook)
    → browser_step (ended i) (ready_of i h) ≡ some r
    → IsOnTime h (ended i)
    → NoLeak h
    → NoLeak (on_close (set_ready i r h))
unfolding on_close
on_close-NoLeak i r h step (inl free) ok =
    let kept = set_ready-NoLeak i (ended i) r h step ok in
    λ k s e alive. sym free ∙ unfold set_ready in kept k s e alive
on_close-NoLeak i r h step (inr held) ok =
    unfold set_ready in
    release-NoLeak h i (λ s. record s { ready = r }) held
      (λ t. ap alive_ready (ended_step i _ r step)) ok

module _ (https : Bool) (host : Text) where
  connect-NoLeak :
      (url filter : Option Text) (h : Hook) → NoLeak h → NoLeak (connect https host url filter h)
  unfolding connect
  connect-NoLeak none filter h ok = ok
  connect-NoLeak (some url) filter h ok = elim (Option-cases h.ref) [
    | inr (i, held) ↦ rw (held, connect) ok
    | inl free ↦
        rw (free, connect)
          (if_elim NoLeak (truthy url) (λ _. open_socket-NoLeak _ h free ok) (λ _. ok))
  ]

  -- Every call of the page, and every report of a socket that comes before another socket has taken
  -- its place, keeps each living socket within the reach of `disconnect`.
  pub act-NoLeak : (h : Hook) (e : Event) → IsOnTime h e → NoLeak h → NoLeak (act https host h e)
  unfolding act
  act-NoLeak h (connect_called url filter) t ok = connect-NoLeak url filter h ok
  act-NoLeak h disconnect_called t ok = disconnect-NoLeak h ok
  act-NoLeak h clear_called t ok = unfold clear in ok
  act-NoLeak h unmounted t ok = unmount-NoLeak h ok
  act-NoLeak h (opened i) t ok =
      report-NoLeak i (opened i) (on_open i) h
        (λ r step.
          unfold on_open in
          at_socket-NoLeak (set_ready i r h) i (send start) (λ _ _ a. a)
            (set_ready-NoLeak i (opened i) r h step ok))
        ok
  act-NoLeak h (failed i) t ok =
      report-NoLeak i (failed i) (on_error i) h
        (λ r step.
          unfold on_error in
          at_socket-NoLeak (set_ready i r h) i close (λ s _ a. close_keeps s a)
            (set_ready-NoLeak i (failed i) r h step ok))
        ok
  act-NoLeak h (received i none) t ok =
      report-NoLeak i (received i none) (on_message none) h
        (λ r step. unfold on_message in set_ready-NoLeak i (received i none) r h step ok) ok
  act-NoLeak h (received i (some m)) t ok =
      report-NoLeak i (received i (some m)) (on_message (some m)) h
        (λ r step. unfold on_message in set_ready-NoLeak i (received i (some m)) r h step ok) ok
  act-NoLeak h (ended i) t ok =
      report-NoLeak i (ended i) on_close h (λ r step. on_close-NoLeak i r h step t ok) ok

  -- A socket that was closed by `disconnect` and ends when another one has been opened makes the
  -- hook forget the other one: the page shows "disconnected", and a later `disconnect` leaves the
  -- socket as it is.
  pub late_end_leaks :
      (h : Hook) (i j : ℕ) (old new : Socket)
      → get_elem? h.sockets i ≡ some old
      → old.ready ≡ closing
      → h.ref ≡ some j
      → i ≢ j
      → get_elem? h.sockets j ≡ some new
      → let h' = act https host h (ended i) in
        (h'.state ≡ disconnected)
        × (h'.ref ≡ none)
        × (get_elem? h'.sockets j ≡ some new)
        × (get_elem? (act https host h' disconnect_called).sockets j ≡ some new)
  unfolding act report on_close disconnect set_ready
  late_end_leaks h i j old new found leaving held ne other =
      let at : browser_step (ended i) (ready_of i h) ≡ some closed =
        rw (found, ready_of, leaving) refl in
      let kept =
        get_elem?-at_socket_ne h.sockets i j (λ s. record s { ready = closed }) ne ∙ other in
      rw (at, report) (refl, refl, kept, kept)
