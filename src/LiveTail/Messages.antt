-- ===== src/LiveTail/Messages.antt =====
-- The messages that the live tail shows.
use kafka_ui.Base.{
  ℕ, ◌≡◌, refl, ap, ◌∙◌, Bool, Option, none, some, List, [], ◌∷◌, take, take-take-cons, arith, Text,
  Option-cases, inl, inr,
}
use kafka_ui.Api.Messages.{MessageRecord}
use kafka_ui.LiveTail.{
  Hook, limit, connect, disconnect, unmount, report, browser_step, ready_of, on_open, on_error,
  on_close, on_message, clear, Event, connect_called, disconnect_called, clear_called, unmounted,
  opened, failed, received, ended, act, run,
}

-- What the page should have seen: the parsed messages that arrived on an open socket since the list
-- was last cleared, the newest first.
arrived : Hook → Event → List MessageRecord → List MessageRecord
arrived h clear_called seen = []
arrived h (received i (some m)) seen = elim (browser_step (received i (some m)) (ready_of i h)) [
  | none ↦ seen
  | some r ↦ m ∷ seen
]
arrived h _ seen = seen

module _ (https : Bool) (host : Text) where
  pub history : Hook → List Event → List MessageRecord → List MessageRecord
  unfolding arrived
  history h [] seen = seen
  history h (e ∷ es) seen = history (act https host h e) es (arrived h e seen)

  messages-connect :
      (url filter : Option Text) (h : Hook)
      → (connect https host url filter h).messages ≡ h.messages
  unfolding connect
  messages-connect none filter h = refl
  messages-connect (some url) filter h = ground arith

  messages-disconnect : (h : Hook) → (disconnect h).messages ≡ h.messages
  unfolding disconnect
  messages-disconnect h = ground arith

  messages-unmount : (h : Hook) → (unmount h).messages ≡ h.messages
  unfolding unmount
  messages-unmount h = ground arith

  messages-report :
      (i : ℕ) (e : Event) (handler : Hook → Hook) (h : Hook)
      → ((k : Hook) → (handler k).messages ≡ k.messages)
      → (report i e handler h).messages ≡ h.messages
  unfolding report
  messages-report i e handler h same = elim (Option-cases (browser_step e (ready_of i h))) [
    | inl none_there ↦ rw (none_there, report) refl
    | inr (r, there) ↦ rw (there, report) (same _)
  ]

  messages-act :
      (h : Hook) (e : Event) (seen : List MessageRecord)
      → h.messages ≡ take limit seen
      → (act https host h e).messages ≡ take limit (arrived h e seen)
  unfolding act arrived on_open on_error on_close on_message clear
  messages-act h (connect_called url filter) seen same = messages-connect url filter h ∙ same
  messages-act h disconnect_called seen same = messages-disconnect h ∙ same
  messages-act h clear_called seen same = refl
  messages-act h unmounted seen same = messages-unmount h ∙ same
  messages-act h (opened i) seen same =
      messages-report i (opened i) (on_open i) h (λ k. refl) ∙ same
  messages-act h (failed i) seen same =
      messages-report i (failed i) (on_error i) h (λ k. refl) ∙ same
  messages-act h (ended i) seen same = messages-report i (ended i) on_close h (λ k. refl) ∙ same
  messages-act h (received i none) seen same =
      messages-report i (received i none) (on_message none) h (λ k. refl) ∙ same
  messages-act h (received i (some m)) seen same =
      elim (Option-cases (browser_step (received i (some m)) (ready_of i h))) [
        | inl none_there ↦ rw (none_there, report, arrived) same
        | inr (r, there) ↦
            rw (there, report, arrived)
              (ap (λ ms. take limit (m ∷ ms)) same ∙ take-take-cons 999 m seen)
      ]

  -- After any sequence of calls and reports the list is the newest thousand of the messages that
  -- arrived since it was last cleared, the newest first.
  pub run-messages :
      (h : Hook) (es : List Event) (seen : List MessageRecord)
      → h.messages ≡ take limit seen
      → (run https host h es).messages ≡ take limit (history h es seen)
  unfolding run history
  run-messages h [] seen same = same
  run-messages h (e ∷ es) seen same =
      run-messages (act https host h e) es (arrived h e seen) (messages-act h e seen same)
