-- ===== src/Browser/Page/Laws.antt =====
-- The query and the live tail exclude each other.
use kafka_ui.Base.{◌≡◌, ◌≢◌, refl, Bool, true, false, Option, none, some, arith, Text, truthy}
use kafka_ui.LiveTail.{Hook, connect, disconnect, clear, socket_url, open_socket}
use kafka_ui.Browser.Page.{
  BrowserPage, is_live, query_enabled, toggle_row, Event, partition_typed, custom_offset_typed,
  timestamp_typed, limit_typed, filter_typed, mode_chosen, fetch_clicked, enter_pressed,
  live_clicked, clear_clicked, row_clicked, toggle_live_tail, act,
}

disconnect-idle : (h : Hook) → is_live (disconnect h) ≡ false
unfolding disconnect
disconnect-idle h = ground arith

disconnect-ref : (h : Hook) → (disconnect h).ref ≡ none
unfolding disconnect
disconnect-ref h = ground arith

module _ (https : Bool) (host : Text) (url : Option Text) (to_iso_string : Text → Option Text) where
  -- While the live tail is on, every control but the live tail's own button leaves the query and the
  -- toolbar's fields, but for the filter, as they are.
  live_keeps_query :
      (p : BrowserPage) (e : Event)
      → is_live p.hook ≡ true
      → e ≢ live_clicked
      → let p' = act https host url to_iso_string p e in
        (is_live p'.hook ≡ true)
        × (p'.params ≡ p.params)
        × (p'.nonce ≡ p.nonce)
        × (p'.toolbar ≡ record p.toolbar { cel_filter = p'.toolbar.cel_filter })
  unfolding act clear
  live_keeps_query p (partition_typed v) live ne = rw (live, act) (live, refl, refl, refl)
  live_keeps_query p (custom_offset_typed v) live ne = rw (live, act) (live, refl, refl, refl)
  live_keeps_query p (timestamp_typed v) live ne = rw (live, act) (live, refl, refl, refl)
  live_keeps_query p (limit_typed v) live ne = rw (live, act) (live, refl, refl, refl)
  live_keeps_query p (mode_chosen m) live ne = rw (live, act) (live, refl, refl, refl)
  live_keeps_query p (filter_typed v) live ne = (live, refl, refl, refl)
  live_keeps_query p (fetch_clicked b) live ne = rw (live, act) (live, refl, refl, refl)
  live_keeps_query p enter_pressed live ne = rw (live, act) (live, refl, refl, refl)
  live_keeps_query p live_clicked live ne = absurd (ne refl)
  live_keeps_query p clear_clicked live ne = rw (live, act) (live, refl, refl, refl)
  live_keeps_query p (row_clicked key) live ne = unfold toggle_row in (live, refl, refl, refl)

  open_socket-live : (u : Option Text) (h : Hook) → is_live (open_socket u h) ≡ true
  unfolding open_socket
  open_socket-live none h = refl
  open_socket-live (some u) h = refl

  connect-live :
      (filter : Option Text) (h : Hook) (u : Text)
      → h.ref ≡ none
      → url ≡ some u
      → truthy u ≡ true
      → is_live (connect https host url filter h) ≡ true
  unfolding connect
  connect-live filter h u free at filled =
      rw (at, free, connect, filled) (open_socket-live (socket_url https host u filter) h)

  no_query :
      (cluster_name topic_name : Option Text) (p : BrowserPage)
      → p.params ≡ none
      → query_enabled cluster_name topic_name p ≡ false
  unfolding query_enabled
  no_query cluster_name topic_name p h = ground arith

  -- A click on the live tail's button while it is on stops it, and the query stays as it was.
  live_clicked-stops :
      (p : BrowserPage)
      → is_live p.hook ≡ true
      → let p' = act https host url to_iso_string p live_clicked in
        (is_live p'.hook ≡ false) × (p'.hook.ref ≡ none) × (p'.params ≡ p.params)
  unfolding act toggle_live_tail
  live_clicked-stops p live = rw (live, act) (disconnect-idle p.hook, disconnect-ref p.hook, refl)

  -- A click on the live tail's button while it is off, with an address and no socket held, starts
  -- it, drops the query, and leaves none that is enabled.
  live_clicked-starts :
      (p : BrowserPage) (cluster_name topic_name : Option Text) (u : Text)
      → is_live p.hook ≡ false
      → p.hook.ref ≡ none
      → url ≡ some u
      → truthy u ≡ true
      → let p' = act https host url to_iso_string p live_clicked in
        (is_live p'.hook ≡ true)
        × (p'.params ≡ none)
        × (query_enabled cluster_name topic_name p' ≡ false)
  unfolding act
  live_clicked-starts p cluster_name topic_name u idle free at filled =
      let dropped : (toggle_live_tail https host url to_iso_string p).params ≡ none =
        unfold toggle_live_tail in rw (toggle_live_tail, idle) refl in
      (
        unfold toggle_live_tail in
            rw (toggle_live_tail, idle) (connect-live _ p.hook u free at filled),
        dropped,
        no_query cluster_name topic_name (toggle_live_tail https host url to_iso_string p) dropped,
      )
