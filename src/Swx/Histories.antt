-- ===== src/Swx/Histories.antt =====
-- The session of src/soupbin/gwcSoupBin.cpp and src/swx/gwcSwx.cpp over a history of events: its
-- state, the flag that a client waits for, and the heartbeat timer.
use fosdk.Common.{ℕ, both_ways, Holds, not, String, Option, none, some, List, [], ◌∷◌, arith}
use fosdk.Gwc.{new_connector}
use fosdk.Gwc.Env.{Env, message_type}
use fosdk.SoupBin.{SoupBin, SeqNum, new_soup_bin}
use fosdk.SoupBin.Session.{reset, error, send_heart_beat, send_raw}
use fosdk.SoupBin.Receive.{on_connection_read}
use fosdk.SoupBin.Control.{
  from_cache, on_connection_ready, on_connection_error, on_hb_timeout, on_reconnect, start, stop,
}
use fosdk.Swx.{Codes, send_order, send_cancel, send_modify}
use fosdk.Swx.Venues.{swx}
use fosdk.Swx.Control.{
  Event, tcp_ready, tcp_error, hb_timeout, reconnect, stops, tcp_read, sends_raw, starts, orders,
  cancels, modifies, sends, after_read, step, run,
}
use fosdk.Swx.Invariant.{Inv, error-Inv, send_msg-Inv, read-Inv}

module _ (E : Env SeqNum) (k : Codes) (clip : String → String) where
  after_read-Inv :
      (o : Option (SoupBin E.Msg × ℕ))
      → Holds (λ (r : SoupBin E.Msg × ℕ). Inv r.0) o
      → Holds Inv (after_read E k clip o)
  after_read-Inv none h = tt
  after_read-Inv (some r) h = h

  ready-Inv : (s : SoupBin E.Msg) → Inv s → Inv (on_connection_ready E (swx E k clip) s)
  unfolding on_connection_ready from_cache
  ready-Inv s h = ground arith

  hb_timeout-Inv : (s : SoupBin E.Msg) → Inv s → Inv (on_hb_timeout E (swx E k clip) s)
  unfolding on_hb_timeout send_heart_beat
  hb_timeout-Inv s h =
      both_ways Inv (not s.seen_message) (error E (swx E k clip) "missed heartbeats" s) _
        (λ e. error-Inv E k clip "missed heartbeats" s)
        (λ e. send_msg-Inv E k clip (E.set_string E.empty message_type "R") s h)

  stop-Inv : (s : SoupBin E.Msg) → Inv s → Inv (stop E (swx E k clip) s).0
  unfolding stop reset
  stop-Inv s h = ground arith

  send_raw-Inv : (b : List ℕ) (s : SoupBin E.Msg) → Inv s → Inv (send_raw E (swx E k clip) b s).0
  unfolding send_raw
  send_raw-Inv b s h = ground arith

  pub step-Inv : (e : Event E.Msg) (s : SoupBin E.Msg) → Inv s → Holds Inv (step E k clip e s)
  unfolding step on_connection_error on_reconnect start send_order send_cancel send_modify
  step-Inv tcp_ready s h = both_ways Inv s.connection _ s (λ e. ready-Inv s h) (λ e. h)
  step-Inv tcp_error s h =
      both_ways Inv s.connection _ s (λ e. error-Inv E k clip "tcp drop on real time connection" s)
        (λ e. h)
  step-Inv hb_timeout s h = both_ways Inv s.hb _ s (λ e. hb_timeout-Inv s h) (λ e. h)
  step-Inv reconnect s h = both_ways Inv s.reconnect_timer _ s (λ e. h) (λ e. h)
  step-Inv stops s h = stop-Inv s h
  step-Inv (tcp_read b) s h =
      both_ways (Holds Inv) s.connection _ (some s)
        (λ e. after_read-Inv (on_connection_read E (swx E k clip) b s) (read-Inv E k clip b s h))
        (λ e. h)
  step-Inv (sends_raw b) s h = send_raw-Inv b s h
  step-Inv (starts asked) s h = h
  step-Inv (orders m) s h = send_msg-Inv E k clip _ s h
  step-Inv (cancels m) s h = send_msg-Inv E k clip _ s h
  step-Inv (modifies m) s h = send_msg-Inv E k clip _ s h
  step-Inv (sends m) s h = send_msg-Inv E k clip m s h

  run_step-Inv :
      (es : List (Event E.Msg))
      → ((t : SoupBin E.Msg) → Inv t → Holds Inv (run E k clip es t))
      → (o : Option (SoupBin E.Msg)) → Holds Inv o
      → Holds Inv (elim o [ none ↦ none | some t ↦ run E k clip es t ])
  run_step-Inv es rec none h = tt
  run_step-Inv es rec (some t) h = rec t h

  run-Inv : (es : List (Event E.Msg)) (s : SoupBin E.Msg) → Inv s → Holds Inv (run E k clip es s)
  unfolding run
  run-Inv [] s h = h
  run-Inv (e ∷ es) s h =
      run_step-Inv es (λ t g. run-Inv es t g) (step E k clip e s) (step-Inv e s h)

  -- Whatever events come to a new SWX connector, with raw messages on or off, as far as reading ends:
  -- the flag that the waiting functions test is 1 when the session is ready or waits for the answer to
  -- its logoff and 0 when it is not, and a session that is so has a heartbeat timer.
  pub run-new_soup_bin-Inv :
      (es : List (Event E.Msg)) (u : ℕ) → Holds Inv (run E k clip es (new_soup_bin u))
  unfolding new_soup_bin new_connector
  run-new_soup_bin-Inv es u = run-Inv es (new_soup_bin u) (ground arith)
