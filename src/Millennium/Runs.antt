-- ===== src/Millennium/Runs.antt =====
-- The sequence numbers of src/millennium/gwcMillennium.cpp over a history of events.
use fosdk.Common.{
  ℕ, both_ways, Bool, false, Option, none, some, List, [], ◌∷◌, arith, Holds, length,
}
use fosdk.Gwc.Env.{Env, message_type}
use fosdk.Millennium.{Millennium, SeqNum, Layout}
use fosdk.Millennium.Session.{reset, error}
use fosdk.Millennium.Session.{send_raw, send_order, send_cancel, send_modify}
use fosdk.Millennium.Receive.{handle_real_time_msg, handle_recovery_msg}
use fosdk.Millennium.Raw.{on_real_time_connection_read, on_recovery_connection_read}
use fosdk.Millennium.Reads.{read-keeps}
use fosdk.Millennium.Control.{
  Event, real_time_ready, real_time_error, recovery_ready, recovery_error, hb_timeout, reconnect,
  starts, stops, real_time_read, recovery_read, sends_raw, orders, cancels, modifies, sends,
  is_connected, after_read, step, run, on_real_time_connection_ready, on_recovery_connection_ready,
  on_real_time_connection_error, on_recovery_connection_error, on_hb_timeout, start, on_reconnect,
  stop,
}
use fosdk.Millennium.Kept.{
  Kept, stored, error-Kept, send_msg-Kept, real_time_msg-Kept, recovery_msg-Kept,
  application_frame-Kept,
}

module _ (E : Env SeqNum) (L : Layout E.Msg) (c : ℕ → Option ℕ) (k : ℕ) where
  ready-Kept :
      (s : Millennium E.Msg) → Kept E L c k s → Kept E L c k (on_real_time_connection_ready E L s)
  unfolding on_real_time_connection_ready stored
  ready-Kept s h = ground arith

  recovery_ready-Kept :
      (s : Millennium E.Msg) → Kept E L c k s → Kept E L c k (on_recovery_connection_ready E L s)
  unfolding on_recovery_connection_ready stored
  recovery_ready-Kept s h = ground arith

  hb_timeout-Kept : (s : Millennium E.Msg) → Kept E L c k s → Kept E L c k (on_hb_timeout E L s)
  unfolding on_hb_timeout error reset stored
  hb_timeout-Kept s h = ground arith

  start-Kept : (a : Bool) (s : Millennium E.Msg) → Kept E L c k s → Kept E L c k (start E L a s).0
  unfolding start stored
  start-Kept a s h = ground arith

  stop-Kept : (s : Millennium E.Msg) → Kept E L c k s → Kept E L c k (stop E L s).0
  unfolding stop reset stored
  stop-Kept s h = ground arith

  send_raw-Kept :
      (b : List ℕ) (s : Millennium E.Msg) → Kept E L c k s → Kept E L c k (send_raw E b s).0
  unfolding send_raw stored
  send_raw-Kept b s h = ground arith

  after_read-Kept :
      (o : Option (Millennium E.Msg × ℕ))
      → Holds (λ (r : Millennium E.Msg × ℕ). Kept E L c k r.0) o
      → Holds (Kept E L c k) (after_read E L o)
  after_read-Kept none h = tt
  after_read-Kept (some r) h = h

  pub step-Kept :
      (e : Event E.Msg) (s : Millennium E.Msg)
      → Kept E L c k s
      → Holds (Kept E L c k) (step E L e s)
  unfolding step on_real_time_connection_error on_recovery_connection_error on_reconnect
      on_real_time_connection_read on_recovery_connection_read send_order send_cancel send_modify
  step-Kept real_time_ready s h =
      both_ways (Kept E L c k) (is_connected s.real_time) (on_real_time_connection_ready E L s) s
        (λ e. ready-Kept s h) (λ e. h)
  step-Kept real_time_error s h =
      both_ways (Kept E L c k) (is_connected s.real_time) (on_real_time_connection_error E L s) s
        (λ e. error-Kept E L c k "tcp drop on real time connection" s h) (λ e. h)
  step-Kept recovery_ready s h =
      both_ways (Kept E L c k) (is_connected s.recovery) (on_recovery_connection_ready E L s) s
        (λ e. recovery_ready-Kept s h) (λ e. h)
  step-Kept recovery_error s h =
      both_ways (Kept E L c k) (is_connected s.recovery) (on_recovery_connection_error E L s) s
        (λ e. error-Kept E L c k "tcp drop recovery connection" s h) (λ e. h)
  step-Kept hb_timeout s h =
      both_ways (Kept E L c k) s.hb (on_hb_timeout E L s) s (λ e. hb_timeout-Kept s h) (λ e. h)
  step-Kept reconnect s h =
      both_ways (Kept E L c k) s.reconnect_timer (on_reconnect E L s) s (λ e. start-Kept false s h)
        (λ e. h)
  step-Kept starts s h = start-Kept false s h
  step-Kept stops s h = stop-Kept s h
  step-Kept (real_time_read b) s h =
      both_ways (Holds (Kept E L c k)) (is_connected s.real_time)
        (after_read E L (on_real_time_connection_read E L b s)) (some s)
        (λ e. after_read-Kept (on_real_time_connection_read E L b s) (
          read-keeps E L (handle_real_time_msg E L) (λ left. length b) (Kept E L c k)
            (real_time_msg-Kept E L c k) (application_frame-Kept E L c k) b s h))
        (λ e. h)
  step-Kept (recovery_read b) s h =
      both_ways (Holds (Kept E L c k)) (is_connected s.recovery)
        (after_read E L (on_recovery_connection_read E L b s)) (some s)
        (λ e. after_read-Kept (on_recovery_connection_read E L b s) (
          read-keeps E L (handle_recovery_msg E L) (λ left. left) (Kept E L c k)
            (recovery_msg-Kept E L c k) (application_frame-Kept E L c k) b s h))
        (λ e. h)
  step-Kept (sends_raw b) s h = send_raw-Kept b s h
  step-Kept (orders m) s h = send_msg-Kept E L c k (E.set_string m message_type "D") s h
  step-Kept (cancels m) s h = send_msg-Kept E L c k (E.set_string m message_type "F") s h
  step-Kept (modifies m) s h = send_msg-Kept E L c k (E.set_string m message_type "G") s h
  step-Kept (sends m) s h = send_msg-Kept E L c k m s h

  run_step-Kept :
      (es : List (Event E.Msg))
      → ((t : Millennium E.Msg) → Kept E L c k t → Holds (Kept E L c k) (run E L es t))
      → (o : Option (Millennium E.Msg)) → Holds (Kept E L c k) o
      → Holds (Kept E L c k) (elim o [ none ↦ none | some t ↦ run E L es t ])
  run_step-Kept es rec none h = tt
  run_step-Kept es rec (some t) h = rec t h

  -- Whatever the history of events is, the number that is in memory for a partition in
  -- the state that is reached is the one that the cache file then holds for it, if that was so
  -- before: the last number that was written to it, or the one of before when none was. And a session
  -- that is ready or waits for the answer to its logoff counts as logged on, if that was so before.
  pub run-Kept :
      (es : List (Event E.Msg)) (s : Millennium E.Msg)
      → Kept E L c k s
      → Holds (Kept E L c k) (run E L es s)
  unfolding run
  run-Kept [] s h = h
  run-Kept (e ∷ es) s h = run_step-Kept es (λ t g. run-Kept es t g) (step E L e s) (step-Kept e s h)
