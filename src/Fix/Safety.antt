-- ===== src/Fix/Safety.antt =====
-- Receiving, the timers, start and stop of src/fix/gwcFix.cpp keep the invariant of a FIX connector.
use fosdk.Common.{
  ℕ, zero, suc, ◌+◌, ◌≡◌, Bool, true, false, String, List, [], ◌∷◌, ℤ, arith, succ, drop, take,
  length,
}
use fosdk.Gwc.Env.{Env}
use fosdk.Fix.{Fix, Seqnums, locked, set_inbound, store_seqnums, unlocked}
use fosdk.Fix.Session.{reset, send_msg, send_order, send_cancel, send_modify}
use fosdk.Fix.Receive.{
  Outcome, return, go_on, resend, too_low, sequence, after_logon, handle_tcp_msg, record_inbound,
  read_loop, on_tcp_connection_read,
}
use fosdk.Fix.Control.{
  on_tcp_connection_ready, count_missed, on_hb_timeout, start, stop, step, run,
  on_tcp_connection_error, on_reconnect, Event, tcp_ready, tcp_error, hb_timeout, reconnect, stops,
  tcp_read, starts, orders, cancels, modifies, sends, sends_raw,
}
use fosdk.Fix.Invariant.{
  Inv, persisted, Keeps, error-Inv, send_msg-Inv, send_raw-Inv, sequence_reset-Inv, dispatch-Inv,
  check_logon-Inv,
}

module _ (E : Env Seqnums) (c : Seqnums) (d : ℕ) where
  sequence-Inv :
      (t : String) (n : ℤ) (m : E.Msg) (s : Fix E.Msg) → Inv c d s → Inv c d (sequence E t n m s)
  unfolding sequence persisted
  sequence-Inv t n m s v = ground (
    arith,
    send_msg-Inv E c d (resend E s.seqnums.inbound) (unlocked (locked s)),
    error-Inv E c (suc d) (too_low E s.seqnums.inbound) (locked s),
    dispatch-Inv E c d t n m (unlocked (store_seqnums (set_inbound (succ n) (locked s)))),
  )

  after_logon-Inv :
      (t : String) (n : ℤ) (m : E.Msg) (o : Outcome E)
      → Keeps E c d o
      → Inv c d (after_logon E t n m o)
  unfolding after_logon
  after_logon-Inv t n m (return s) v = v
  after_logon-Inv t n m (go_on s) v =
      ground (arith, sequence-Inv t n m s, sequence_reset-Inv E c d n m s)

  handle_tcp_msg-Inv : (m : E.Msg) (s : Fix E.Msg) → Inv c d s → Inv c d (handle_tcp_msg E m s)
  unfolding handle_tcp_msg
  handle_tcp_msg-Inv m s v =
      after_logon-Inv _ _ m _ (check_logon-Inv E c d _ _ m (record s { seen_hb = true }) (seen v))
    where
      seen : Inv c d s → Inv c d (record s { seen_hb = true })
      seen w = ground arith

  record_inbound-Inv : (b : List ℕ) (s : Fix E.Msg) → Inv c d s → Inv c d (record_inbound E b s)
  unfolding record_inbound persisted
  record_inbound-Inv b s v = ground arith

  read_loop-Inv : (f : ℕ) (b : List ℕ) (s : Fix E.Msg) → Inv c d s → Inv c d (read_loop E f b s).0
  unfolding read_loop
  read_loop-Inv zero b s v = v
  read_loop-Inv (suc f) b s v =
      let r = E.decode E.empty b in
      let t = record_inbound E (take r.used b) s in
      ground (
        arith,
        read_loop-Inv f (drop r.used b) (handle_tcp_msg E r.msg t)
            (handle_tcp_msg-Inv r.msg t (record_inbound-Inv (take r.used b) s v)),
      )

  ready-Inv :
      (s : Fix E.Msg) → s.connection ≡ true → Inv c d s → Inv c d (on_tcp_connection_ready E s)
  unfolding on_tcp_connection_ready persisted
  ready-Inv s h v = ground arith

  count_missed-Inv : (s : Fix E.Msg) → Inv c d s → Inv c d (count_missed E s)
  unfolding count_missed
  count_missed-Inv s v =
      ground (arith, error-Inv E c d "missed heartbeats" (record s { missed_hb = s.missed_hb + 1 }))

  hb_timeout-Inv : (s : Fix E.Msg) → Inv c d s → Inv c d (on_hb_timeout E s)
  unfolding on_hb_timeout
  hb_timeout-Inv s v = count_missed-Inv _ (send_msg-Inv E c d _ s v)

  start-Inv : (asked : Bool) (s : Fix E.Msg) → Inv c d s → Inv c d (start E asked s).0
  unfolding start persisted
  start-Inv asked s v = ground arith

  stop-Inv : (s : Fix E.Msg) → Inv c d s → Inv c d (stop E s).0
  unfolding stop persisted reset send_msg
  stop-Inv s v = ground arith

  -- Every event, in every state, keeps the invariant.
  pub step-Inv : (e : Event E) (s : Fix E.Msg) → Inv c d s → Inv c d (step E e s)
  unfolding step on_tcp_connection_read on_tcp_connection_error on_reconnect send_order send_cancel
      send_modify
  step-Inv tcp_ready s v = ground (arith, ready-Inv s)
  step-Inv tcp_error s v = ground (arith, error-Inv E c d "tcp dropped connection" s)
  step-Inv hb_timeout s v = ground (arith, hb_timeout-Inv s)
  step-Inv reconnect s v = ground (arith, start-Inv false s)
  step-Inv stops s v = stop-Inv s v
  step-Inv (tcp_read b) s v = ground (arith, read_loop-Inv (length b) b s)
  step-Inv (starts asked) s v = start-Inv asked s v
  step-Inv (orders m) s v = send_msg-Inv E c d _ s v
  step-Inv (cancels m) s v = send_msg-Inv E c d _ s v
  step-Inv (modifies m) s v = send_msg-Inv E c d _ s v
  step-Inv (sends m) s v = send_msg-Inv E c d m s v
  step-Inv (sends_raw b) s v = send_raw-Inv E c d b s v

  -- A connector that satisfies the invariant does so after any history of events. The invariant: a
  -- session that is ready or waits for its logoff has a connection and a heartbeat timer and counts
  -- as logged on; one that waits for the logon's answer has a connection; at most 3 heartbeats are
  -- missed; the mutex is held as often as at the beginning; and the cache file holds the sequence
  -- numbers in memory.
  pub run-Inv : (es : List (Event E)) (s : Fix E.Msg) → Inv c d s → Inv c d (run E es s)
  unfolding run
  run-Inv [] s v = v
  run-Inv (e ∷ es) s v = run-Inv es (step E e s) (step-Inv e s v)
