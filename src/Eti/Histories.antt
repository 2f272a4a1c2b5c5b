-- ===== src/Eti/Histories.antt =====
-- Every history of events of src/eti/gwcEti.cpp keeps the invariant.
use fosdk.Common.{
  ℕ, both_ways, Holds, Bool, true, false, String, Option, none, some, List, [], ◌∷◌, pos, arith,
  if◌then◌else◌, ◌≡◌, ℤ,
}
use fosdk.Gwc.{uses_null, is_ready, new_connector, waiting_logoff, on_trader_logging_off}
use fosdk.Gwc.Env.{Env, template_id, username, password}
use fosdk.Eti.{Eti, Item, Ids, new_eti, emit, in_state}
use fosdk.Eti.Session.{
  reset, error, send, send_msg, send_raw, send_order, send_cancel, send_modify, trader_logon,
  logon_with,
}
use fosdk.Eti.Receive.{on_tcp_connection_read}
use fosdk.Eti.Control.{
  Event, tcp_ready, tcp_error, hb_timeout, reconnect, starts, stops, tcp_read, sends_raw, orders,
  cancels, modifies, sends, trader_logons, on_tcp_connection_ready, on_tcp_connection_error,
  on_hb_timeout, start, on_reconnect, stop_not_ready, stop, after_read, step, run,
}
use fosdk.Eti.Invariant.{Inv, error-Inv, send_msg-Inv, read-Inv}

module _ (E : Env Item) (I : Ids) where
  ready-Inv :
      (s : Eti E.Msg) → Inv s → Inv (if s.connection then on_tcp_connection_ready E I s else s)
  unfolding on_tcp_connection_ready uses_null
  ready-Inv s h = ground arith

  hb_timeout-Inv : (s : Eti E.Msg) → Inv s → Inv (on_hb_timeout E I s)
  unfolding on_hb_timeout error reset uses_null
  hb_timeout-Inv s h =
      ground (arith, send_msg-Inv E I (E.set_integer E.empty template_id (pos 10011)) s h)

  start-Inv : (a : Bool) (s : Eti E.Msg) → Inv s → Inv (start E I a s).0
  unfolding start uses_null
  start-Inv a s h = ground arith

  stop_not_ready-Inv : (s : Eti E.Msg) → Inv s → Inv (stop_not_ready E I s)
  unfolding stop_not_ready reset uses_null
  stop_not_ready-Inv s h = ground arith

  -- A send that succeeds leaves the session ready, and so with a connection, and logged on.
  sent-connected :
      (m : E.Msg) (s : Eti E.Msg)
      → Inv s
      → (send_msg E m s).1 ≡ true
      → ((send_msg E m s).0.connection ≡ true) × ((send_msg E m s).0.logged_on ≡ 1)
  unfolding send_msg send
  sent-connected m s h = ground arith

  leave-Inv :
      (s : Eti E.Msg)
      → (s.connection ≡ true) × (s.logged_on ≡ 1)
      → Inv s
      → Inv (in_state waiting_logoff s)
  leave-Inv s c h = (h.0, (λ e. c.0), h.2, h.3, ((λ e. c.1), (λ e. c.1)))

  stop-Inv : (s : Eti E.Msg) → Inv s → Inv (stop E I s).0
  unfolding stop uses_null
  stop-Inv s h =
      let trader_logoff =
        E.trader_logging_off s.trace (E.set_integer E.empty template_id (pos 10029)) in
      let logoff = E.set_integer E.empty template_id (pos 10002) in
      let started = emit (on_trader_logging_off trader_logoff) s in
      let t = send_msg E trader_logoff started in
      let u = send_msg E logoff t.0 in
      let g = send_msg-Inv E I trader_logoff started h in
      let k = send_msg-Inv E I logoff t.0 g in
      both_ways (λ (r : Eti E.Msg × Bool). Inv r.0) (is_ready s.state)
        (if t.1
          then (if u.1 then (in_state waiting_logoff u.0, true) else (u.0, false))
          else (t.0, false))
        (stop_not_ready E I s, true)
        (λ e.
          both_ways (λ (r : Eti E.Msg × Bool). Inv r.0) t.1
            (if u.1 then (in_state waiting_logoff u.0, true) else (u.0, false)) (t.0, false)
            (λ e'.
              both_ways (λ (r : Eti E.Msg × Bool). Inv r.0) u.1 (in_state waiting_logoff u.0, true)
                (u.0, false) (λ e''. leave-Inv u.0 (sent-connected logoff t.0 g e'') k) (λ e''. k))
            (λ e'. g))
        (λ e. stop_not_ready-Inv s h)

  send_raw-Inv : (b : List ℕ) (s : Eti E.Msg) → Inv s → Inv (send_raw E b s).0
  unfolding send_raw uses_null
  send_raw-Inv b s h = ground arith

  logon_with-Inv :
      (u : Option ℤ) (p : Option String) (s : Eti E.Msg) → Inv s → Inv (logon_with E u p s).0
  unfolding logon_with
  logon_with-Inv (some u) (some p) s h =
      let q = E.set_integer (E.set_integer E.empty template_id (pos 10018)) username u in
      send_msg-Inv E I (E.set_string q password p) s h
  logon_with-Inv (some u) none s h = h
  logon_with-Inv none _ s h = h

  trader_logon-Inv : (m : Option E.Msg) (s : Eti E.Msg) → Inv s → Inv (trader_logon E m s).0
  unfolding trader_logon
  trader_logon-Inv none s h = h
  trader_logon-Inv (some m) s h =
      logon_with-Inv (E.get_integer m username) (E.get_string m password) s h

  after_read-Inv :
      (o : Option (Eti E.Msg × ℕ))
      → Holds (λ (r : Eti E.Msg × ℕ). Inv r.0) o
      → Holds Inv (after_read E I o)
  after_read-Inv none h = tt
  after_read-Inv (some r) h = h

  pub step-Inv : (e : Event E.Msg) (s : Eti E.Msg) → Inv s → Holds Inv (step E I e s)
  unfolding step on_tcp_connection_error on_reconnect send_order send_cancel send_modify
  step-Inv tcp_ready s h = ready-Inv s h
  step-Inv tcp_error s h =
      both_ways Inv s.connection (on_tcp_connection_error E I s) s
        (λ e. error-Inv E I "tcp dropped connection" s h) (λ e. h)
  step-Inv hb_timeout s h =
      both_ways Inv s.hb (on_hb_timeout E I s) s (λ e. hb_timeout-Inv s h) (λ e. h)
  step-Inv reconnect s h =
      both_ways Inv s.reconnect_timer (on_reconnect E I s) s (λ e. start-Inv false s h) (λ e. h)
  step-Inv starts s h = start-Inv false s h
  step-Inv stops s h = stop-Inv s h
  step-Inv (tcp_read b) s h =
      both_ways (Holds Inv) s.connection (after_read E I (on_tcp_connection_read E I b s)) (some s)
        (λ e. after_read-Inv (on_tcp_connection_read E I b s) (read-Inv E I b s h)) (λ e. h)
  step-Inv (sends_raw b) s h = send_raw-Inv b s h
  step-Inv (orders m) s h = send_msg-Inv E I (E.set_integer m template_id (pos 10100)) s h
  step-Inv (cancels m) s h = send_msg-Inv E I (E.set_integer m template_id (pos 10109)) s h
  step-Inv (modifies m) s h = send_msg-Inv E I m s h
  step-Inv (sends m) s h = send_msg-Inv E I m s h
  step-Inv (trader_logons m) s h = trader_logon-Inv m s h

  run_step-Inv :
      (es : List (Event E.Msg))
      → ((t : Eti E.Msg) → Inv t → Holds Inv (run E I es t))
      → (o : Option (Eti E.Msg)) → Holds Inv o
      → Holds Inv (elim o [ none ↦ none | some t ↦ run E I es t ])
  run_step-Inv es rec none h = tt
  run_step-Inv es rec (some t) h = rec t h

  run-Inv : (es : List (Event E.Msg)) (s : Eti E.Msg) → Inv s → Holds Inv (run E I es s)
  unfolding run
  run-Inv [] s h = h
  run-Inv (e ∷ es) s h = run_step-Inv es (λ t g. run-Inv es t g) (step E I e s) (step-Inv e s h)

  new_eti-Inv : (u : ℕ) → Inv (new_eti {Msg = E.Msg} u)
  unfolding new_eti new_connector uses_null
  new_eti-Inv u = ground arith

  -- Whatever events come to a new connector, and with any codec and client: no method is called
  -- through a null connection, a session that has left its first state has a connection, the
  -- sequence counter is below 2^64, three missed heartbeats at most are counted, and a session that is
  -- ready or waits for the answer to its logoff counts as logged on.
  pub run_new-Inv : (es : List (Event E.Msg)) (u : ℕ) → Holds Inv (run E I es (new_eti u))
  run_new-Inv es u = run-Inv es (new_eti u) (new_eti-Inv u)
