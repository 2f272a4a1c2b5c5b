-- ===== src/Fix/Control.antt =====
-- src/fix/gwcFix.cpp: connection and timer callbacks, start and stop; and the events that the
-- dispatch thread and the client bring to the connector.
use fosdk.Common.{
  ℕ, Bool, true, false, none, some, List, [], ◌∷◌, ◌+◌, ◌||◌, ◌&&◌, pos, succ, ltb, if◌then◌else◌,
}
use fosdk.Gwc.{
  connected, waiting_logoff, on_logging_on, on_logged_off, sent, opened, wrote_in, logged_off_event,
  is_ready,
}
use fosdk.Gwc.Env.{
  Env, msg_type, reset_seq_num_flag, next_expected_msg_seq_num, encrypt_method, heart_bt_int,
}
use fosdk.Fix.{
  Fix, Seqnums, emit, store_seqnums, set_outbound, locked, unlocked, in_state, heartbeat, logout,
  logon,
}
use fosdk.Fix.Session.{
  reset, error, set_header, send_msg, send_raw, send_order, send_cancel, send_modify,
}
use fosdk.Fix.Receive.{on_tcp_connection_read}

module _ (E : Env Seqnums) where
  -- The logon message, before the client adds to it.
  unfoldable pub logon_msg : Fix E.Msg → E.Msg
  logon_msg s =
      let d = E.set_string E.empty msg_type logon in
      let asks = (s.first_connect && s.reset_seq_num_flag) || s.reset_on_logon in
      let d1 = E.set_string d reset_seq_num_flag (if asks then "Y" else "N") in
      let d2 =
        if s.set_next_exp_seq_num
        then E.set_integer d1 next_expected_msg_seq_num s.seqnums.inbound
        else d1 in
      let d3 = E.set_integer d2 encrypt_method s.encrypt_method in
      set_header E s (E.set_integer d3 heart_bt_int s.heart_bt_int)

  unfoldable pub on_tcp_connection_ready : Fix E.Msg → Fix E.Msg
  unfolding logon_msg
  on_tcp_connection_ready s =
      let t = in_state connected s in
      let d = E.logging_on t.trace (logon_msg t) in
      let u = emit (on_logging_on d) t in
      elim (E.encode d) [
        | none ↦ u
        | some bytes ↦
            let v = emit (sent bytes) u in
            let w = if v.msg_in_writer then emit (wrote_in bytes) v else v in
            unlocked (store_seqnums (set_outbound (succ w.seqnums.outbound) (locked w)))
      ]

  unfoldable pub on_tcp_connection_error : Fix E.Msg → Fix E.Msg
  on_tcp_connection_error s = error E "tcp dropped connection" s

  unfoldable pub count_missed : Fix E.Msg → Fix E.Msg
  count_missed s =
      if s.seen_hb
      then record s { seen_hb = false; missed_hb = 0 }
      else (let t = record s { missed_hb = s.missed_hb + 1 } in
          if ltb 3 t.missed_hb then error E "missed heartbeats" t else t)

  unfoldable pub on_hb_timeout : Fix E.Msg → Fix E.Msg
  unfolding count_missed
  on_hb_timeout s = count_missed (send_msg E (E.set_string E.empty msg_type heartbeat) s).0

  -- With `asked` or the flag set the numbers start again from 1, and the flag stays set.
  unfoldable pub restart : Bool → Fix E.Msg → Fix E.Msg
  restart asked s =
      if asked || s.reset_seq_num_flag
      then unlocked (
          store_seqnums (record (locked s) {
            reset_seq_num_flag = true;
            seqnums = record { inbound = pos 1; outbound = pos 1 };
          }))
      else s

  unfoldable pub start : Bool → Fix E.Msg → Fix E.Msg × Bool
  unfolding restart
  start asked s =
      let t = emit opened (record (restart asked s) { connection = true }) in
      (t, E.connects t.trace)

  unfoldable pub on_reconnect : Fix E.Msg → Fix E.Msg
  unfolding start
  on_reconnect s = (start false s).0

  unfoldable pub stop : Fix E.Msg → Fix E.Msg × Bool
  stop s =
      if is_ready s.state
      then (let r = send_msg E (E.set_string E.empty msg_type logout) (unlocked (locked s)) in
          if r.1 then (in_state waiting_logoff r.0, true) else (r.0, false))
      else (let t = emit (on_logged_off (pos 0) E.empty) (reset (locked s)) in
          (unlocked (record t { base = logged_off_event t.base }), true))

  unfoldable pub trader_logon : Fix E.Msg → Fix E.Msg × Bool
  trader_logon s = (s, true)

  -- What can happen to a connector that was initialised: the TCP connection's callbacks, the
  -- timers, and the calls of the client.
  pub data Event : Type 0 where
    tcp_ready tcp_error hb_timeout reconnect stops : Event
    tcp_read : List ℕ → Event
    starts : Bool → Event
    orders cancels modifies sends : E.Msg → Event
    sends_raw : List ℕ → Event

  -- A callback comes from a connection or a timer that is there.
  unfoldable pub step : Event → Fix E.Msg → Fix E.Msg
  step tcp_ready s = if s.connection then on_tcp_connection_ready s else s
  step tcp_error s = if s.connection then on_tcp_connection_error s else s
  step hb_timeout s = if s.hb then on_hb_timeout s else s
  step reconnect s = if s.reconnect_timer then on_reconnect s else s
  step stops s = (stop s).0
  step (tcp_read bytes) s = if s.connection then (on_tcp_connection_read E bytes s).0 else s
  step (starts asked) s = (start asked s).0
  step (orders m) s = (send_order E m s).0
  step (cancels m) s = (send_cancel E m s).0
  step (modifies m) s = (send_modify E m s).0
  step (sends m) s = (send_msg E m s).0
  step (sends_raw bytes) s = (send_raw E bytes s).0

  unfoldable pub run : List Event → Fix E.Msg → Fix E.Msg
  run [] s = s
  run (e ∷ es) s = run es (step e s)
