-- ===== src/Eti/Control.antt =====
-- src/eti/gwcEti.cpp: connection and timer callbacks, start and stop; and the events that the dispatch
-- thread and the client bring to the connector.
use fosdk.Common.{
  ℕ, ◌+◌, Bool, true, false, Option, none, some, List, [], ◌∷◌, pos, ltb, if◌then◌else◌,
}
use fosdk.Gwc.{
  connected, waiting_logoff, on_logging_on, on_logged_off, on_trader_logging_off, opened,
  logged_off_event, is_ready,
}
use fosdk.Gwc.Env.{
  Env, template_id, msg_seq_num, heart_bt_int, default_cstm_appl_ver_id, appl_usage_orders,
  appl_usage_quotes, order_routing_indicator, fix_engine_name, fix_engine_version,
  fix_engine_vendor,
}
use fosdk.Eti.{Eti, Item, Ids, emit, in_state, transmit}
use fosdk.Eti.Session.{
  reset, error, send_msg, send_raw, send_order, send_cancel, send_modify, trader_logon,
}
use fosdk.Eti.Receive.{on_tcp_connection_read}

-- What can happen to a connector that was initialised.
pub data Event (Msg : Type 0) : Type 0 where
  tcp_ready tcp_error hb_timeout reconnect starts stops : Event Msg
  tcp_read sends_raw : List ℕ → Event Msg
  orders cancels modifies sends : Msg → Event Msg
  trader_logons : Option Msg → Event Msg

module _ (E : Env Item) (I : Ids) where
  -- The session logon, before the client adds to it.
  unfoldable pub logon : Eti E.Msg → E.Msg
  logon s =
      let d1 =
        E.set_integer (E.set_integer E.empty template_id (pos 10000)) msg_seq_num (pos s.seq_no) in
      let d2 =
        E.set_string (E.set_integer d1 heart_bt_int (pos 10000)) default_cstm_appl_ver_id "7.1" in
      let d3 = E.set_string (E.set_string d2 appl_usage_orders "A") appl_usage_quotes "N" in
      let d4 =
        E.set_string (E.set_string d3 order_routing_indicator "Y") fix_engine_name "Blucorner" in
      E.set_string (E.set_string d4 fix_engine_version "1") fix_engine_vendor "Blucorner"

  unfoldable pub on_tcp_connection_ready : Eti E.Msg → Eti E.Msg
  unfolding logon
  on_tcp_connection_ready s =
      let d = E.logging_on s.trace (logon s) in
      let t = emit (on_logging_on d) (in_state connected s) in
      elim (E.encode d) [ none ↦ t | some bytes ↦ transmit bytes t ]

  unfoldable pub on_tcp_connection_error : Eti E.Msg → Eti E.Msg
  on_tcp_connection_error s = error E "tcp dropped connection" s

  -- The fourth timeout in a row without a message is an error.
  unfoldable pub on_hb_timeout : Eti E.Msg → Eti E.Msg
  on_hb_timeout s =
      let t = (send_msg E (E.set_integer E.empty template_id (pos 10011)) s).0 in
      if t.seen_hb
      then record t { seen_hb = false; missed_hb = 0 }
      else (let u = record t { missed_hb = t.missed_hb + 1 } in
          if ltb 3 u.missed_hb then error E "missed heartbeats" u else u)

  -- The argument is not used.
  unfoldable pub start : Bool → Eti E.Msg → Eti E.Msg × Bool
  start asked s = let t = emit opened (record s { connection = true }) in (t, E.connects t.trace)

  unfoldable pub on_reconnect : Eti E.Msg → Eti E.Msg
  unfolding start
  on_reconnect s = (start false s).0

  unfoldable pub stop_not_ready : Eti E.Msg → Eti E.Msg
  unfolding reset
  stop_not_ready s =
      let logoff_response = E.set_integer E.empty template_id (pos 10002) in
      let t = emit (on_logged_off (pos 0) logoff_response) (reset s) in
      record t { base = logged_off_event t.base }

  -- The trader's logoff, which the client may add to, and then that of the session.
  unfoldable pub stop : Eti E.Msg → Eti E.Msg × Bool
  unfolding stop_not_ready
  stop s =
      let trader_logoff =
        E.trader_logging_off s.trace (E.set_integer E.empty template_id (pos 10029)) in
      let t = send_msg E trader_logoff (emit (on_trader_logging_off trader_logoff) s) in
      let u = send_msg E (E.set_integer E.empty template_id (pos 10002)) t.0 in
      if is_ready s.state
      then (if t.1
          then (if u.1 then (in_state waiting_logoff u.0, true) else (u.0, false))
          else (t.0, false))
      else (stop_not_ready s, true)

  abbrev pub after_read : Option (Eti E.Msg × ℕ) → Option (Eti E.Msg)
  after_read none = none
  after_read (some r) = some r.0

  -- A callback comes from a connection or a timer that is there. There is no next state when reading
  -- does not end.
  unfoldable pub step : Event E.Msg → Eti E.Msg → Option (Eti E.Msg)
  step tcp_ready s = some (if s.connection then on_tcp_connection_ready s else s)
  step tcp_error s = some (if s.connection then on_tcp_connection_error s else s)
  step hb_timeout s = some (if s.hb then on_hb_timeout s else s)
  step reconnect s = some (if s.reconnect_timer then on_reconnect s else s)
  step starts s = some (start false s).0
  step stops s = some (stop s).0
  step (tcp_read bytes) s =
      if s.connection then after_read (on_tcp_connection_read E I bytes s) else some s
  step (sends_raw bytes) s = some (send_raw E bytes s).0
  step (orders m) s = some (send_order E m s).0
  step (cancels m) s = some (send_cancel E m s).0
  step (modifies m) s = some (send_modify E m s).0
  step (sends m) s = some (send_msg E m s).0
  step (trader_logons m) s = some (trader_logon E m s).0

  unfoldable pub run : List (Event E.Msg) → Eti E.Msg → Option (Eti E.Msg)
  run [] s = some s
  run (e ∷ es) s = elim (step e s) [ none ↦ none | some t ↦ run es t ]
