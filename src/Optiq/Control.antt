-- ===== src/Optiq/Control.antt =====
-- src/optiq/gwcOptiq.cpp: connection and timer callbacks, start and stop; and the events that the
-- dispatch thread and the client bring to the connector.
use fosdk.Common.{
  ℕ, Bool, true, false, Option, none, some, not, List, [], ◌∷◌, ◌+◌, pos, negsuc, ltb, eqb_ℤ,
  if◌then◌else◌,
}
use fosdk.Gwc.{
  connected, waiting_logoff, on_logging_on, on_logged_off, sent, opened, logged_off_event, is_ready,
}
use fosdk.Gwc.Env.{
  Env, template_id, schema_id, version, logical_access_id, oe_partition_id, last_msg_seq_num,
  log_out_reason_code,
}
use fosdk.Optiq.{Optiq, Codes, Seqnums, emit, locked, unlocked, in_state}
use fosdk.Optiq.Session.{reset, error, send_msg, send_raw, send_order, send_cancel, send_modify}
use fosdk.Optiq.Raw.{Packet, on_tcp_connection_read}

-- What can happen to a connector that was initialised.
pub data Event (Msg : Type 0) : Type 0 where
  tcp_ready tcp_error hb_timeout reconnect stops : Event Msg
  tcp_read : List ℕ → Event Msg
  starts : Bool → Event Msg
  orders cancels modifies sends : Msg → Event Msg
  sends_raw : List ℕ → Event Msg

module _ (E : Env Seqnums) (k : Codes) where
  -- The logon message, before the client adds to it.
  unfoldable pub logon_msg : Optiq E.Msg → E.Msg
  logon_msg s =
      let d = E.set_integer E.empty template_id k.logon in
      let d1 = E.set_integer (E.set_integer d schema_id (pos 0)) version (pos 0) in
      let d2 = E.set_integer d1 logical_access_id s.access_id in
      let d3 = E.set_integer d2 oe_partition_id s.partition in
      if not (eqb_ℤ s.seqnums.inbound (negsuc 0))
      then E.set_integer d3 last_msg_seq_num s.seqnums.inbound
      else d3

  unfoldable pub on_tcp_connection_ready : Optiq E.Msg → Optiq E.Msg
  unfolding logon_msg
  on_tcp_connection_ready s =
      let t = in_state connected s in
      let d = E.logging_on t.trace (logon_msg t) in
      let u = emit (on_logging_on d) t in
      elim (E.encode d) [ none ↦ u | some bytes ↦ emit (sent bytes) u ]

  unfoldable pub on_tcp_connection_error : Optiq E.Msg → Optiq E.Msg
  on_tcp_connection_error s = error E k "tcp dropped connection" s

  unfoldable pub count_missed : Optiq E.Msg → Optiq E.Msg
  count_missed s =
      if s.seen_hb
      then record s { seen_hb = false; missed_hb = 0 }
      else (let t = record s { missed_hb = s.missed_hb + 1 } in
          if ltb 3 t.missed_hb then error E k "missed heartbeats" t else t)

  unfoldable pub on_hb_timeout : Optiq E.Msg → Optiq E.Msg
  unfolding count_missed
  on_hb_timeout s = count_missed (send_msg E k (E.set_integer E.empty template_id k.heartbeat) s).0

  -- With `asked` the numbers are -1, which is not written to the cache file.
  unfoldable pub start : Bool → Optiq E.Msg → Optiq E.Msg × Bool
  start asked s =
      let t =
        if asked
        then record s { seqnums = record { inbound = negsuc 0; outbound = negsuc 0 } }
        else s in
      let u = emit opened (record t { connection = true }) in (u, E.connects u.trace)

  unfoldable pub on_reconnect : Optiq E.Msg → Optiq E.Msg
  unfolding start
  on_reconnect s = (start false s).0

  unfoldable pub stop : Optiq E.Msg → Optiq E.Msg × Bool
  stop s =
      let logoff = E.set_integer E.empty template_id k.logout in
      if is_ready s.state
      then (let r =
            send_msg E k (E.set_integer logoff log_out_reason_code k.regular_logout)
              (unlocked (locked s)) in
          if r.1 then (in_state waiting_logoff r.0, true) else (r.0, false))
      else (let t = emit (on_logged_off (pos 0) logoff) (reset (locked s)) in
          (unlocked (record t { base = logged_off_event t.base }), true))

  -- A callback comes from a connection or a timer that is there. There is no next state when
  -- reading does not end.
  unfoldable pub step : Packet → Event E.Msg → Optiq E.Msg → Option (Optiq E.Msg)
  step p tcp_ready s = some (if s.connection then on_tcp_connection_ready s else s)
  step p tcp_error s = some (if s.connection then on_tcp_connection_error s else s)
  step p hb_timeout s = some (if s.hb then on_hb_timeout s else s)
  step p reconnect s = some (if s.reconnect_timer then on_reconnect s else s)
  step p stops s = some (stop s).0
  step p (tcp_read bytes) s =
      if s.connection
      then elim (on_tcp_connection_read E k p bytes s) [ none ↦ none | some r ↦ some r.0 ]
      else some s
  step p (starts asked) s = some (start asked s).0
  step p (orders m) s = some (send_order E k m s).0
  step p (cancels m) s = some (send_cancel E k m s).0
  step p (modifies m) s = some (send_modify E k m s).0
  step p (sends m) s = some (send_msg E k m s).0
  step p (sends_raw bytes) s = some (send_raw E k p.header bytes s).0

  unfoldable pub run : Packet → List (Event E.Msg) → Optiq E.Msg → Option (Optiq E.Msg)
  run p [] s = some s
  run p (e ∷ es) s = elim (step p e s) [ none ↦ none | some t ↦ run p es t ]
