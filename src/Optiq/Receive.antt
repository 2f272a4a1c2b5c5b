-- ===== src/Optiq/Receive.antt =====
-- src/optiq/gwcOptiq.cpp: the handlers, handleTcpMsg and the read loop over decoded messages.
use fosdk.Common.{
  true, none, some, ◌||◌, List, ℕ, zero, suc, ℤ, pos, eqb_ℤ, if◌then◌else◌, or_else, length, drop,
  ◌==◌,
}
use fosdk.Gwc.{
  ready, admin, order_ack, order_fill, order_done, modify_ack, order_rejected, modify_rejected,
  cancel_rejected, other, on_logged_on, on_logged_off, logged_on_event, logged_off_event, is_ready,
  is_connected, is_waiting_logoff,
}
use fosdk.Gwc.Env.{
  Env, error, short, abort, success, template_id, msg_seq_num, last_cl_msg_seq_num,
  last_msg_seq_num, ack_type, rejected_message_id,
}
use fosdk.Optiq.{
  Optiq, Codes, Seqnums, emit, notify, store_seqnums, set_inbound, set_outbound, locked, unlocked,
  in_state,
}
use fosdk.Optiq.Session
use fosdk.Optiq.Session.{reset, send_msg}

-- The labels of the switch at the end of handleTcpMsg.
pub data Handler : Type 0 where
  on_logout on_test_request on_technical_reject on_ack on_fill on_kill on_reject on_other : Handler

module _ (E : Env Seqnums) (k : Codes) where
  unfoldable pub handle_logoff_response : E.Msg → Optiq E.Msg → Optiq E.Msg
  handle_logoff_response msg s =
      let t = notify admin (pos 0) msg s in
      if is_waiting_logoff t.state
      then (let u = emit (on_logged_off (pos 0) msg) (reset t) in
          record u { base = logged_off_event u.base })
      else Session.error E k "unsolicited logoff from exchnage" t

  unfoldable pub handle_test_request_msg : E.Msg → Optiq E.Msg → Optiq E.Msg
  handle_test_request_msg msg s =
      let t = notify admin (pos 0) msg s in
      (send_msg E k (E.set_integer E.empty template_id k.heartbeat) t).0

  unfoldable pub handle_technical_reject_msg : E.Msg → Optiq E.Msg → Optiq E.Msg
  handle_technical_reject_msg msg s = notify admin (pos 0) msg s

  unfoldable pub handle_ack_msg : ℤ → E.Msg → Optiq E.Msg → Optiq E.Msg
  handle_ack_msg seqno msg s =
      let t = or_else (E.get_integer msg ack_type) E.uninitialised in
      if eqb_ℤ t k.new_order_ack_type
      then notify order_ack seqno msg s
      else if eqb_ℤ t k.replace_ack_type
      then notify modify_ack seqno msg s
      else s

  unfoldable pub handle_execution_msg : ℤ → E.Msg → Optiq E.Msg → Optiq E.Msg
  handle_execution_msg seqno msg s = notify order_fill seqno msg s

  unfoldable pub handle_kill_msg : ℤ → E.Msg → Optiq E.Msg → Optiq E.Msg
  handle_kill_msg seqno msg s = notify order_done seqno msg s

  unfoldable pub handle_reject_msg : ℤ → E.Msg → Optiq E.Msg → Optiq E.Msg
  handle_reject_msg seqno msg s =
      let t = or_else (E.get_integer msg rejected_message_id) E.uninitialised in
      if eqb_ℤ t k.new_order
      then notify order_rejected seqno msg s
      else if eqb_ℤ t k.cancel_replace
      then notify modify_rejected seqno msg s
      else if eqb_ℤ t k.cancel_request
      then notify cancel_rejected seqno msg s
      else s

  unfoldable pub handler_of : ℤ → Handler
  handler_of t =
      if eqb_ℤ t k.logout
      then on_logout
      else if eqb_ℤ t k.test_request
      then on_test_request
      else if eqb_ℤ t k.technical_reject
      then on_technical_reject
      else if eqb_ℤ t k.ack
      then on_ack
      else if eqb_ℤ t k.fill
      then on_fill
      else if eqb_ℤ t k.kill
      then on_kill
      else if eqb_ℤ t k.reject
      then on_reject
      else on_other

  unfoldable pub call : Handler → ℤ → E.Msg → Optiq E.Msg → Optiq E.Msg
  call on_logout seqno msg s = handle_logoff_response msg s
  call on_test_request seqno msg s = handle_test_request_msg msg s
  call on_technical_reject seqno msg s = handle_technical_reject_msg msg s
  call on_ack seqno msg s = handle_ack_msg seqno msg s
  call on_fill seqno msg s = handle_execution_msg seqno msg s
  call on_kill seqno msg s = handle_kill_msg seqno msg s
  call on_reject seqno msg s = handle_reject_msg seqno msg s
  call on_other seqno msg s = notify other seqno msg s

  -- A logon ack sets the outbound number to the last one that the exchange has.
  unfoldable pub accept_logon : E.Msg → Optiq E.Msg → Optiq E.Msg
  accept_logon msg s =
      let outbound = or_else (E.get_integer msg last_cl_msg_seq_num) E.uninitialised in
      let t = record (in_state ready s) { hb = true } in
      let u = unlocked (store_seqnums (set_outbound outbound (locked t))) in
      let v = emit (on_logged_on (pos 0) msg) u in record v { base = logged_on_event v.base }

  -- A logon reject sets both numbers, for the next attempt.
  unfoldable pub refuse_logon : E.Msg → Optiq E.Msg → Optiq E.Msg
  refuse_logon msg s =
      let outbound = or_else (E.get_integer msg last_cl_msg_seq_num) E.uninitialised in
      let inbound = or_else (E.get_integer msg last_msg_seq_num) E.uninitialised in
      let t = set_inbound inbound (set_outbound outbound (locked s)) in
      Session.error E k "logon rejected" (unlocked (store_seqnums t))

  -- The block for state CONNECTED.
  unfoldable pub await_logon : ℤ → E.Msg → Optiq E.Msg → Optiq E.Msg
  await_logon template msg s =
      if eqb_ℤ template k.logon_ack
      then accept_logon msg (notify admin (pos 0) msg s)
      else if eqb_ℤ template k.logon_reject
      then refuse_logon msg (notify admin (pos 0) msg s)
      else Session.error E k "invalid template response after logon" s

  -- MsgSeqNum, where there is one, becomes the inbound number.
  unfoldable pub track : E.Msg → Optiq E.Msg → Optiq E.Msg
  track msg s = elim (E.get_integer msg msg_seq_num) [
    | none ↦ s
    | some n ↦ unlocked (store_seqnums (set_inbound n (locked s)))
  ]

  unfoldable pub handle_tcp_msg : E.Msg → Optiq E.Msg → Optiq E.Msg
  handle_tcp_msg msg s =
      let template = or_else (E.get_integer msg template_id) (pos 0) in
      let seqno = or_else (E.get_integer msg msg_seq_num) (pos 0) in
      let t = record s { seen_hb = true } in
      if eqb_ℤ template k.heartbeat
      then notify admin (pos 0) msg t
      else if is_connected t.state
      then await_logon template msg t
      else if is_ready t.state || is_waiting_logoff t.state
      then call (handler_of template) seqno msg (track msg t)
      else Session.error E k "invalid message during state READY or WAITING_LOGOFF" t

  -- The loop of onTcpConnectionRead with raw messages off, as for FIX. Each round decodes into the
  -- message of the one before.
  unfoldable pub read_loop : ℕ → E.Msg → List ℕ → Optiq E.Msg → Optiq E.Msg × ℕ
  read_loop zero msg bytes s = (s, length bytes)
  read_loop (suc fuel) msg bytes s =
      let d = E.decode msg bytes in
      let rest = read_loop fuel d.msg (drop d.used bytes) (handle_tcp_msg d.msg s) in
      if length bytes == 0 then (s, 0) else elim d.status [
        | error ↦ (s, length bytes)
        | short ↦ (s, length bytes)
        | abort ↦ (s, 0)
        | success ↦ rest
      ]
