-- ===== src/Eti/Receive.antt =====
-- src/eti/gwcEti.cpp: handleTcpMsg and the handlers that it calls, and the read loop.
use Prim.Native.String.{◌++◌ as str_append}
use fosdk.Common.{
  ℕ, suc, ◌^◌, ◌-◌, ◌==◌, Bool, true, false, ◌||◌, not, ◌&&◌, Option, none, some, List, [], ◌∷◌, ℤ,
  pos, negsuc, pred, ltb, eqb_ℤ, if◌then◌else◌, or_else, str_eq, unsigned, length,
}
use fosdk.Gwc.{
  Callback, admin, other, order_ack, order_done, order_fill, order_rejected, modify_ack, ready,
  on_logged_on, on_logged_off, on_trader_logged_on, on_trader_logged_off, logged_on_event,
  logged_off_event, trader_logged_on_event, trader_logged_off_event, is_connected,
  is_waiting_logoff,
}
use fosdk.Gwc.Env.{
  Env, Field, template_id, msg_seq_num, partition_id, appl_msg_id, appl_total_message_count,
  appl_end_msg_id, var_text, session_status, ord_status,
}
use fosdk.Gwc.Stream.{read_loop}
use fosdk.Eti.{Eti, Item, Ids, emit, notify, in_state}
use fosdk.Eti.Session
use fosdk.Eti.Session.{reset, update_seq_no, update_appl_msg_id, send_retrans_request}

-- The byte comparison of two ids.
unfoldable pub same_id : List ℕ → List ℕ → Bool
same_id [] [] = true
same_id (a ∷ as') (b ∷ bs) = let rest = same_id as' bs in if a == b then rest else false
same_id _ _ = false

-- An int64_t as an int.
unfoldable pub int_32 : ℤ → ℤ
unfolding unsigned
int_32 z = let u = unsigned (2 ^ 32) z in if ltb u (2 ^ 31) then pos u else negsuc (2 ^ 32 - 1 - u)

module _ (E : Env Item) (I : Ids) where
  -- `getInteger` into a variable that is 0.
  unfoldable pub integer_or_0 : E.Msg → Field → ℤ
  integer_or_0 m f = or_else (E.get_integer m f) (pos 0)

  -- `getInteger` into one that was never set.
  unfoldable pub integer_or_any : E.Msg → Field → ℤ
  integer_or_any m f = or_else (E.get_integer m f) E.uninitialised

  unfoldable pub handle_reject : E.Msg → Eti E.Msg → Eti E.Msg
  unfolding integer_or_any
  handle_reject msg s =
      let status = integer_or_any msg session_status in
      let seqnum = integer_or_any msg msg_seq_num in
      let text = or_else (E.get_string msg var_text) "" in
      if eqb_ℤ status (pos 4)
      then Session.error E (str_append (str_append (E.format "fatal reject [" status) "] ") text)
          (notify other seqnum msg s)
      else notify order_rejected seqnum msg s

  -- An ApplEndMsgID that is not there is the empty text.
  unfoldable pub handle_retrans_me_response : E.Msg → Eti E.Msg → Eti E.Msg
  handle_retrans_me_response msg s = record s {
    recovery_msg_cnt = or_else (E.get_integer msg appl_total_message_count) s.recovery_msg_cnt;
    current_recovery_end = I.bytes_of (or_else (E.get_string msg appl_end_msg_id) "");
  }

  unfoldable pub handle_trader_logon : E.Msg → Eti E.Msg → Eti E.Msg
  handle_trader_logon msg s =
      let t = emit (on_trader_logged_on msg) s in record t { base = trader_logged_on_event t.base }

  unfoldable pub handle_logoff_response : E.Msg → Eti E.Msg → Eti E.Msg
  unfolding integer_or_0 reset
  handle_logoff_response msg s =
      let t = notify admin (integer_or_0 msg msg_seq_num) msg s in
      if is_waiting_logoff t.state
      then (let u = emit (on_logged_off (pos 0) msg) (reset t) in
          record u { base = logged_off_event u.base })
      else Session.error E "unsolicited logoff from exchnage" t

  unfoldable pub handle_trader_logoff_response : E.Msg → Eti E.Msg → Eti E.Msg
  unfolding integer_or_0
  handle_trader_logoff_response msg s =
      let t = emit (on_trader_logged_off msg) (notify admin (integer_or_0 msg msg_seq_num) msg s) in
      record t { base = trader_logged_off_event t.base }

  -- An acknowledgement, after which an order of status 4 is done.
  unfoldable pub acknowledged : Callback → ℤ → E.Msg → Eti E.Msg → Eti E.Msg
  acknowledged c seqnum msg s =
      let t = notify c seqnum msg s in
      if str_eq (or_else (E.get_string msg ord_status) "") "4"
      then notify order_done seqnum msg t
      else t

  unfoldable pub handle_exchange_msg : ℤ → E.Msg → ℤ → Eti E.Msg → Eti E.Msg
  unfolding acknowledged
  handle_exchange_msg seqnum msg template s =
      if eqb_ℤ template (pos 10101) || eqb_ℤ template (pos 10102)
      then acknowledged order_ack seqnum msg s
      else if eqb_ℤ template (pos 10107) || eqb_ℤ template (pos 10108)
      then acknowledged modify_ack seqnum msg s
      else if eqb_ℤ template (pos 10103)
      then notify order_fill seqnum msg (notify order_ack seqnum msg s)
      else if eqb_ℤ template (pos 10104)
      then notify order_fill seqnum msg s
      else s

  -- A message of a resend: the last one of a retransmission that is not complete asks for more.
  unfoldable pub resent : Eti E.Msg → Eti E.Msg
  unfolding same_id
  resent s =
      let t = record s { recovery_msg_cnt = pred s.recovery_msg_cnt } in
      if same_id t.current_recovery_end t.last_appl_msg_id && not (eqb_ℤ t.recovery_msg_cnt (pos 0))
      then send_retrans_request E I t
      else t

  unfoldable pub keep_appl_msg_id : E.Msg → Eti E.Msg → Eti E.Msg
  unfolding unsigned integer_or_any resent
  keep_appl_msg_id msg s = elim (E.get_string msg appl_msg_id) [
    | none ↦ s
    | some id ↦
        let t =
          update_appl_msg_id (unsigned (2 ^ 16) (integer_or_any msg partition_id)) (I.bytes_of id)
            s in
        if I.appl_resend_flag_is_1 then resent t else t
  ]

  -- A message while the session logon is waited for.
  unfoldable pub session_logon : ℤ → E.Msg → Eti E.Msg → Eti E.Msg
  unfolding handle_reject
  session_logon template msg s =
      if eqb_ℤ template (pos 10001)
      then (let t = emit (on_logged_on (pos 1) msg) (notify admin (pos 1) msg (in_state ready s)) in
          record t { base = logged_on_event t.base; hb = true })
      else if eqb_ℤ template (pos 10010)
      then handle_reject msg s
      else s

  abbrev pub is_empty : {A : Type 0} → List A → Bool
  is_empty [] = true
  is_empty (a ∷ rest) = false

  unfoldable pub trader_logged_on : E.Msg → Eti E.Msg → Eti E.Msg
  unfolding handle_trader_logon
  trader_logged_on msg s =
      let t = handle_trader_logon msg s in
      if is_empty t.cache_map then t else send_retrans_request E I t

  -- The labels that go to handleExchangeMsg.
  unfoldable pub is_exchange_msg : ℤ → Bool
  is_exchange_msg t =
      eqb_ℤ t (pos 10101)
      || (eqb_ℤ t (pos 10102)
          || (eqb_ℤ t (pos 10107)
              || (eqb_ℤ t (pos 10108) || (eqb_ℤ t (pos 10103) || eqb_ℤ t (pos 10104)))))

  -- The switch on the template.
  unfoldable pub by_template : ℤ → ℤ → E.Msg → Eti E.Msg → Eti E.Msg
  unfolding trader_logged_on handle_logoff_response handle_trader_logoff_response
      handle_retrans_me_response handle_exchange_msg handle_reject is_exchange_msg int_32
  by_template template seqnum msg s =
      if eqb_ℤ template (pos 10019)
      then trader_logged_on msg s
      else if eqb_ℤ template (pos 10003) || eqb_ℤ template (pos 10012)
      then handle_logoff_response msg s
      else if eqb_ℤ template (pos 10024)
      then handle_trader_logoff_response msg s
      else if eqb_ℤ template (pos 10027)
      then handle_retrans_me_response msg s
      else if is_exchange_msg template
      then handle_exchange_msg (int_32 seqnum) msg template s
      else if eqb_ℤ template (pos 10010)
      then handle_reject msg s
      else notify other seqnum msg s

  -- The counter of what is sent takes the message's number.
  unfoldable pub keep_seq_no : ℤ → E.Msg → Eti E.Msg → Eti E.Msg
  unfolding unsigned integer_or_any
  keep_seq_no template msg s =
      if eqb_ℤ template (pos 10104) || eqb_ℤ template (pos 10122)
      then s
      else update_seq_no (unsigned (2 ^ 64) (integer_or_any msg msg_seq_num)) s

  unfoldable pub handle_tcp_msg : E.Msg → Eti E.Msg → Eti E.Msg
  unfolding integer_or_0 keep_seq_no session_logon keep_appl_msg_id by_template
  handle_tcp_msg msg s =
      let template = integer_or_0 msg template_id in
      let t = record (keep_seq_no template msg s) { seen_hb = true } in
      if eqb_ℤ template (pos 10023)
      then notify admin (pos 1) msg t
      else if is_connected t.state
      then session_logon template msg t
      else by_template template (integer_or_0 msg msg_seq_num) msg (keep_appl_msg_id msg t)

  unfoldable pub on_tcp_connection_read : List ℕ → Eti E.Msg → Option (Eti E.Msg × ℕ)
  unfolding handle_tcp_msg
  on_tcp_connection_read bytes s =
      read_loop E handle_tcp_msg (suc (length bytes)) (length bytes) E.empty bytes s
