-- ===== src/Millennium/Receive.antt =====
-- src/millennium/gwcMillennium.cpp: the handlers of decoded messages from either connection.
use Prim.Native.String.{◌++◌ as str_append}
use fosdk.Common.{
  ℕ, ◌^◌, ◌==◌, true, String, List, [], ◌∷◌, pos, if◌then◌else◌, or_else, str_eq, unsigned, pred,
  succ, eqb_ℤ,
}
use fosdk.Gwc.{
  Callback, admin, other, order_ack, order_done, order_fill, order_rejected, modify_ack,
  cancel_rejected, ready, on_logged_on, on_logged_off, opened_recovery, logged_on_event,
  logged_off_event, is_waiting_logoff,
}
use fosdk.Gwc.Env.{
  Env, Field, message_type, reject_code, response_type, app_id, sequence_no, exec_type,
  last_msg_seq_num,
}
use fosdk.Millennium.{
  Millennium, SeqNum, Layout, absent, connected, emit, notify, in_state, through, send_real_time,
  send_recovery,
}
use fosdk.Millennium.Session
use fosdk.Millennium.Session.{reset, update_seqno}
use fosdk.Millennium.{Partitions}

-- The message types that the code tells apart.
pub data Kind : Type 0 where
  logon_reply logout heartbeat request_ack report reject : Kind
  execution order_cancel_reject business_reject unknown : Kind

-- The chain of comparisons.
unfoldable pub kind_of : String → Kind
kind_of t =
    if str_eq t "B"
    then logon_reply
    else if str_eq t "5"
    then logout
    else if str_eq t "0"
    then heartbeat
    else if str_eq t "N"
    then request_ack
    else if str_eq t "P"
    then report
    else if str_eq t "3"
    then reject
    else if str_eq t "8"
    then execution
    else if str_eq t "9"
    then order_cancel_reject
    else if str_eq t "j"
    then business_reject
    else unknown

-- The switch of handleExecutionMsg, on the characters '0', '4', '5', '8', 'C' and 'F'.
unfoldable pub exec_callback : ℕ → Callback
exec_callback t =
    if t == 48
    then order_ack
    else if t == 52
    then order_done
    else if t == 53
    then modify_ack
    else if t == 56
    then order_rejected
    else if t == 67
    then order_done
    else if t == 70
    then order_fill
    else other

module _ (E : Env SeqNum) (L : Layout E.Msg) where
  -- `getInteger` into a uint64_t that was never set.
  unfoldable pub uint_64 : E.Msg → Field → ℕ
  unfolding unsigned
  uint_64 m f = unsigned (2 ^ 64) (or_else (E.get_integer m f) E.uninitialised)

  -- The bytes that are sent for a message whose encoding is not looked at.
  unfoldable pub encoded : E.Msg → List ℕ
  encoded m = or_else (E.encode m) (L.unencoded m)

  unfoldable pub heartbeat_msg : E.Msg
  heartbeat_msg = E.set_string E.empty message_type "0"

  unfoldable pub logon_failed : String → ℕ → String
  logon_failed t code = str_append (E.format t (pos code)) "]"

  unfoldable pub handle_reject_msg : E.Msg → Millennium E.Msg → Millennium E.Msg
  handle_reject_msg msg s = notify other 0 msg s

  -- The partition's number is kept, and the client told.
  unfoldable pub sequenced : Callback → E.Msg → Millennium E.Msg → Millennium E.Msg
  sequenced c msg s =
      let seqno = uint_64 msg sequence_no in
      notify c seqno msg (update_seqno (uint_64 msg app_id) seqno s)

  unfoldable pub handle_execution_msg : E.Msg → Millennium E.Msg → Millennium E.Msg
  unfolding sequenced
  handle_execution_msg msg s = sequenced (exec_callback (uint_64 msg exec_type)) msg s

  unfoldable pub handle_order_cancel_reject_msg : E.Msg → Millennium E.Msg → Millennium E.Msg
  unfolding sequenced
  handle_order_cancel_reject_msg msg s = sequenced cancel_rejected msg s

  unfoldable pub handle_business_reject_msg : E.Msg → Millennium E.Msg → Millennium E.Msg
  unfolding sequenced
  handle_business_reject_msg msg s = sequenced other msg s

  -- The recovery connection is opened, the logon message kept, and the heartbeat timer started.
  unfoldable pub open_recovery : E.Msg → Millennium E.Msg → Millennium E.Msg
  open_recovery msg s =
      let t = emit (through s.recovery opened_recovery) s in
      if E.connects t.trace
      then record t { recovery = connected; logon_msg = msg; hb = true }
      else Session.error E "failed to create tcp connection for recovery" t

  unfoldable pub real_time_logon : E.Msg → Millennium E.Msg → Millennium E.Msg
  unfolding open_recovery
  real_time_logon msg s =
      let t = notify admin 0 msg s in
      let code = uint_64 msg reject_code in
      if code == 0
      then open_recovery msg t
      else Session.error E (logon_failed "real time logon failed code [" code) t

  unfoldable pub real_time_logout : E.Msg → Millennium E.Msg → Millennium E.Msg
  real_time_logout msg s =
      let t = notify admin 0 msg s in
      if is_waiting_logoff t.state
      then (let u = emit (on_logged_off (pos 0) msg) (reset t) in
          record u { base = logged_off_event u.base })
      else Session.error E "unsolicited logoff from exchnage" t

  unfoldable pub real_time_kind : Kind → E.Msg → Millennium E.Msg → Millennium E.Msg
  real_time_kind logon_reply msg s = real_time_logon msg s
  real_time_kind logout msg s = real_time_logout msg s
  real_time_kind heartbeat msg s = send_real_time (encoded heartbeat_msg) (notify admin 0 msg s)
  real_time_kind request_ack msg s = s
  real_time_kind report msg s = s
  real_time_kind reject msg s = handle_reject_msg msg s
  real_time_kind execution msg s = handle_execution_msg msg s
  real_time_kind order_cancel_reject msg s = handle_order_cancel_reject_msg msg s
  real_time_kind business_reject msg s = handle_business_reject_msg msg s
  real_time_kind unknown msg s = s

  unfoldable pub handle_real_time_msg : E.Msg → Millennium E.Msg → Millennium E.Msg
  handle_real_time_msg msg s =
      let t = or_else (E.get_string msg message_type) "" in
      real_time_kind (kind_of t) msg (record s { seen_hb = true })

  -- All has been recovered: the recovery connection goes, and the client hears of the logon.
  unfoldable pub recovered : Millennium E.Msg → Millennium E.Msg
  recovered s =
      let t = record (in_state ready s) { recovery = absent } in
      let u = emit (on_logged_on (pos 0) t.logon_msg) t in
      record u { base = logged_on_event u.base }

  unfoldable pub if_recovered : Millennium E.Msg → Millennium E.Msg
  unfolding recovered
  if_recovered s = if eqb_ℤ s.waiting_downloads (pos 0) then recovered s else s

  -- One download less to wait for.
  unfoldable pub downloaded : Millennium E.Msg → Millennium E.Msg
  unfolding if_recovered
  downloaded s = if_recovered (record s { waiting_downloads = pred s.waiting_downloads })

  -- The loop over the map: each request is set into the message of the one before.
  unfoldable pub request_missed : E.Msg → Partitions → Millennium E.Msg → Millennium E.Msg
  request_missed m [] s = s
  request_missed m ((part_id, seqno) ∷ rest) s =
      let r = E.set_integer (E.set_integer m app_id (pos part_id)) last_msg_seq_num (pos seqno) in
      let t = send_recovery (encoded r) s in
      request_missed r rest (record t { waiting_downloads = succ t.waiting_downloads })

  unfoldable pub recovery_logon : E.Msg → Millennium E.Msg → Millennium E.Msg
  unfolding if_recovered
  recovery_logon msg s =
      let t = notify admin 0 msg s in
      let code = uint_64 msg reject_code in
      if code == 0
      then if_recovered (request_missed (E.set_string E.empty message_type "M") t.cache_map t)
      else Session.error E (logon_failed "recovery logon failed code [" code) t

  unfoldable pub recovery_kind : Kind → E.Msg → Millennium E.Msg → Millennium E.Msg
  recovery_kind logon_reply msg s = recovery_logon msg s
  recovery_kind logout msg s = s
  recovery_kind heartbeat msg s = send_recovery (encoded heartbeat_msg) (notify admin 0 msg s)
  recovery_kind request_ack msg s =
      let t = notify admin 0 msg s in if uint_64 msg response_type == 0 then t else downloaded t
  recovery_kind report msg s = downloaded (notify admin 0 msg s)
  recovery_kind reject msg s = handle_reject_msg msg s
  recovery_kind execution msg s = handle_execution_msg msg s
  recovery_kind order_cancel_reject msg s = handle_order_cancel_reject_msg msg s
  recovery_kind business_reject msg s = handle_business_reject_msg msg s
  recovery_kind unknown msg s = s

  unfoldable pub handle_recovery_msg : E.Msg → Millennium E.Msg → Millennium E.Msg
  handle_recovery_msg msg s =
      recovery_kind (kind_of (or_else (E.get_string msg message_type) "")) msg s
