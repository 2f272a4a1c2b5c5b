-- ===== src/Fix/Handlers.antt =====
-- src/fix/gwcFix.cpp: the handlers of single message types.
use fosdk.Common.{none, some, String, ℤ, succ, ◌||◌, if◌then◌else◌, str_eq}
use fosdk.Gwc.{
  Callback, admin, order_ack, order_rejected, order_done, order_fill, modify_ack, modify_rejected,
  cancel_rejected, other, on_logged_off, logged_off_event, is_waiting_logoff,
}
use fosdk.Gwc.Env.{
  Env, msg_type, test_req_id, new_seq_no, exec_trans_type, exec_type, cxl_rej_response_to,
}
use fosdk.Fix.{
  Fix, Seqnums, emit, notify, store_seqnums, set_inbound, locked, unlocked, test_request,
  sequence_reset,
}
use fosdk.Fix.Session.{reset, error, send_msg}

-- The callback for an ExecType.
unfoldable pub exec_callback : String → Callback
exec_callback t =
    if str_eq t "0"
    then order_ack
    else if str_eq t "1" || str_eq t "2"
    then order_fill
    else if str_eq t "3" || str_eq t "4"
    then order_done
    else if str_eq t "5"
    then modify_ack
    else if str_eq t "8"
    then order_rejected
    else other

module _ (E : Env Seqnums) where
  unfoldable pub handle_logout_msg : ℤ → E.Msg → Fix E.Msg → Fix E.Msg
  handle_logout_msg seqno msg s =
      let t = notify admin seqno msg s in
      if is_waiting_logoff t.state
      then (let u = emit (on_logged_off seqno msg) (reset t) in
          record u { base = logged_off_event u.base })
      else error E "unsolicited logoff from exchnage" t

  unfoldable pub handle_test_request_msg : ℤ → E.Msg → Fix E.Msg → Fix E.Msg
  handle_test_request_msg seqno msg s =
      let t = notify admin seqno msg s in
      elim (E.get_string msg test_req_id) [
        | none ↦ t
        | some id ↦
            let tr = E.set_string (E.set_string E.empty msg_type test_request) test_req_id id in
            (send_msg E tr t).0
      ]

  unfoldable pub handle_resend_request_msg : ℤ → E.Msg → Fix E.Msg → Fix E.Msg
  handle_resend_request_msg seqno msg s =
      let t = notify admin seqno msg s in
      elim (E.get_string msg test_req_id) [
        | none ↦ t
        | some id ↦
            let sr = E.set_string E.empty msg_type sequence_reset in
            (send_msg E (E.set_integer sr new_seq_no (succ t.seqnums.outbound)) t).0
      ]

  unfoldable pub handle_sequence_reset_msg : ℤ → E.Msg → Fix E.Msg → Fix E.Msg
  handle_sequence_reset_msg seqno msg s =
      let t = notify admin seqno msg s in
      elim (E.get_integer msg new_seq_no) [
        | none ↦ t
        | some n ↦ unlocked (store_seqnums (set_inbound n (locked t)))
      ]

  -- handleRejectMsg, and handleBusinessRejectMsg with the same body.
  unfoldable pub handle_reject_msg : ℤ → E.Msg → Fix E.Msg → Fix E.Msg
  handle_reject_msg seqno msg s = notify admin seqno msg s

  unfoldable pub handle_business_reject_msg : ℤ → E.Msg → Fix E.Msg → Fix E.Msg
  handle_business_reject_msg seqno msg s = notify admin seqno msg s

  unfoldable pub exec_report_callback : E.Msg → Callback
  exec_report_callback msg =
      let by_type : Callback = elim (E.get_string msg exec_type) [
        | none ↦ other
        | some t ↦ exec_callback t
      ] in
      elim (E.get_string msg exec_trans_type) [
        | none ↦ by_type
        | some t ↦ if str_eq t "0" then by_type else other
      ]

  unfoldable pub handle_execution_report_msg : ℤ → E.Msg → Fix E.Msg → Fix E.Msg
  handle_execution_report_msg seqno msg s = notify (exec_report_callback msg) seqno msg s

  unfoldable pub handle_order_cancel_reject_msg : ℤ → E.Msg → Fix E.Msg → Fix E.Msg
  handle_order_cancel_reject_msg seqno msg s = elim (E.get_string msg cxl_rej_response_to) [
    | none ↦ notify other seqno msg s
    | some r ↦
        if str_eq r "1"
        then notify cancel_rejected seqno msg s
        else if str_eq r "2"
        then notify modify_rejected seqno msg s
        else s
  ]
