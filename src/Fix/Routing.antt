-- ===== src/Fix/Routing.antt =====
-- To which callback handleTcpMsg of src/fix/gwcFix.cpp hands a message, and what else it does with it.
use fosdk.Common.{
  ◌≡◌, ◌≢◌, ◌⊎◌, inl, inr, refl, true, false, none, some, String, List, [], ◌∷◌, arith, succ,
  or_else, str_eq, str_eq_iff, if◌then◌else◌,
}
use fosdk.Gwc.{
  Callback, admin, order_ack, order_fill, order_done, modify_ack, order_rejected, cancel_rejected,
  modify_rejected, other, init, is_connected, is_waiting_logoff, on_logged_off, on_error, notified,
}
use fosdk.Gwc.Env.{
  Env, msg_type, msg_seq_num, exec_type, exec_trans_type, cxl_rej_response_to, test_req_id,
  new_seq_no,
}
use fosdk.Fix.{Fix, Seqnums, notify, store_seqnums, set_inbound, locked, unlocked}
use fosdk.Fix.Session.{send_msg, reset, error}
use fosdk.Fix.Handlers.{
  exec_callback, exec_report_callback, handle_execution_report_msg, handle_order_cancel_reject_msg,
  handle_logout_msg, handle_test_request_msg, handle_resend_request_msg, handle_reject_msg,
  handle_business_reject_msg,
}
use fosdk.Fix.Receive.{handler_of, on_other, dispatch, sequence, check_logon, handle_tcp_msg}

-- The callbacks of an execution report, by its ExecType.
abbrev pub exec_types : List (String × Callback)
exec_types =
    ("0", order_ack)
    ∷ ("1", order_fill)
    ∷ ("2", order_fill)
    ∷ ("3", order_done)
    ∷ ("4", order_done)
    ∷ ("5", modify_ack)
    ∷ ("8", order_rejected)
    ∷ []

-- What stands in the table for a text, or onMsg.
abbrev pub entry : List (String × Callback) → String → Callback
entry [] t = other
entry ((k, c) ∷ rows) t = if str_eq t k then c else entry rows t

-- The types that have a handler, or that never come to one.
abbrev pub IsOther : String → Type 0
IsOther t =
    (t ≢ "0")
    × (t ≢ "1")
    × (t ≢ "2")
    × (t ≢ "3")
    × (t ≢ "4")
    × (t ≢ "5")
    × (t ≢ "8")
    × (t ≢ "9")
    × (t ≢ "j")

exec_callback-entry : (t : String) → exec_callback t ≡ entry exec_types t
unfolding exec_callback
exec_callback-entry t = ground arith

handler_of-other : (t : String) → IsOther t → handler_of t ≡ on_other
unfolding handler_of
handler_of-other t h = ground (
  arith,
  str_eq_iff t "0",
  str_eq_iff t "1",
  str_eq_iff t "2",
  str_eq_iff t "3",
  str_eq_iff t "5",
  str_eq_iff t "8",
  str_eq_iff t "9",
  str_eq_iff t "j",
  str_eq_iff t "A",
)

module _ (E : Env Seqnums) (m : E.Msg) (s : Fix E.Msg) where
  -- The state once the message has counted: it was heard, the next number is expected, and both numbers
  -- are in the cache file.
  abbrev pub counted : Fix E.Msg
  counted =
      unlocked (
        store_seqnums (set_inbound (succ s.seqnums.inbound) (locked (record s { seen_hb = true }))))

  -- The message was handed to one callback, and nothing else was done.
  abbrev pub OnlyTo : Callback → Fix E.Msg → Type 0
  OnlyTo c t = t ≡ notify c s.seqnums.inbound m counted

  -- The answers to a TestRequest and a ResendRequest with the given TestReqID.
  abbrev pub test_answer : String → E.Msg
  test_answer id = E.set_string (E.set_string E.empty msg_type "1") test_req_id id

  abbrev pub resend_answer : E.Msg
  resend_answer =
      E.set_integer (E.set_string E.empty msg_type "4") new_seq_no (succ s.seqnums.outbound)

  -- The message was handed to onAdmin; then, if it has a TestReqID, the answer was sent.
  abbrev pub Answered : (String → E.Msg) → Fix E.Msg → Type 0
  Answered answer t =
      (E.get_string m test_req_id ≡ none → OnlyTo admin t)
      × ((id : String)
          → E.get_string m test_req_id ≡ some id
          → t ≡ (send_msg E (answer id) (notify admin s.seqnums.inbound m counted)).0)

  -- The message was handed to onAdmin and the session closed: with onLoggedOff if it waited for that, and
  -- with onError otherwise.
  abbrev pub LoggedOut : Fix E.Msg → Type 0
  LoggedOut t =
      (t.state ≡ init)
      × (t.connection ≡ false)
      × (t.logged_on ≡ 0)
      × (is_waiting_logoff s.state ≡ true
          → t.trace
            ≡ on_logged_off s.seqnums.inbound m
              ∷ notified admin s.seqnums.inbound m
              ∷ counted.trace)
      × (is_waiting_logoff s.state ≡ false
          → t.trace
            ≡ on_error "unsolicited logoff from exchnage"
              ∷ notified admin s.seqnums.inbound m
              ∷ counted.trace)

  -- An execution report goes to the callback of its ExecType; to onMsg, if it has none or an ExecTransType
  -- other than "0".
  abbrev pub Reported : Fix E.Msg → Type 0
  Reported t =
      ((x : String) → E.get_string m exec_trans_type ≡ some x → x ≢ "0" → OnlyTo other t)
      × ((E.get_string m exec_trans_type ≡ none) ⊎ (E.get_string m exec_trans_type ≡ some "0")
          → (E.get_string m exec_type ≡ none → OnlyTo other t)
            × ((x : String) → E.get_string m exec_type ≡ some x → OnlyTo (entry exec_types x) t))

  -- The reject of a cancel goes to onCancelRejected, that of a modify to onModifyRejected, one that names
  -- neither to no callback, and one without CxlRejResponseTo to onMsg.
  abbrev pub CancelRejected : Fix E.Msg → Type 0
  CancelRejected t =
      (E.get_string m cxl_rej_response_to ≡ none → OnlyTo other t)
      × (E.get_string m cxl_rej_response_to ≡ some "1" → OnlyTo cancel_rejected t)
      × (E.get_string m cxl_rej_response_to ≡ some "2" → OnlyTo modify_rejected t)
      × ((x : String)
          → E.get_string m cxl_rej_response_to ≡ some x
          → x ≢ "1"
          → x ≢ "2"
          → t ≡ counted)

  -- What the handler does with a message of type `ty`.
  abbrev pub Routed : String → Fix E.Msg → Type 0
  Routed ty t =
      ((ty ≡ "0") ⊎ ((ty ≡ "3") ⊎ (ty ≡ "j")) → OnlyTo admin t)
      × (ty ≡ "1" → Answered test_answer t)
      × (ty ≡ "2" → Answered (λ id. resend_answer) t)
      × (ty ≡ "5" → LoggedOut t)
      × (ty ≡ "8" → Reported t)
      × (ty ≡ "9" → CancelRejected t)
      × (IsOther ty → OnlyTo other t)

  dispatched : String → Fix E.Msg
  dispatched ty = dispatch E ty s.seqnums.inbound m counted

  dispatched-admin :
      (ty : String) → (ty ≡ "0") ⊎ ((ty ≡ "3") ⊎ (ty ≡ "j")) → OnlyTo admin (dispatched ty)
  unfolding dispatched dispatch handle_reject_msg handle_business_reject_msg
  dispatched-admin ty (inl e) = rw e refl
  dispatched-admin ty (inr (inl e)) = rw e refl
  dispatched-admin ty (inr (inr e)) = rw e refl

  dispatched-test_request : Answered test_answer (dispatched "1")
  unfolding dispatched dispatch handle_test_request_msg
  dispatched-test_request =
      (λ e. rw (e, handle_test_request_msg) refl, λ id e. rw (e, handle_test_request_msg) refl)

  dispatched-resend_request : Answered (λ id. resend_answer) (dispatched "2")
  unfolding dispatched dispatch handle_resend_request_msg
  dispatched-resend_request =
      (λ e. rw (e, handle_resend_request_msg) refl, λ id e. rw (e, handle_resend_request_msg) refl)

  dispatched-logout : LoggedOut (dispatched "5")
  unfolding dispatched dispatch handle_logout_msg error reset
  dispatched-logout = ground arith

  dispatched-report : Reported (dispatched "8")
  unfolding dispatched dispatch handle_execution_report_msg exec_report_callback
  dispatched-report = (
    λ x e ne. ground (arith, str_eq_iff x "0"),
    λ plain. (λ e. ground arith, λ x e. ground (arith, exec_callback-entry x)),
  )

  dispatched-cancel_reject : CancelRejected (dispatched "9")
  unfolding dispatched dispatch handle_order_cancel_reject_msg
  dispatched-cancel_reject = (
    λ e. rw (e, handle_order_cancel_reject_msg) refl,
    λ e. rw (e, handle_order_cancel_reject_msg) refl,
    λ e. rw (e, handle_order_cancel_reject_msg) refl,
    λ x e a b. ground (arith, str_eq_iff x "1", str_eq_iff x "2"),
  )

  dispatched-other : (ty : String) → IsOther ty → OnlyTo other (dispatched ty)
  unfolding dispatched dispatch
  dispatched-other ty h = rw (handler_of-other ty h) refl

  dispatched-Routed : (ty : String) → Routed ty (dispatched ty)
  dispatched-Routed ty = (
    dispatched-admin ty,
    λ e. rw e dispatched-test_request,
    λ e. rw e dispatched-resend_request,
    λ e. rw e dispatched-logout,
    λ e. rw e dispatched-report,
    λ e. rw e dispatched-cancel_reject,
    dispatched-other ty,
  )

  handle_tcp_msg-dispatched :
      (ty : String)
      → or_else (E.get_string m msg_type) "" ≡ ty
      → ty ≢ "4"
      → E.get_integer m msg_seq_num ≡ some s.seqnums.inbound
      → is_connected s.state ≡ false
      → handle_tcp_msg E m s ≡ dispatched ty
  unfolding handle_tcp_msg sequence check_logon dispatched
  handle_tcp_msg-dispatched ty e ne n c = ground (arith, str_eq_iff ty "4")

  -- What handleTcpMsg does with a message that has the expected number and is no SequenceReset, on a
  -- session that does not wait for the answer to its logon. The number counts as received. A Heartbeat, a
  -- Reject and a BusinessMessageReject go to onAdmin, and nothing else is done. So do a TestRequest and a
  -- ResendRequest, and those with a TestReqID are answered, by a TestRequest with that id and by a
  -- SequenceReset to the number after the next outbound one. A Logout goes to onAdmin and closes the
  -- session, with onLoggedOff if that was waited for and with onError if it was not. An ExecutionReport goes
  -- to the callback of its ExecType in the table `exec_types`, and to onMsg where it has none, one that is
  -- not in the table, or an ExecTransType other than 0. An OrderCancelReject goes to onCancelRejected for
  -- CxlRejResponseTo 1, to onModifyRejected for 2, to onMsg where that is missing and to no callback
  -- otherwise. Every other message, a Logon included, goes to onMsg.
  pub routing :
      (ty : String)
      → or_else (E.get_string m msg_type) "" ≡ ty
      → ty ≢ "4"
      → E.get_integer m msg_seq_num ≡ some s.seqnums.inbound
      → is_connected s.state ≡ false
      → Routed ty (handle_tcp_msg E m s)
  routing ty e ne n c = rw (handle_tcp_msg-dispatched ty e ne n c) (dispatched-Routed ty)
