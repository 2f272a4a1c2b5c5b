-- ===== src/Fix/Receive.antt =====
-- src/fix/gwcFix.cpp: handleTcpMsg and onTcpConnectionRead.
use fosdk.Common.{
  Bool, true, false, none, some, Option, String, List, ℕ, zero, suc, ◌-◌, ◌&&◌, ℤ, pos, succ, ltb_ℤ,
  if◌then◌else◌, str_eq, or_else, length, drop, take, ◌==◌,
}
use fosdk.Gwc.{ready, admin, other, wrote_in, on_logged_on, logged_on_event, is_connected}
use fosdk.Gwc.Env.{
  Env, error, short, abort, success, msg_type, msg_seq_num, reset_seq_num_flag, begin_seq_no,
  end_seq_no,
}
use fosdk.Fix.{
  Fix, Seqnums, emit, notify, store_seqnums, set_inbound, locked, unlocked, in_state, heartbeat,
  test_request, resend_request, reject, sequence_reset, logout, execution_report,
  order_cancel_reject, logon, business_message_reject,
}
use fosdk.Fix.Session
use fosdk.Fix.Session.{send_msg}
use fosdk.Fix.Handlers.{
  handle_logout_msg, handle_test_request_msg, handle_resend_request_msg, handle_sequence_reset_msg,
  handle_reject_msg, handle_business_reject_msg, handle_execution_report_msg,
  handle_order_cancel_reject_msg,
}

-- The last branch that handleTcpMsg takes.
pub data Handler : Type 0 where
  on_admin on_test_request on_resend_request on_reject on_logout on_execution_report : Handler
  on_order_cancel_reject on_business_reject on_other : Handler

-- The chain of tests at the end of handleTcpMsg.
unfoldable pub handler_of : String → Handler
handler_of ty =
    if str_eq ty heartbeat
    then on_admin
    else if str_eq ty test_request
    then on_test_request
    else if str_eq ty resend_request
    then on_resend_request
    else if str_eq ty reject
    then on_reject
    else if str_eq ty logout
    then on_logout
    else if str_eq ty execution_report
    then on_execution_report
    else if str_eq ty order_cancel_reject
    then on_order_cancel_reject
    else if str_eq ty business_message_reject
    then on_business_reject
    else if str_eq ty logon && str_eq ty logout && str_eq ty resend_request
    then on_admin
    else on_other

module _ (E : Env Seqnums) where
  -- Whether the handler returns early or goes on.
  pub data Outcome : Type 0 where
    return : Fix E.Msg → Outcome
    go_on : Fix E.Msg → Outcome

  -- ResetSeqNumFlag of a logon: `none` if it is there and does not parse.
  unfoldable pub logon_reset : E.Msg → Option Bool
  logon_reset msg = elim (E.get_string msg reset_seq_num_flag) [
    | none ↦ some false
    | some flag ↦ E.parse_bool flag
  ]

  -- The rest of a Logon, after its flag was read.
  unfoldable pub logged_on : Option Bool → ℤ → E.Msg → Fix E.Msg → Outcome
  logged_on none seqnum msg s = return (Session.error E "invalid logon msg" s)
  logged_on (some flag) seqnum msg s =
      let u = if flag then unlocked (store_seqnums (set_inbound seqnum (locked s))) else s in
      let v = emit (on_logged_on seqnum msg) (record u { first_connect = false }) in
      go_on (record v { base = logged_on_event v.base })

  -- The branch for a Logon in state CONNECTED.
  unfoldable pub accept_logon : ℤ → E.Msg → Fix E.Msg → Outcome
  unfolding logon_reset logged_on
  accept_logon seqnum msg s =
      logged_on (logon_reset msg) seqnum msg (record (in_state ready s) { hb = true })

  -- The block for state CONNECTED.
  unfoldable pub check_logon : String → ℤ → E.Msg → Fix E.Msg → Outcome
  check_logon ty seqnum msg s =
      if is_connected s.state
      then (if str_eq ty logon
          then accept_logon seqnum msg s
          else if str_eq ty logout
          then return (Session.error E "logon rejected" s)
          else if str_eq ty resend_request
          then go_on s
          else return (Session.error E "invalid response after logon" s))
      else go_on s

  unfoldable pub call : Handler → ℤ → E.Msg → Fix E.Msg → Fix E.Msg
  call on_admin seqnum msg s = notify admin seqnum msg s
  call on_test_request seqnum msg s = handle_test_request_msg E seqnum msg s
  call on_resend_request seqnum msg s = handle_resend_request_msg E seqnum msg s
  call on_reject seqnum msg s = handle_reject_msg E seqnum msg s
  call on_logout seqnum msg s = handle_logout_msg E seqnum msg s
  call on_execution_report seqnum msg s = handle_execution_report_msg E seqnum msg s
  call on_order_cancel_reject seqnum msg s = handle_order_cancel_reject_msg E seqnum msg s
  call on_business_reject seqnum msg s = handle_business_reject_msg E seqnum msg s
  call on_other seqnum msg s = notify other seqnum msg s

  unfoldable pub dispatch : String → ℤ → E.Msg → Fix E.Msg → Fix E.Msg
  unfolding call handler_of
  dispatch ty seqnum msg s = call (handler_of ty) seqnum msg s

  -- The ResendRequest for everything from the expected number on.
  unfoldable pub resend : ℤ → E.Msg
  resend from =
      let m = E.set_string E.empty msg_type resend_request in
      E.set_integer (E.set_integer m begin_seq_no from) end_seq_no (pos 0)

  abbrev pub too_low : ℤ → String
  too_low expected = E.format "sequence number too low expecting: " expected

  -- The comparison with the expected number, and what follows.
  unfoldable pub sequence : String → ℤ → E.Msg → Fix E.Msg → Fix E.Msg
  sequence ty seqnum msg s =
      if ltb_ℤ s.seqnums.inbound seqnum
      then (send_msg E (resend s.seqnums.inbound) (unlocked (locked s))).0
      else if ltb_ℤ seqnum s.seqnums.inbound
      then unlocked (Session.error E (too_low s.seqnums.inbound) (locked s))
      else dispatch ty seqnum msg (unlocked (store_seqnums (set_inbound (succ seqnum) (locked s))))

  unfoldable pub after_logon : String → ℤ → E.Msg → Outcome → Fix E.Msg
  after_logon ty seqnum msg (return s) = s
  after_logon ty seqnum msg (go_on s) =
      if str_eq ty sequence_reset
      then handle_sequence_reset_msg E seqnum msg s
      else sequence ty seqnum msg s

  unfoldable pub handle_tcp_msg : E.Msg → Fix E.Msg → Fix E.Msg
  unfolding after_logon
  handle_tcp_msg msg s =
      let ty = or_else (E.get_string msg msg_type) "" in
      let seqnum = or_else (E.get_integer msg msg_seq_num) E.uninitialised in
      after_logon ty seqnum msg (check_logon ty seqnum msg (record s { seen_hb = true }))

  unfoldable pub record_inbound : List ℕ → Fix E.Msg → Fix E.Msg
  record_inbound bytes s = if s.msg_in_writer then emit (wrote_in bytes) s else s

  -- The loop of onTcpConnectionRead: the state after it and the number of bytes left. A round needs
  -- one unit of fuel. The message is cleared after each round.
  unfoldable pub read_loop : ℕ → List ℕ → Fix E.Msg → Fix E.Msg × ℕ
  read_loop zero bytes s = (s, length bytes)
  read_loop (suc fuel) bytes s =
      let d = E.decode E.empty bytes in
      let t = record_inbound (take d.used bytes) s in
      let rest = read_loop fuel (drop d.used bytes) (handle_tcp_msg d.msg t) in
      if length bytes == 0 then (s, 0) else elim d.status [
        | error ↦ (s, length bytes)
        | short ↦ (s, length bytes)
        | abort ↦ (s, 0)
        | success ↦ rest
      ]

  -- The state, and the number of bytes consumed.
  unfoldable pub on_tcp_connection_read : List ℕ → Fix E.Msg → Fix E.Msg × ℕ
  on_tcp_connection_read bytes s =
      let r = read_loop (length bytes) bytes s in (r.0, length bytes - r.1)
