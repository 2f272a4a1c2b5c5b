-- ===== src/Fix/Session.antt =====
-- src/fix/gwcFix.cpp: reset, error, setHeader, sendMsg, sendRaw and the sends that set a type.
use fosdk.Common.{Bool, true, false, none, some, String, List, ℕ, succ, if◌then◌else◌}
use fosdk.Gwc.{on_error, sent, wrote_out, lock, reset_connector, is_ready}
use fosdk.Gwc.Env.{
  Env, begin_string, sender_comp_id, target_comp_id, msg_seq_num, sending_time, msg_type,
  transact_time,
}
use fosdk.Fix.{
  Fix, Seqnums, emit, store_seqnums, set_outbound, locked, unlocked, new_order_single,
  order_cancel_request, order_cancel_replace_request,
}

unfoldable pub reset : {Msg : Type 0} → Fix Msg → Fix Msg
reset s = unlocked (record s {
  base = reset_connector (lock s.base);
  connection = false;
  hb = false;
  seen_hb = false;
  missed_hb = 0;
  reconnect_timer = false;
})

module _ (E : Env Seqnums) where
  -- The client's answer decides whether the reconnect timer is started.
  unfoldable pub error : String → Fix E.Msg → Fix E.Msg
  unfolding reset
  error err s =
      let t = emit (on_error err) (reset s) in
      if E.reconnects t.trace err then record t { reconnect_timer = true } else t

  unfoldable pub set_header : Fix E.Msg → E.Msg → E.Msg
  set_header s d =
      let d1 = E.set_string d begin_string s.begin_string in
      let d2 = E.set_string d1 sender_comp_id s.sender_comp_id in
      let d3 = E.set_string d2 target_comp_id s.target_comp_id in
      let d4 = E.set_integer d3 msg_seq_num s.seqnums.outbound in
      E.set_date_time d4 sending_time (E.now s.trace)

  -- The bytes go to the exchange and to the outbound file, and the sequence number is stored.
  unfoldable pub transmit : List ℕ → Fix E.Msg → Fix E.Msg
  transmit bytes s =
      let t = emit (sent bytes) s in
      let u = if t.msg_out_writer then emit (wrote_out bytes) t else t in
      store_seqnums (set_outbound (succ u.seqnums.outbound) u)

  unfoldable pub send_msg : E.Msg → Fix E.Msg → Fix E.Msg × Bool
  unfolding transmit
  send_msg msg s =
      if is_ready s.state
      then (elim (E.encode (set_header s msg)) [
        | none ↦ (unlocked (locked s), false)
        | some bytes ↦ (unlocked (transmit bytes (locked s)), true)
      ])
      else (unlocked (locked s), false)

  unfoldable pub send_raw : List ℕ → Fix E.Msg → Fix E.Msg × Bool
  send_raw bytes s =
      if s.raw_enabled
      then (if is_ready s.state
          then (unlocked (emit (sent bytes) (locked s)), true)
          else (unlocked (locked s), false))
      else (s, false)

  -- TransactTime is filled in if the caller has not.
  unfoldable pub stamp : Fix E.Msg → E.Msg → E.Msg
  stamp s m =
      if E.contains m transact_time then m else E.set_date_time m transact_time (E.now s.trace)

  unfoldable pub send_order : E.Msg → Fix E.Msg → Fix E.Msg × Bool
  send_order order s = send_msg (stamp s (E.set_string order msg_type new_order_single)) s

  unfoldable pub send_cancel : E.Msg → Fix E.Msg → Fix E.Msg × Bool
  send_cancel cancel s = send_msg (stamp s (E.set_string cancel msg_type order_cancel_request)) s

  unfoldable pub send_modify : E.Msg → Fix E.Msg → Fix E.Msg × Bool
  send_modify modify s =
      send_msg (stamp s (E.set_string modify msg_type order_cancel_replace_request)) s
