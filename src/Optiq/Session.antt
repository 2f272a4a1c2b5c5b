-- ===== src/Optiq/Session.antt =====
-- src/optiq/gwcOptiq.cpp: reset, error, sendMsg, sendRaw and the sends that set a template.
use fosdk.Common.{
  ℕ, ◌+◌, ◌-◌, ◌%◌, ◌/◌, Bool, true, false, ◌||◌, none, some, String, List, ℤ, pos, negsuc, succ,
  eqb_ℤ, if◌then◌else◌, or_else, set,
}
use fosdk.Gwc.{on_error, sent, lock, reset_connector, is_ready}
use fosdk.Gwc.Env.{Env, template_id, cl_msg_seq_num}
use fosdk.Optiq.{Optiq, Codes, Seqnums, emit, store_seqnums, set_outbound, locked, unlocked}

unfoldable pub reset : {Msg : Type 0} → Optiq Msg → Optiq Msg
reset s = unlocked (record s {
  base = reset_connector (lock s.base);
  connection = false;
  hb = false;
  seen_hb = false;
  missed_hb = 0;
  reconnect_timer = false;
})

-- The templates that sendMsg does not number.
unfoldable pub is_admin : Codes → ℤ → Bool
is_admin k t =
    eqb_ℤ t k.logon
    || (eqb_ℤ t k.logon_ack
        || (eqb_ℤ t k.logon_reject
            || (eqb_ℤ t k.logout
                || (eqb_ℤ t k.heartbeat
                    || (eqb_ℤ t k.test_request || eqb_ℤ t k.technical_reject)))))

-- The low 16 bits of an int64_t.
unfoldable pub low_16 : ℤ → ℕ
low_16 (pos n) = n % 65536
low_16 (negsuc n) = 65535 - n % 65536

module _ (E : Env Seqnums) (k : Codes) where
  -- The client's answer decides whether the reconnect timer is started.
  unfoldable pub error : String → Optiq E.Msg → Optiq E.Msg
  unfolding reset
  error err s =
      let t = emit (on_error err) (reset s) in
      if E.reconnects t.trace err then record t { reconnect_timer = true } else t

  unfoldable pub template_of : E.Msg → ℤ
  template_of m = or_else (E.get_integer m template_id) E.uninitialised

  -- An application message takes the next outbound number, which is stored.
  unfoldable pub take_number : Optiq E.Msg → Optiq E.Msg
  take_number s = store_seqnums (set_outbound (succ s.seqnums.outbound) s)

  unfoldable pub encode_and_send : E.Msg → Optiq E.Msg → Optiq E.Msg × Bool
  encode_and_send m s = elim (E.encode m) [
    | none ↦ (unlocked s, false)
    | some bytes ↦ (unlocked (emit (sent bytes) s), true)
  ]

  unfoldable pub send_msg : E.Msg → Optiq E.Msg → Optiq E.Msg × Bool
  unfolding template_of take_number encode_and_send
  send_msg msg s =
      if is_ready s.state
      then (if is_admin k (template_of msg)
          then encode_and_send msg (locked s)
          else (let t = take_number (locked s) in
              encode_and_send (E.set_integer msg cl_msg_seq_num t.seqnums.outbound) t))
      else (unlocked (locked s), false)

  -- The number goes into two bytes behind the packet's header of `header` bytes, low byte first.
  unfoldable pub send_raw : ℕ → List ℕ → Optiq E.Msg → Optiq E.Msg × Bool
  unfolding low_16
  send_raw header bytes s =
      if s.raw_enabled
      then (if is_ready s.state
          then (let t = set_outbound (succ s.seqnums.outbound) (locked s) in
              let n = low_16 t.seqnums.outbound in
              let numbered = set (set bytes (header + 2) (n % 256)) (header + 3) (n / 256) in
              (unlocked (emit (sent numbered) t), true))
          else (unlocked (locked s), false))
      else (s, false)

  unfoldable pub send_order : E.Msg → Optiq E.Msg → Optiq E.Msg × Bool
  send_order order s = send_msg (E.set_integer order template_id k.new_order) s

  unfoldable pub send_cancel : E.Msg → Optiq E.Msg → Optiq E.Msg × Bool
  send_cancel cancel s = send_msg (E.set_integer cancel template_id k.cancel_request) s

  unfoldable pub send_modify : E.Msg → Optiq E.Msg → Optiq E.Msg × Bool
  send_modify modify s = send_msg (E.set_integer modify template_id k.cancel_replace) s
