-- ===== src/Eti/Invariant.antt =====
-- The state of src/eti/gwcEti.cpp over a history of events: the connection, the counters, and the calls
-- through the connection's pointer.
use fosdk.Common.{
  pred, ℕ, ◌^◌, ◌≤◌, ◌<◌, ◌≡◌, both_ways, Holds, Bool, true, false, not, ◌&&◌, String, Option, none,
  some, List, [], ◌∷◌, pos, arith, eqb_ℤ, if◌then◌else◌, unsigned, suc, length, ℤ,
}
use fosdk.Gwc.{Agrees, uses_null, ConnectorState, init, admin, is_connected}
use fosdk.Gwc.Env.{Env, partition_id, template_id, msg_seq_num, appl_msg_id}
use fosdk.Gwc.Stream.{read_loop-keeps}
use fosdk.Gwc.Keyed.{Keyed}
use fosdk.Eti.{Eti, Item, Ids, notify}
use fosdk.Eti.Session.{
  next_seq_no, previous_seq_no, reset, error, update_appl_msg_id, update_seq_no, send, send_msg,
  retrans_fields, retrans_requests, send_retrans_request,
}
use fosdk.Eti.Receive.{
  handle_reject, handle_retrans_me_response, handle_trader_logon, handle_logoff_response,
  handle_trader_logoff_response, acknowledged, handle_exchange_msg, resent, keep_appl_msg_id,
  session_logon, trader_logged_on, by_template, keep_seq_no, handle_tcp_msg, on_tcp_connection_read,
  int_32, integer_or_0, integer_or_any, is_empty, same_id,
}

abbrev pub is_live : ConnectorState → Bool
is_live init = false
is_live _ = true

-- No null pointer was called through, a state other than the first has a connection, the counter is
-- a uint64_t, three heartbeats at most were missed, and a session that is up counts as logged on.
abbrev pub Inv : {Msg : Type 0} → Eti Msg → Type 0
Inv s =
    (uses_null s.trace ≡ false)
    × (is_live s.state ≡ true → s.connection ≡ true)
    × (s.seq_no < 2 ^ 64)
    × (s.missed_hb ≤ 3)
    × Agrees s.base

unsigned_64_bound : (z : ℤ) → unsigned (2 ^ 64) z < 2 ^ 64
unfolding unsigned
unsigned_64_bound z = ground arith

next_seq_no_bound : (n : ℕ) → next_seq_no n < 2 ^ 64
unfolding next_seq_no
next_seq_no_bound n = omega arith

previous_seq_no_bound : (n : ℕ) → previous_seq_no n < 2 ^ 64
unfolding previous_seq_no
previous_seq_no_bound n = omega arith

module _ (E : Env Item) (I : Ids) where
  pub error-Inv : (t : String) (s : Eti E.Msg) → Inv s → Inv (error E t s)
  unfolding error reset uses_null
  error-Inv t s h = ground arith

  send-Inv : (m : E.Msg) (s : Eti E.Msg) → Inv s → Inv (send E m s).state
  unfolding send uses_null
  send-Inv m s h =
      ground (arith, next_seq_no_bound s.seq_no, previous_seq_no_bound (next_seq_no s.seq_no))

  pub send_msg-Inv : (m : E.Msg) (s : Eti E.Msg) → Inv s → Inv (send_msg E m s).0
  unfolding send_msg
  send_msg-Inv m s h = send-Inv m s h

  retrans-Inv :
      (ps : Keyed (List ℕ)) (m : E.Msg) (s : Eti E.Msg) → Inv s → Inv (retrans_requests E I m ps s)
  unfolding retrans_requests
  retrans-Inv [] m s h = h
  retrans-Inv ((p, d) ∷ ps) m s h =
      let r = send E (retrans_fields E I s.cache_item p d m) s in
      retrans-Inv ps r.msg r.state (send-Inv (retrans_fields E I s.cache_item p d m) s h)

  send_retrans_request-Inv : (s : Eti E.Msg) → Inv s → Inv (send_retrans_request E I s)
  unfolding send_retrans_request
  send_retrans_request-Inv s h = retrans-Inv s.cache_map E.empty s h

  resent-Inv : (s : Eti E.Msg) → Inv s → Inv (resent E I s)
  unfolding resent
  resent-Inv s h =
      let t = record s { recovery_msg_cnt = pred s.recovery_msg_cnt } in
      both_ways Inv
        (same_id t.current_recovery_end t.last_appl_msg_id
          && not (eqb_ℤ t.recovery_msg_cnt (pos 0)))
        (send_retrans_request E I t) t (λ e. send_retrans_request-Inv t h) (λ e. h)

  update_appl_msg_id-Inv :
      (p : ℕ) (d : List ℕ) (s : Eti E.Msg) → Inv s → Inv (update_appl_msg_id p d s)
  unfolding update_appl_msg_id uses_null
  update_appl_msg_id-Inv p d s h = h

  -- What noting an ApplMsgID and a resent message keep, the noting of a message's ApplMsgID keeps.
  pub keep_appl_msg_id-keeps :
      (P : Eti E.Msg → Type 0)
      → ((p : ℕ) (d : List ℕ) (s : Eti E.Msg) → P s → P (update_appl_msg_id p d s))
      → ((s : Eti E.Msg) → P s → P (resent E I s))
      → (m : E.Msg) (s : Eti E.Msg) → P s
      → P (keep_appl_msg_id E I m s)
  unfolding keep_appl_msg_id
  keep_appl_msg_id-keeps P keeps_id keeps_resent m s h = kept (E.get_string m appl_msg_id)
    where
      kept :
          (o : Option String)
          → P (elim o [
            | none ↦ s
            | some id ↦
                let t =
                  update_appl_msg_id
                    (unsigned (2 ^ 16) (integer_or_any E I m partition_id))
                    (I.bytes_of id)
                    s in
                if I.appl_resend_flag_is_1 then resent E I t else t
          ])
      kept none = h
      kept (some id) =
          let p = unsigned (2 ^ 16) (integer_or_any E I m partition_id) in
          let t = update_appl_msg_id p (I.bytes_of id) s in
          let g = keeps_id p (I.bytes_of id) s h in
          both_ways P I.appl_resend_flag_is_1 (resent E I t) t (λ e. keeps_resent t g) (λ e. g)

  keep_appl_msg_id-Inv : (m : E.Msg) (s : Eti E.Msg) → Inv s → Inv (keep_appl_msg_id E I m s)
  keep_appl_msg_id-Inv m s h = keep_appl_msg_id-keeps Inv update_appl_msg_id-Inv resent-Inv m s h

  handle_reject-Inv : (m : E.Msg) (s : Eti E.Msg) → Inv s → Inv (handle_reject E I m s)
  unfolding handle_reject error reset uses_null
  handle_reject-Inv m s h = ground arith

  logoff_response-Inv : (m : E.Msg) (s : Eti E.Msg) → Inv s → Inv (handle_logoff_response E I m s)
  unfolding handle_logoff_response error reset uses_null
  logoff_response-Inv m s h = ground arith

  session_logon-Inv :
      (q : ℤ) (m : E.Msg) (s : Eti E.Msg)
      → is_connected s.state ≡ true
      → Inv s
      → Inv (session_logon E I q m s)
  unfolding session_logon uses_null
  session_logon-Inv q m s c h = ground (arith, handle_reject-Inv m s h)

  trader_logged_on-Inv : (m : E.Msg) (s : Eti E.Msg) → Inv s → Inv (trader_logged_on E I m s)
  unfolding trader_logged_on handle_trader_logon uses_null
  trader_logged_on-Inv m s h =
      let t = handle_trader_logon E I m s in
      both_ways Inv (is_empty E I t.cache_map) t (send_retrans_request E I t) (λ e. h)
        (λ e. send_retrans_request-Inv t h)

  exchange_msg-Inv :
      (n : ℤ) (m : E.Msg) (q : ℤ) (s : Eti E.Msg) → Inv s → Inv (handle_exchange_msg E I n m q s)
  unfolding handle_exchange_msg acknowledged uses_null
  exchange_msg-Inv n m q s h = ground arith

  by_template-Inv : (q n : ℤ) (m : E.Msg) (s : Eti E.Msg) → Inv s → Inv (by_template E I q n m s)
  unfolding by_template handle_trader_logoff_response handle_retrans_me_response uses_null
  by_template-Inv q n m s h = ground (
    arith,
    trader_logged_on-Inv m s h,
    logoff_response-Inv m s h,
    exchange_msg-Inv (int_32 n) m q s h,
    handle_reject-Inv m s h,
  )

  keep_seq_no-Inv : (q : ℤ) (m : E.Msg) (s : Eti E.Msg) → Inv s → Inv (keep_seq_no E I q m s)
  unfolding keep_seq_no update_seq_no uses_null
  keep_seq_no-Inv q m s h = ground (arith, unsigned_64_bound (integer_or_any E I m msg_seq_num))

  pub handle_tcp_msg-Inv : (m : E.Msg) (s : Eti E.Msg) → Inv s → Inv (handle_tcp_msg E I m s)
  unfolding handle_tcp_msg uses_null
  handle_tcp_msg-Inv m s h =
      let q = integer_or_0 E I m template_id in
      let n = integer_or_0 E I m msg_seq_num in
      let t = record (keep_seq_no E I q m s) { seen_hb = true } in
      let g = keep_seq_no-Inv q m s h in
      both_ways Inv (eqb_ℤ q (pos 10023)) (notify admin (pos 1) m t)
        (if is_connected t.state
          then session_logon E I q m t
          else by_template E I q n m (keep_appl_msg_id E I m t))
        (λ e. g)
        (λ e.
          both_ways Inv (is_connected t.state) (session_logon E I q m t)
            (by_template E I q n m (keep_appl_msg_id E I m t)) (λ c. session_logon-Inv q m t c g)
            (λ c. by_template-Inv q n m (keep_appl_msg_id E I m t) (keep_appl_msg_id-Inv m t g)))

  abbrev ReadInv : Eti E.Msg × ℕ → Type 0
  ReadInv r = Inv r.0

  pub read-Inv :
      (b : List ℕ) (s : Eti E.Msg) → Inv s → Holds ReadInv (on_tcp_connection_read E I b s)
  unfolding on_tcp_connection_read
  read-Inv b s h =
      read_loop-keeps E (handle_tcp_msg E I) Inv handle_tcp_msg-Inv (suc (length b)) (length b)
        E.empty b s h
