-- ===== src/Eti/Session.antt =====
-- src/eti/gwcEti.cpp: updateApplMsgId, updateSeqNo, reset, error, sendMsg, sendRaw, sendRetransRequest
-- and the sends that set a template.
use fosdk.Common.{
  ℕ, ◌+◌, ◌-◌, ◌%◌, ◌^◌, Bool, true, false, String, Option, none, some, List, [], ◌∷◌, ℤ, pos,
  eqb_ℤ, if◌then◌else◌, or_else,
}
use fosdk.Gwc.{cached, on_error, reset_connector, is_ready}
use fosdk.Gwc.Env.{
  Env, template_id, msg_seq_num, subscription_scope, partition_id, ref_appl_id, appl_beg_msg_id,
  username, password,
}
use fosdk.Gwc.Keyed.{Keyed, update}
use fosdk.Eti.{Eti, Item, Ids, seq_no_item, appl_msg_id_item, emit, transmit}

-- `++` and `--` on a uint64_t.
unfoldable pub next_seq_no : ℕ → ℕ
next_seq_no n = (n + 1) % 2 ^ 64

unfoldable pub previous_seq_no : ℕ → ℕ
previous_seq_no n = (n + (2 ^ 64 - 1)) % 2 ^ 64

unfoldable pub reset : {Msg : Type 0} → Eti Msg → Eti Msg
reset s = record s {
  base = reset_connector s.base;
  seq_no = 1;
  connection = false;
  hb = false;
  seen_hb = false;
  missed_hb = 0;
  reconnect_timer = false;
}

-- The partition's item is written, or added if there is none.
unfoldable pub update_appl_msg_id : {Msg : Type 0} → ℕ → List ℕ → Eti Msg → Eti Msg
update_appl_msg_id part_id msg_id s =
    emit (cached (appl_msg_id_item part_id msg_id))
      (record s { cache_map = update part_id msg_id s.cache_map })

-- The item is added if there is none.
unfoldable pub update_seq_no : {Msg : Type 0} → ℕ → Eti Msg → Eti Msg
update_seq_no seqno s =
    emit (cached (seq_no_item seqno)) (record s { seq_no = seqno; cache_item = true })

-- The message after a send, which a send that is refused for the state leaves as it is, and the result.
pub record Sending (Msg : Type 0) : Type 0 where
  pub msg : Msg
  pub state : Eti Msg
  pub success : Bool

module _ (E : Env Item) where
  -- The client's answer decides whether the reconnect timer is started.
  unfoldable pub error : String → Eti E.Msg → Eti E.Msg
  unfolding reset
  error err s =
      let t = emit (on_error err) (reset s) in
      if E.reconnects t.trace err then record t { reconnect_timer = true } else t

  unfoldable pub is_hb : E.Msg → Bool
  is_hb msg = eqb_ℤ (or_else (E.get_integer msg template_id) E.uninitialised) (pos 10011)

  -- The message has its number set, encoded or not; the counter goes back where it is not.
  unfoldable pub send : E.Msg → Eti E.Msg → Sending E.Msg
  unfolding next_seq_no previous_seq_no is_hb
  send msg s =
      let hb = is_hb msg in
      let n = if hb then s.seq_no else next_seq_no s.seq_no in
      let m = E.set_integer msg msg_seq_num (pos n) in
      if is_ready s.state
      then elim (E.encode m) [
        | none ↦ record {
          msg = m;
          state = record s { seq_no = if hb then n else previous_seq_no n };
          success = false;
        }
        | some bytes ↦ record {
          msg = m;
          state = transmit bytes (record s { seq_no = n });
          success = true;
        }
      ]
      else record { msg = msg; state = s; success = false }

  unfoldable pub send_msg : E.Msg → Eti E.Msg → Eti E.Msg × Bool
  unfolding send
  send_msg msg s = let r = send msg s in (r.state, r.success)

  unfoldable pub send_raw : List ℕ → Eti E.Msg → Eti E.Msg × Bool
  send_raw bytes s =
      if s.raw_enabled
      then (if is_ready s.state then (transmit bytes s, true) else (s, false))
      else (s, false)

  -- The fields that the loop sets into the message of the round before.
  unfoldable pub retrans_fields : Ids → Bool → ℕ → List ℕ → E.Msg → E.Msg
  retrans_fields I item part_id msg_id m =
      let m1 = E.set_integer (E.set_integer m template_id (pos 10026)) subscription_scope (pos 0) in
      let m2 = E.set_integer (E.set_integer m1 partition_id (pos part_id)) ref_appl_id (pos 4) in
      if item then E.set_string m2 appl_beg_msg_id (I.text_of msg_id) else m2

  unfoldable pub retrans_requests : Ids → E.Msg → Keyed (List ℕ) → Eti E.Msg → Eti E.Msg
  unfolding send retrans_fields
  retrans_requests I m [] s = s
  retrans_requests I m ((part_id, msg_id) ∷ rest) s =
      let r = send (retrans_fields I s.cache_item part_id msg_id m) s in
      retrans_requests I r.msg rest r.state

  unfoldable pub send_retrans_request : Ids → Eti E.Msg → Eti E.Msg
  unfolding retrans_requests
  send_retrans_request I s = retrans_requests I E.empty s.cache_map s

  unfoldable pub send_order : E.Msg → Eti E.Msg → Eti E.Msg × Bool
  unfolding send_msg
  send_order order s = send_msg (E.set_integer order template_id (pos 10100)) s

  unfoldable pub send_cancel : E.Msg → Eti E.Msg → Eti E.Msg × Bool
  unfolding send_msg
  send_cancel cancel s = send_msg (E.set_integer cancel template_id (pos 10109)) s

  -- No template is set.
  unfoldable pub send_modify : E.Msg → Eti E.Msg → Eti E.Msg × Bool
  unfolding send_msg
  send_modify modify s = send_msg modify s

  -- Both have to be there.
  unfoldable pub logon_with : Option ℤ → Option String → Eti E.Msg → Eti E.Msg × Bool
  unfolding send_msg
  logon_with (some usr) (some pass) s =
      let m = E.set_integer (E.set_integer E.empty template_id (pos 10018)) username usr in
      send_msg (E.set_string m password pass) s
  logon_with _ _ s = (s, false)

  -- The argument may be NULL.
  unfoldable pub trader_logon : Option E.Msg → Eti E.Msg → Eti E.Msg × Bool
  unfolding logon_with
  trader_logon none s = (s, false)
  trader_logon (some msg) s = logon_with (E.get_integer msg username) (E.get_string msg password) s
