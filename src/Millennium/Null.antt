-- ===== src/Millennium/Null.antt =====
-- The calls of src/millennium/gwcMillennium.cpp through the pointers of the two connections, as the handlers
-- of decoded messages make them. `reset` and the end of a recovery set the pointers to NULL, and the read
-- goes on.
use fosdk.Common.{◌≡◌, ◌==◌, Bool, true, false, ◌&&◌, not, [], ◌∷◌, arith, or_else, succ, pos}
use fosdk.Gwc.{uses_null, admin}
use fosdk.Gwc.Env.{Env, message_type, reject_code, app_id, last_msg_seq_num}
use fosdk.Millennium.{
  Millennium, SeqNum, Layout, Link, Partitions, is_absent, notify, send_recovery,
}
use fosdk.Millennium.Session.{reset, update_seqno, error}
use fosdk.Millennium.Receive.{
  Kind, logon_reply, logout, heartbeat, request_ack, report, reject, execution, order_cancel_reject,
  business_reject, unknown, kind_of, sequenced, handle_execution_msg,
  handle_order_cancel_reject_msg, handle_business_reject_msg, handle_reject_msg, open_recovery,
  real_time_logon, real_time_logout, real_time_kind, recovered, if_recovered, downloaded,
  request_missed, recovery_logon, recovery_kind, encoded, uint_64, handle_real_time_msg,
  handle_recovery_msg,
}

abbrev is_empty : Partitions → Bool
is_empty [] = true
is_empty (p ∷ ps) = false

module _ (E : Env SeqNum) (L : Layout E.Msg) where
  abbrev pub kind : E.Msg → Kind
  kind m = kind_of (or_else (E.get_string m message_type) "")

  -- The requests go out through the recovery connection.
  request_missed-uses_null :
      (m : E.Msg) (ps : Partitions) (s : Millennium E.Msg)
      → uses_null s.trace ≡ false
      → (is_absent s.recovery ≡ false → uses_null (request_missed E L m ps s).trace ≡ false)
  unfolding request_missed uses_null
  request_missed-uses_null m [] s h c = h
  request_missed-uses_null m ((p, n) ∷ ps) s h c =
      let r = E.set_integer (E.set_integer m app_id (pos p)) last_msg_seq_num (pos n) in
      let t = send_recovery (encoded E L r) s in
      request_missed-uses_null r ps (record t { waiting_downloads = succ t.waiting_downloads })
        (ground arith) c

  request_missed-stays :
      (m : E.Msg) (ps : Partitions) (s : Millennium E.Msg)
      → uses_null s.trace ≡ true
      → uses_null (request_missed E L m ps s).trace ≡ true
  unfolding request_missed uses_null
  request_missed-stays m [] s h = h
  request_missed-stays m ((p, n) ∷ ps) s h =
      let r = E.set_integer (E.set_integer m app_id (pos p)) last_msg_seq_num (pos n) in
      let t = send_recovery (encoded E L r) s in
      request_missed-stays r ps (record t { waiting_downloads = succ t.waiting_downloads })
        (ground arith)

  request_missed-null :
      (m : E.Msg) (ps : Partitions) (s : Millennium E.Msg)
      → uses_null s.trace ≡ false
      → uses_null (request_missed E L m ps s).trace ≡ (is_absent s.recovery && not (is_empty ps))
  unfolding request_missed uses_null
  request_missed-null m [] s h = ground arith
  request_missed-null m ((p, n) ∷ ps) s h =
      let r = E.set_integer (E.set_integer m app_id (pos p)) last_msg_seq_num (pos n) in
      let t = send_recovery (encoded E L r) s in
      let u = record t { waiting_downloads = succ t.waiting_downloads } in
      ground (arith, request_missed-uses_null r ps u, request_missed-stays r ps u)

  -- Whether a message on the real-time connection is handled by a call through a null pointer: a heartbeat
  -- is answered there, and a logon reply that accepts opens the recovery connection.
  abbrev pub real_time_kind_null : Kind → E.Msg → Link → Link → Bool
  real_time_kind_null heartbeat m r c = is_absent r
  real_time_kind_null logon_reply m r c = (uint_64 E L m reject_code == 0) && is_absent c
  real_time_kind_null _ m r c = false

  -- The same on the recovery connection, where a logon reply that accepts is followed by a request for each
  -- partition.
  abbrev recovery_kind_null : Kind → E.Msg → Millennium E.Msg → Bool
  recovery_kind_null heartbeat m s = is_absent s.recovery
  recovery_kind_null logon_reply m s =
      (uint_64 E L m reject_code == 0) && (is_absent s.recovery && not (is_empty s.cache_map))
  recovery_kind_null _ m s = false

  abbrev pub real_time_null : E.Msg → Millennium E.Msg → Bool
  real_time_null m s = real_time_kind_null (kind m) m s.real_time s.recovery

  abbrev pub recovery_null : E.Msg → Millennium E.Msg → Bool
  recovery_null m s = recovery_kind_null (kind m) m s

  real_time_kind_lem :
      (q : Kind) (m : E.Msg) (s : Millennium E.Msg)
      → uses_null s.trace ≡ false
      → uses_null (real_time_kind E L q m s).trace ≡ real_time_kind_null q m s.real_time s.recovery
  unfolding real_time_kind sequenced update_seqno uses_null handle_execution_msg
      handle_order_cancel_reject_msg handle_business_reject_msg handle_reject_msg real_time_logon
      real_time_logout open_recovery error reset
  real_time_kind_lem logon_reply m s h = ground arith
  real_time_kind_lem logout m s h = ground arith
  real_time_kind_lem heartbeat m s h = ground arith
  real_time_kind_lem execution m s h = h
  real_time_kind_lem order_cancel_reject m s h = h
  real_time_kind_lem business_reject m s h = h
  real_time_kind_lem request_ack m s h = h
  real_time_kind_lem report m s h = h
  real_time_kind_lem reject m s h = h
  real_time_kind_lem unknown m s h = h

  if_recovered-uses_null :
      (s : Millennium E.Msg) → uses_null (if_recovered E L s).trace ≡ uses_null s.trace
  unfolding if_recovered recovered uses_null
  if_recovered-uses_null s = ground arith

  recovery_logon-uses_null :
      (m : E.Msg) (s : Millennium E.Msg)
      → uses_null s.trace ≡ false
      → uses_null (recovery_logon E L m s).trace ≡ recovery_kind_null logon_reply m s
  unfolding recovery_logon error reset uses_null
  recovery_logon-uses_null m s h =
      let t = notify admin 0 m s in
      let first = E.set_string E.empty message_type "M" in
      ground (
        arith,
        if_recovered-uses_null (request_missed E L first t.cache_map t),
        request_missed-null first t.cache_map t,
      )

  recovery_kind_lem :
      (q : Kind) (m : E.Msg) (s : Millennium E.Msg)
      → uses_null s.trace ≡ false
      → uses_null (recovery_kind E L q m s).trace ≡ recovery_kind_null q m s
  unfolding recovery_kind sequenced update_seqno uses_null handle_execution_msg
      handle_order_cancel_reject_msg handle_business_reject_msg handle_reject_msg downloaded
      if_recovered recovered
  recovery_kind_lem logon_reply m s h = recovery_logon-uses_null m s h
  recovery_kind_lem heartbeat m s h = ground arith
  recovery_kind_lem request_ack m s h = ground arith
  recovery_kind_lem report m s h = ground arith
  recovery_kind_lem execution m s h = h
  recovery_kind_lem order_cancel_reject m s h = h
  recovery_kind_lem business_reject m s h = h
  recovery_kind_lem logout m s h = h
  recovery_kind_lem reject m s h = h
  recovery_kind_lem unknown m s h = h

  -- When a message is handled by a call through a null connection, if none was made before: on the real-time
  -- connection exactly for a heartbeat while that connection is gone, and for a logon reply that accepts
  -- while the recovery connection is gone; on the recovery connection exactly for a heartbeat, and for a
  -- logon reply that accepts while some partition is known, while the recovery connection is gone.
  pub null_exactly :
      (m : E.Msg) (s : Millennium E.Msg)
      → uses_null s.trace ≡ false
      → (uses_null (handle_real_time_msg E L m s).trace ≡ real_time_null m s)
        × (uses_null (handle_recovery_msg E L m s).trace ≡ recovery_null m s)
  unfolding handle_real_time_msg handle_recovery_msg
  null_exactly m s h = (
    real_time_kind_lem (kind m) m (record s { seen_hb = true }) h,
    recovery_kind_lem (kind m) m s h,
  )
