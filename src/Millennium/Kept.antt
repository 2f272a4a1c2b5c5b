-- ===== src/Millennium/Kept.antt =====
-- The sequence numbers that src/millennium/gwcMillennium.cpp keeps: those in memory are those in the cache
-- file, partition by partition, whatever comes.
use fosdk.Common.{
  ℕ, ◌^◌, ◌≡◌, refl, both_ways, true, String, Option, some, List, [], ◌∷◌, pos, arith, ◌==◌,
  if◌then◌else◌, succ, pred, unsigned,
}
use fosdk.Gwc.{Agrees, Effect, Callback, cached, admin, other, cancel_rejected, sent, sent_recovery}
use fosdk.Gwc.Env.{
  Env, app_id, last_msg_seq_num, sequence_no, exec_type, response_type, reject_code, message_type,
}
use fosdk.Millennium.{Millennium, SeqNum, Layout, Link, emit, notify, through, send_recovery}
use fosdk.Millennium.{Partitions}
use fosdk.Gwc.Keyed.{lookup, lookup-update}
use fosdk.Millennium.Session.{reset, update_seqno, error, send_msg}
use fosdk.Millennium.Receive.{
  Kind, logon_reply, logout, heartbeat, request_ack, report, reject, execution, order_cancel_reject,
  business_reject, unknown, sequenced, handle_execution_msg, handle_order_cancel_reject_msg,
  handle_business_reject_msg, handle_reject_msg, open_recovery, real_time_logon, real_time_logout,
  real_time_kind, recovered, if_recovered, downloaded, request_missed, recovery_logon,
  recovery_kind, encoded, uint_64, exec_callback, heartbeat_msg, logon_failed,
}
use fosdk.Millennium.Raw.{application_frame, get_seqnum}
use fosdk.Common.{or_else}
use fosdk.Millennium.Receive.{kind_of, handle_real_time_msg, handle_recovery_msg}

-- The number that the cache file holds for a partition after a trace, if it held `c` before.
unfoldable pub stored : {Msg : Type 0} → (ℕ → Option ℕ) → List (Effect Msg SeqNum) → ℕ → Option ℕ
stored c [] k = c k
stored c (cached n ∷ es) k = if n.partition == k then some n.seqno else stored c es k
stored c (_ ∷ es) k = stored c es k

module _ (E : Env SeqNum) (L : Layout E.Msg) (c : ℕ → Option ℕ) (k : ℕ) where
  abbrev pub Kept : Millennium E.Msg → Type 0
  Kept s = (stored c s.trace k ≡ lookup k s.cache_map) × Agrees s.base

  update_seqno-Kept : (p n : ℕ) (s : Millennium E.Msg) → Kept s → Kept (update_seqno p n s)
  unfolding update_seqno stored
  update_seqno-Kept p n s h = ground (arith, lookup-update p k n s.cache_map)

  -- A call through a pointer keeps no number.
  through-Kept :
      (l : Link) (e : Effect E.Msg SeqNum) (s : Millennium E.Msg)
      → stored c (e ∷ s.trace) k ≡ stored c s.trace k
      → Kept s
      → Kept (emit (through l e) s)
  unfolding stored
  through-Kept l e s q h = ground arith

  pub error-Kept : (t : String) (s : Millennium E.Msg) → Kept s → Kept (error E t s)
  unfolding error reset stored
  error-Kept t s h = ground arith

  pub send_msg-Kept : (m : E.Msg) (s : Millennium E.Msg) → Kept s → Kept (send_msg E m s).0
  unfolding send_msg stored
  send_msg-Kept m s h = ground arith

  notify-Kept :
      (q : Callback) (n : ℕ) (m : E.Msg) (s : Millennium E.Msg) → Kept s → Kept (notify q n m s)
  unfolding stored
  notify-Kept q n m s h = h

  sequenced-Kept :
      (q : Callback) (m : E.Msg) (s : Millennium E.Msg) → Kept s → Kept (sequenced E L q m s)
  unfolding sequenced update_seqno stored
  sequenced-Kept q m s h = update_seqno-Kept (uint_64 E L m app_id) (uint_64 E L m sequence_no) s h

  real_time_logon-Kept :
      (m : E.Msg) (s : Millennium E.Msg) → Kept s → Kept (real_time_logon E L m s)
  unfolding real_time_logon open_recovery error reset stored
  real_time_logon-Kept m s h = ground arith

  real_time_logout-Kept :
      (m : E.Msg) (s : Millennium E.Msg) → Kept s → Kept (real_time_logout E L m s)
  unfolding real_time_logout error reset stored
  real_time_logout-Kept m s h = ground arith

  real_time_kind-Kept :
      (q : Kind) (m : E.Msg) (s : Millennium E.Msg) → Kept s → Kept (real_time_kind E L q m s)
  unfolding real_time_kind stored handle_execution_msg handle_order_cancel_reject_msg
      handle_business_reject_msg handle_reject_msg
  real_time_kind-Kept logon_reply m s h = real_time_logon-Kept m s h
  real_time_kind-Kept logout m s h = real_time_logout-Kept m s h
  real_time_kind-Kept heartbeat m s h =
      through-Kept s.real_time (sent (encoded E L (heartbeat_msg E L))) (notify admin 0 m s) refl h
  real_time_kind-Kept execution m s h =
      sequenced-Kept (exec_callback (uint_64 E L m exec_type)) m s h
  real_time_kind-Kept order_cancel_reject m s h = sequenced-Kept cancel_rejected m s h
  real_time_kind-Kept business_reject m s h = sequenced-Kept other m s h
  real_time_kind-Kept request_ack m s h = h
  real_time_kind-Kept report m s h = h
  real_time_kind-Kept reject m s h = h
  real_time_kind-Kept unknown m s h = h

  if_recovered-Kept : (s : Millennium E.Msg) → Kept s → Kept (if_recovered E L s)
  unfolding if_recovered recovered stored
  if_recovered-Kept s h = ground arith

  request_missed-Kept :
      (ps : Partitions) (m : E.Msg) (s : Millennium E.Msg)
      → Kept s
      → Kept (request_missed E L m ps s)
  unfolding request_missed stored
  request_missed-Kept [] m s h = h
  request_missed-Kept ((p, n) ∷ ps) m s h =
      let r = E.set_integer (E.set_integer m app_id (pos p)) last_msg_seq_num (pos n) in
      let t = send_recovery (encoded E L r) s in
      request_missed-Kept ps r (record t { waiting_downloads = succ t.waiting_downloads })
        (through-Kept s.recovery (sent_recovery (encoded E L r)) s refl h)

  recovery_logon-Kept : (m : E.Msg) (s : Millennium E.Msg) → Kept s → Kept (recovery_logon E L m s)
  unfolding recovery_logon stored
  recovery_logon-Kept m s h =
      let t = notify admin 0 m s in
      let requests = request_missed E L (E.set_string E.empty message_type "M") t.cache_map t in
      let code = uint_64 E L m reject_code in
      let why = logon_failed E L "recovery logon failed code [" code in
      both_ways Kept (code == 0) (if_recovered E L requests) (error E why t)
        (λ e.
          if_recovered-Kept requests
            (request_missed-Kept s.cache_map (E.set_string E.empty message_type "M") t h))
        (λ e. error-Kept why t h)

  downloaded-Kept : (s : Millennium E.Msg) → Kept s → Kept (downloaded E L s)
  unfolding downloaded stored
  downloaded-Kept s h =
      if_recovered-Kept (record s { waiting_downloads = pred s.waiting_downloads }) h

  recovery_kind-Kept :
      (q : Kind) (m : E.Msg) (s : Millennium E.Msg) → Kept s → Kept (recovery_kind E L q m s)
  unfolding recovery_kind stored handle_execution_msg handle_order_cancel_reject_msg
      handle_business_reject_msg handle_reject_msg
  recovery_kind-Kept logon_reply m s h = recovery_logon-Kept m s h
  recovery_kind-Kept heartbeat m s h =
      through-Kept s.recovery (sent_recovery (encoded E L (heartbeat_msg E L))) (notify admin 0 m s)
        refl h
  recovery_kind-Kept request_ack m s h =
      let t = notify admin 0 m s in
      both_ways Kept (uint_64 E L m response_type == 0) t (downloaded E L t) (λ e. h)
        (λ e. downloaded-Kept t h)
  recovery_kind-Kept report m s h = downloaded-Kept (notify admin 0 m s) h
  recovery_kind-Kept execution m s h =
      sequenced-Kept (exec_callback (uint_64 E L m exec_type)) m s h
  recovery_kind-Kept order_cancel_reject m s h = sequenced-Kept cancel_rejected m s h
  recovery_kind-Kept business_reject m s h = sequenced-Kept other m s h
  recovery_kind-Kept logout m s h = h
  recovery_kind-Kept reject m s h = h
  recovery_kind-Kept unknown m s h = h

  pub application_frame-Kept :
      (b : List ℕ) (s : Millennium E.Msg) → Kept s → Kept (application_frame E L b s)
  unfolding application_frame stored
  application_frame-Kept b s h = ground (
    arith,
    update_seqno-Kept (L.app_id (L.message_type b) b) (unsigned (2 ^ 64) (get_seqnum E L b)) s,
  )

  pub real_time_msg-Kept :
      (m : E.Msg) (s : Millennium E.Msg) → Kept s → Kept (handle_real_time_msg E L m s)
  unfolding handle_real_time_msg
  real_time_msg-Kept m s h =
      real_time_kind-Kept (kind_of (or_else (E.get_string m message_type) "")) m
        (record s { seen_hb = true }) h

  pub recovery_msg-Kept :
      (m : E.Msg) (s : Millennium E.Msg) → Kept s → Kept (handle_recovery_msg E L m s)
  unfolding handle_recovery_msg
  recovery_msg-Kept m s h =
      recovery_kind-Kept (kind_of (or_else (E.get_string m message_type) "")) m s h
