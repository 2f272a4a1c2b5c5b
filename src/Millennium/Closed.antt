-- ===== src/Millennium/Closed.antt =====
-- A Logout in a read of the real-time connection of src/millennium/gwcMillennium.cpp: it deletes the
-- connection, and the read goes on.
use fosdk.Common.{
  ℕ, suc, ◌-◌, ◌≡◌, ◌∙◌, ap, true, false, some, List, [], ◌∷◌, ◌++◌, arith, length, Bool-cases, inl,
  inr,
}
use fosdk.Gwc.{uses_null}
use fosdk.Gwc.Stream.{Finds, handle_all, read_loop-Finds, Finds-length}
use fosdk.Gwc.Env.{Env, IsCodec}
use fosdk.Millennium.{Millennium, SeqNum, Layout, is_absent}
use fosdk.Millennium.Session.{reset, update_seqno, error}
use fosdk.Millennium.Receive.{
  Kind, logon_reply, logout, heartbeat, request_ack, report, reject, execution, order_cancel_reject,
  business_reject, unknown, sequenced, handle_execution_msg, handle_order_cancel_reject_msg,
  handle_business_reject_msg, handle_reject_msg, open_recovery, real_time_logon, real_time_logout,
  real_time_kind, handle_real_time_msg,
}
use fosdk.Millennium.Raw.{on_real_time_connection_read}
use fosdk.Millennium.Null.{kind, real_time_kind_null, null_exactly}

module _ (E : Env SeqNum) (L : Layout E.Msg) where
  closed :
      (q : Kind) (m : E.Msg) (s : Millennium E.Msg)
      → q ≡ logout
      → is_absent (real_time_kind E L q m s).real_time ≡ true
  unfolding real_time_kind real_time_logout error reset
  closed logout m s e = ground arith
  closed _ m s e = absurd (cc)

  closed_null :
      (m h : E.Msg) (s : Millennium E.Msg)
      → kind E L m ≡ logout
      → kind E L h ≡ heartbeat
      → uses_null s.trace ≡ false
      → uses_null (handle_real_time_msg E L h (handle_real_time_msg E L m s)).trace ≡ true
  closed_null m h s e f n =
      let t = handle_real_time_msg E L m s in
      let quiet =
        (null_exactly E L m s n).0
        ∙ ap (λ q. real_time_kind_null E L q m s.real_time s.recovery) e in
      let gone : is_absent t.real_time ≡ true =
        unfold handle_real_time_msg in closed (kind E L m) m (record s { seen_hb = true }) e in
      (null_exactly E L h t quiet).0
      ∙ ap (λ q. real_time_kind_null E L q h t.real_time t.recovery) f
      ∙ gone

  -- A call that was made stays in the trace.
  real_time_kind-stays :
      (q : Kind) (m : E.Msg) (s : Millennium E.Msg)
      → uses_null s.trace ≡ true
      → uses_null (real_time_kind E L q m s).trace ≡ true
  unfolding real_time_kind sequenced update_seqno uses_null handle_execution_msg
      handle_order_cancel_reject_msg handle_business_reject_msg handle_reject_msg real_time_logon
      real_time_logout open_recovery error reset
  real_time_kind-stays logon_reply m s h = ground arith
  real_time_kind-stays logout m s h = ground arith
  real_time_kind-stays heartbeat m s h = ground arith
  real_time_kind-stays execution m s h = h
  real_time_kind-stays order_cancel_reject m s h = h
  real_time_kind-stays business_reject m s h = h
  real_time_kind-stays request_ack m s h = h
  real_time_kind-stays report m s h = h
  real_time_kind-stays reject m s h = h
  real_time_kind-stays unknown m s h = h

  handle_real_time_msg-stays :
      (m : E.Msg) (s : Millennium E.Msg)
      → uses_null s.trace ≡ true
      → uses_null (handle_real_time_msg E L m s).trace ≡ true
  unfolding handle_real_time_msg
  handle_real_time_msg-stays m s h =
      real_time_kind-stays (kind E L m) m (record s { seen_hb = true }) h

  handle_all-stays :
      (ms : List E.Msg) (s : Millennium E.Msg)
      → uses_null s.trace ≡ true
      → uses_null (handle_all E (handle_real_time_msg E L) ms s).trace ≡ true
  unfolding handle_all
  handle_all-stays [] s h = h
  handle_all-stays (m ∷ ms) s h =
      handle_all-stays ms (handle_real_time_msg E L m s) (handle_real_time_msg-stays m s h)

  closed_all :
      (before after : List E.Msg) (m h : E.Msg) (s : Millennium E.Msg)
      → kind E L m ≡ logout
      → kind E L h ≡ heartbeat
      → uses_null (handle_all E (handle_real_time_msg E L) (before ++ (m ∷ (h ∷ after))) s).trace
        ≡ true
  unfolding handle_all
  closed_all (x ∷ before) after m h s e f =
      closed_all before after m h (handle_real_time_msg E L x s) e f
  closed_all [] after m h s e f =
      let t = handle_real_time_msg E L m s in
      handle_all-stays after (handle_real_time_msg E L h t) (elim (Bool-cases (uses_null s.trace)) [
        | inl used ↦ handle_real_time_msg-stays h t (handle_real_time_msg-stays m s used)
        | inr quiet ↦ closed_null m h s e f quiet
      ])

  -- A Logout on the real-time connection, whether or not it was waited for, takes the connection away, and
  -- the read goes on: where the codec finds a heartbeat right after it in the same bytes, the read, with raw
  -- messages off, ends having called through a null pointer, whatever comes before the two and after.
  pub heartbeat_after_close :
      IsCodec E
      → (before after : List E.Msg) (m h : E.Msg) (b : List ℕ) (n : ℕ) (s : Millennium E.Msg)
      → s.raw_enabled ≡ false
      → kind E L m ≡ logout
      → kind E L h ≡ heartbeat
      → Finds E (handle_real_time_msg E L) E.empty b (before ++ (m ∷ (h ∷ after))) n
      → (t : Millennium E.Msg) × (on_real_time_connection_read E L b s ≡ some (t, length b - n))
        × (uses_null t.trace ≡ true)
  unfolding on_real_time_connection_read
  heartbeat_after_close c before after m h b n s raw e f found =
      let ms = before ++ (m ∷ (h ∷ after)) in
      let handle = handle_real_time_msg E L in
      let fits = Finds-length E handle c found in
      (
        handle_all E handle ms s,
        simp raw
            (read_loop-Finds E handle (suc (length b)) (length b) s found (omega (arith, fits))),
        closed_all before after m h s e f,
      )
