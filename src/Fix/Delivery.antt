-- ===== src/Fix/Delivery.antt =====
-- In which order src/fix/gwcFix.cpp hands messages to the client: `handleTcpMsg` delivers only the
-- number that it expects, and then expects the next.
use fosdk.Common.{
  ℕ, suc, ◌≡◌, ◌≢◌, refl, inl, inr, Bool, true, false, String, List, [], ◌∷◌, ℤ, arith, succ, ◌<ℤ◌,
  lt-succ, Bool-cases, ltb_ℤ, Option, none, some, or_else, zero, take, drop, length, All,
  if◌then◌else◌, ◌==◌, str_eq,
}
use fosdk.Gwc.{init, ready}
use fosdk.Gwc.Env.{Env, success, msg_type, msg_seq_num}
use fosdk.Fix.{Fix, Seqnums, locked, unlocked, in_state, sequence_reset}
use fosdk.Fix.Session.{reset, error, send_msg}
use fosdk.Fix.Receive.{
  Outcome, return, go_on, accept_logon, logon_reset, logged_on, check_logon, handler_of, resend,
  too_low, dispatch, sequence, after_logon, handle_tcp_msg, record_inbound, read_loop,
  on_tcp_connection_read,
}
use fosdk.Fix.Hearing.{
  delivered, Hears, IsOrdered, error-IsQuiet, send_msg-IsQuiet, call-Hears, IsQuiet-IsOrdered,
  Below-succ,
}

module _ (E : Env Seqnums) where
  accepted-IsOrdered :
      (n : ℤ) (s u t : Fix E.Msg)
      → n ≡ s.seqnums.inbound
      → u.seqnums.inbound ≡ succ n
      → delivered u.trace ≡ delivered s.trace
      → Hears n u t
      → IsOrdered s
      → IsOrdered t
  accepted-IsOrdered n s u t e i d h o = elim h.heard [
    | inl same ↦ rw (h.inbound_same, i, same, d, e) (Below-succ _ _ o)
    | inr next ↦ rw (h.inbound_same, i, next, d) (lt-succ n, rw e o)
  ]

  neither_lt : (a b : ℤ) → ltb_ℤ a b ≡ false → ltb_ℤ b a ≡ false → b ≡ a
  neither_lt a b h k = ground arith

  -- A message with the expected number moves it on by one; every other is not delivered.
  sequence-IsOrdered :
      (t : String) (n : ℤ) (m : E.Msg) (s : Fix E.Msg)
      → IsOrdered s
      → IsOrdered (sequence E t n m s)
  unfolding sequence delivered dispatch
  sequence-IsOrdered t n m s o = elim (Bool-cases (ltb_ℤ s.seqnums.inbound n)) [
    | inl above ↦
        rw (above, sequence)
          (IsQuiet-IsOrdered _ _
            (send_msg-IsQuiet E (resend E s.seqnums.inbound) (unlocked (locked s))) o)
    | inr not_above ↦ elim (Bool-cases (ltb_ℤ n s.seqnums.inbound)) [
      | inl below ↦
          rw (not_above, below, sequence)
            (IsQuiet-IsOrdered _ _ (error-IsQuiet E (too_low E s.seqnums.inbound) (locked s)) o)
      | inr not_below ↦
          rw (not_above, not_below, sequence)
            (accepted-IsOrdered n s _ _ (neither_lt _ _ not_above not_below) refl refl
              (call-Hears E (handler_of t) n m _) o)
    ]
  ]

  -- ResetSeqNumFlag is not set on a logon, and the message is no SequenceReset.
  abbrev pub KeepsNumbers : E.Msg → Type 0
  KeepsNumbers m =
      (str_eq (or_else (E.get_string m msg_type) "") sequence_reset ≡ false)
      × (logon_reset E m ≢ some true)

  abbrev IsOrderedOutcome : Outcome E → Type 0
  IsOrderedOutcome (return s) = IsOrdered s
  IsOrderedOutcome (go_on s) = IsOrdered s

  logged_on-IsOrdered :
      (r : Option Bool) (n : ℤ) (m : E.Msg) (s : Fix E.Msg)
      → r ≢ some true
      → IsOrdered s
      → IsOrderedOutcome (logged_on E r n m s)
  unfolding logged_on delivered
  logged_on-IsOrdered none n m s h o =
      IsQuiet-IsOrdered s _ (error-IsQuiet E "invalid logon msg" s) o
  logged_on-IsOrdered (some true) n m s h o = absurd (h refl)
  logged_on-IsOrdered (some false) n m s h o = o

  check_logon-IsOrdered :
      (t : String) (n : ℤ) (m : E.Msg) (s : Fix E.Msg)
      → logon_reset E m ≢ some true
      → IsOrdered s
      → IsOrderedOutcome (check_logon E t n m s)
  unfolding check_logon accept_logon
  check_logon-IsOrdered t n m s h o =
      let accepted =
        logged_on-IsOrdered (logon_reset E m) n m (record (in_state ready s) { hb = true }) h o in
      let rejected = IsQuiet-IsOrdered s _ (error-IsQuiet E "logon rejected" s) o in
      let invalid = IsQuiet-IsOrdered s _ (error-IsQuiet E "invalid response after logon" s) o in
      ground (arith, accepted, rejected, invalid)

  after_logon-IsOrdered :
      (t : String) (n : ℤ) (m : E.Msg) (r : Outcome E)
      → str_eq t sequence_reset ≡ false
      → IsOrderedOutcome r
      → IsOrdered (after_logon E t n m r)
  unfolding after_logon
  after_logon-IsOrdered t n m (return s) h o = o
  after_logon-IsOrdered t n m (go_on s) h o = rw h (sequence-IsOrdered t n m s o)

  handle_tcp_msg-IsOrdered :
      (m : E.Msg) (s : Fix E.Msg) → KeepsNumbers m → IsOrdered s → IsOrdered (handle_tcp_msg E m s)
  unfolding handle_tcp_msg
  handle_tcp_msg-IsOrdered m s k o =
      after_logon-IsOrdered _ _ m _ k.0
        (check_logon-IsOrdered _ _ m (record s { seen_hb = true }) k.1 o)

  record_inbound-IsOrdered :
      (b : List ℕ) (s : Fix E.Msg) → IsOrdered s → IsOrdered (record_inbound E b s)
  unfolding record_inbound delivered
  record_inbound-IsOrdered b s o = ground arith

  -- The messages that the loop takes from the bytes.
  unfoldable pub decoded : ℕ → List ℕ → List E.Msg
  decoded zero b = []
  decoded (suc f) b =
      let r = E.decode E.empty b in
      let rest = decoded f (drop r.used b) in
      if length b == 0 then [] else elim r.status [ success ↦ r.msg ∷ rest | _ ↦ [] ]

  read_loop-IsOrdered :
      (f : ℕ) (b : List ℕ) (s : Fix E.Msg)
      → All KeepsNumbers (decoded f b)
      → IsOrdered s
      → IsOrdered (read_loop E f b s).0
  unfolding read_loop decoded
  read_loop-IsOrdered zero b s k o = o
  read_loop-IsOrdered (suc f) b s k o =
      let r = E.decode E.empty b in
      let t = record_inbound E (take r.used b) s in
      let o' = record_inbound-IsOrdered (take r.used b) s o in
      ground (
        arith,
        λ (q : KeepsNumbers r.msg). handle_tcp_msg-IsOrdered r.msg t q o',
        read_loop-IsOrdered f (drop r.used b) (handle_tcp_msg E r.msg t),
      )

  -- If no message decoded from the bytes is a SequenceReset or has a ResetSeqNumFlag that parses to
  -- true, reading from the connection keeps the delivered sequence numbers strictly falling from the
  -- newest on, all of them under the expected number: the client sees each number once, in rising
  -- order.
  pub on_tcp_connection_read-IsOrdered :
      (b : List ℕ) (s : Fix E.Msg)
      → All KeepsNumbers (decoded (length b) b)
      → IsOrdered s
      → IsOrdered (on_tcp_connection_read E b s).0
  unfolding on_tcp_connection_read
  on_tcp_connection_read-IsOrdered b s k o = read_loop-IsOrdered (length b) b s k o

  -- What `handleTcpMsg` does with a message whose number is not the expected one, once logged on:
  -- above it, nothing is delivered, the expected number stays, and the answer is what sending a
  -- ResendRequest from the expected number on gives; below it, the session is closed by `error`.
  pub handle_tcp_msg-out_of_order :
      (m : E.Msg) (s : Fix E.Msg)
      → s.state ≡ ready
      → str_eq (or_else (E.get_string m msg_type) "") sequence_reset ≡ false
      → let n = or_else (E.get_integer m msg_seq_num) E.uninitialised in
        let t = handle_tcp_msg E m s in
        (s.seqnums.inbound <ℤ n
          → (delivered t.trace ≡ delivered s.trace)
            × (t.seqnums.inbound ≡ s.seqnums.inbound)
            × (t
                ≡ (send_msg E
                    (resend E s.seqnums.inbound)
                    (unlocked (locked (record s { seen_hb = true })))).0))
        × (n <ℤ s.seqnums.inbound
            → (delivered t.trace ≡ delivered s.trace)
              × (t.state ≡ init)
              × (t.connection ≡ false)
              × (t.seqnums.inbound ≡ s.seqnums.inbound))
  unfolding handle_tcp_msg sequence check_logon error reset delivered
  handle_tcp_msg-out_of_order m s r k = ground (
    arith,
    send_msg-IsQuiet E (resend E s.seqnums.inbound)
        (unlocked (locked (record s { seen_hb = true }))),
  )
