-- ===== src/Fix/Outbound.antt =====
-- What src/fix/gwcFix.cpp puts on the wire: the header that setHeader writes, the numbering by
-- sendMsg, and the types of the messages that the connector makes.
use fosdk.Common.{
  ℕ, ◌≡◌, ◌∙◌, Bool, true, false, String, List, [], ◌∷◌, ◌⊎◌, inl, inr, ℤ, arith, succ, Option,
  none, some, Bool-cases, Option-cases,
}
use fosdk.Gwc.{Effect, admin, sent, cached, is_ready}
use fosdk.Gwc.Env.{Env, Field, IsCdr}
use fosdk.Fix.{
  Fix, Seqnums, new_order_single, order_cancel_request, order_cancel_replace_request, test_request,
  notify,
}
use fosdk.Fix.Session.{set_header, send_msg, stamp, send_order, send_cancel, send_modify}
use fosdk.Fix.Handlers.{handle_test_request_msg}

-- What was sent, newest first.
unfoldable pub wire : {Msg : Type 0} → List (Effect Msg Seqnums) → List (List ℕ)
wire [] = []
wire (sent b ∷ es) = b ∷ wire es
wire (_ ∷ es) = wire es

-- The numbers that were last written to the cache file.
unfoldable pub stored : {Msg : Type 0} → List (Effect Msg Seqnums) → Option Seqnums
stored [] = none
stored (cached n ∷ es) = some n
stored (_ ∷ es) = stored es

module _ (E : Env Seqnums) (laws : IsCdr E.cdr) where
  -- The header numbers the message and leaves its type.
  set_header_fields :
      (s : Fix E.Msg) (m : E.Msg)
      → (E.get_integer (set_header E s m) Field.msg_seq_num ≡ some s.seqnums.outbound)
        × (E.get_string (set_header E s m) Field.msg_type ≡ E.get_string m Field.msg_type)
  unfolding set_header
  set_header_fields s m = (
    laws.get_integer-set_date_time_ne _ _ _ _ (λ e. cc) ∙ laws.get_integer-set_integer_self _ _ _,
    laws.get_string-set_date_time_ne _ _ _ _ (λ e. cc)
        ∙ laws.get_string-set_integer_ne _ _ _ _ (λ e. cc)
        ∙ laws.get_string-set_string_ne _ _ _ _ (λ e. cc)
        ∙ laws.get_string-set_string_ne _ _ _ _ (λ e. cc)
        ∙ laws.get_string-set_string_ne _ _ _ _ (λ e. cc),
  )

  -- TransactTime leaves the type of the message.
  stamp_type :
      (s : Fix E.Msg) (m : E.Msg) (t : String)
      → E.get_string (stamp E s (E.set_string m Field.msg_type t)) Field.msg_type ≡ some t
  unfolding stamp
  stamp_type s m t = ground (
    arith,
    laws.get_string-set_string_self m Field.msg_type t,
    laws.get_string-set_date_time_ne (E.set_string m Field.msg_type t) Field.transact_time
        Field.msg_type (E.now s.trace) (λ e. cc),
  )

  -- One message, of type `t` and with the outbound number, went out; the next number is used after
  -- it, and is in the cache file.
  abbrev pub Sends : Option String → Fix E.Msg → Fix E.Msg → Type 0
  Sends t s u =
      (m' : E.Msg) × (bytes : List ℕ) × (E.get_string m' Field.msg_type ≡ t)
      × (E.get_integer m' Field.msg_seq_num ≡ some s.seqnums.outbound)
      × (E.encode m' ≡ some bytes)
      × (wire u.trace ≡ bytes ∷ wire s.trace)
      × (u.seqnums.outbound ≡ succ s.seqnums.outbound)
      × (stored u.trace ≡ some u.seqnums)

  -- Nothing went out, and no number was used.
  abbrev pub SendsNothing : Fix E.Msg → Fix E.Msg → Type 0
  SendsNothing s u = (wire u.trace ≡ wire s.trace) × (u.seqnums ≡ s.seqnums)

  -- `sendMsg` sends exactly one message, under the next outbound number, if it returns true; if
  -- it returns false it sends none and uses no number, and that is when the connector is not ready or the
  -- codec refuses the message.
  pub send_msg_wire :
      (m : E.Msg) (s : Fix E.Msg)
      → let r = send_msg E m s in
        ((r.1 ≡ true) × (is_ready s.state ≡ true) × Sends (E.get_string m Field.msg_type) s r.0)
        ⊎ ((r.1 ≡ false)
            × ((is_ready s.state ≡ false) ⊎ (E.encode (set_header E s m) ≡ none))
            × SendsNothing s r.0)
  unfolding send_msg wire stored
  send_msg_wire m s = elim (Bool-cases (is_ready s.state)) [
    | inr down ↦ inr (ground arith, inl down, (ground arith, ground arith))
    | inl up ↦ elim (Option-cases (E.encode (set_header E s m))) [
      | inl refused ↦ inr (ground arith, inr refused, (ground arith, ground arith))
      | inr (bytes, e) ↦
          let (number, type) = set_header_fields s m in
          inl (
            ground arith,
            up,
            (set_header E s m, bytes, type, number, e, ground arith, ground arith, ground arith),
          )
    ]
  ]

  -- A call sent the message `d` as one of type `t` and returned true; or it sent nothing, used no number
  -- and returned false, and the session was not ready or the codec refused the message.
  abbrev pub SendsOrRefuses : String → E.Msg → Fix E.Msg → Fix E.Msg × Bool → Type 0
  SendsOrRefuses t d s r =
      ((r.1 ≡ true) × (is_ready s.state ≡ true) × Sends (some t) s r.0)
      ⊎ ((r.1 ≡ false)
          × ((is_ready s.state ≡ false) ⊎ (E.encode (set_header E s d) ≡ none))
          × SendsNothing s r.0)

  send_msg-typed :
      (d : E.Msg) (s : Fix E.Msg) (t : String)
      → E.get_string d Field.msg_type ≡ some t
      → SendsOrRefuses t d s (send_msg E d s)
  send_msg-typed d s t h = elim (send_msg_wire d s) [
    | inl (done, up, w) ↦ inl (done, up, rw h at w)
    | inr failed ↦ inr failed
  ]

  -- The caller's message with a type and, where it had none, a TransactTime.
  abbrev pub typed : String → E.Msg → Fix E.Msg → E.Msg
  typed t m s = stamp E s (E.set_string m Field.msg_type t)

  -- An order, a cancel or a modify goes out as one message with MsgType D, F or G and the next outbound
  -- number, whatever type the caller's message had, and the result is true; or nothing goes out, no number
  -- is used, and the result is false, and that is when the session is not ready or the codec refuses the
  -- message.
  pub send_order_wire :
      (m : E.Msg) (s : Fix E.Msg)
      → SendsOrRefuses new_order_single (typed new_order_single m s) s (send_order E m s)
        × SendsOrRefuses order_cancel_request (typed order_cancel_request m s) s (send_cancel E m s)
        × SendsOrRefuses order_cancel_replace_request
            (typed order_cancel_replace_request m s)
            s
            (send_modify E m s)
  unfolding send_order send_cancel send_modify
  send_order_wire m s = (
    send_msg-typed _ s _ (stamp_type s m new_order_single),
    send_msg-typed _ s _ (stamp_type s m order_cancel_request),
    send_msg-typed _ s _ (stamp_type s m order_cancel_replace_request),
  )

  -- The answer to a TestRequest is another TestRequest (MsgType 1), with the next outbound number, if
  -- it carries a TestReqID and a message is sent at all; without a TestReqID there is no answer.
  pub handle_test_request_msg_answer :
      (n : ℤ) (m : E.Msg) (s : Fix E.Msg)
      → let u = handle_test_request_msg E n m s in
        (E.get_string m Field.test_req_id ≡ none → SendsNothing s u)
        × ((id : String)
            → E.get_string m Field.test_req_id ≡ some id
            → SendsNothing s u ⊎ Sends (some test_request) s u)
  unfolding handle_test_request_msg wire stored
  handle_test_request_msg_answer n m s = (
    λ e. (ground arith, ground arith),
    λ id e. elim (send_msg_wire (reply id) (notify admin n m s)) [
      | inl (_, _, w) ↦ rw (e, handle_test_request_msg) (inr (rw (type id) at w))
      | inr (_, _, w) ↦ rw (e, handle_test_request_msg) (inl w)
    ],
  )
    where
      reply : String → E.Msg
      reply id =
          E.set_string (E.set_string E.empty Field.msg_type test_request) Field.test_req_id id

      type : (id : String) → E.get_string (reply id) Field.msg_type ≡ some test_request
      type id =
          laws.get_string-set_string_ne _ _ _ _ (λ e. cc) ∙ laws.get_string-set_string_self _ _ _
