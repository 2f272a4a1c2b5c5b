-- ===== src/Optiq/Numbers.antt =====
-- The numbers of src/optiq/gwcOptiq.cpp: which messages take one, what the exchange's answer to a
-- logon sets them to, and which number the next logon asks from.
use fosdk.Common.{
  ℕ, ◌≡◌, ◌≢◌, refl, true, false, none, some, List, ◌∷◌, ℤ, negsuc, arith, succ, eqb_ℤ, eqb_ℤ→eq,
  Bool-cases, inl, inr, ap, ◌∙◌,
}
use fosdk.Gwc.{ready, sent, cached}
use fosdk.Gwc.Env.{Env, IsCdr, last_cl_msg_seq_num, last_msg_seq_num, cl_msg_seq_num}
use fosdk.Optiq.{Optiq, Codes, Seqnums}
use fosdk.Optiq.Session.{
  is_admin, template_of, take_number, encode_and_send, send_msg, reset, error,
}
use fosdk.Optiq.Receive.{accept_logon, refuse_logon}
use fosdk.Optiq.Control.{logon_msg}

module _ (E : Env Seqnums) (k : Codes) where
  -- The numbers after `s` has taken one.
  abbrev pub taken : Optiq E.Msg → Seqnums
  taken s = record { inbound = s.seqnums.inbound; outbound = succ s.seqnums.outbound }

  abbrev pub numbered : E.Msg → Optiq E.Msg → E.Msg
  numbered m s = E.set_integer m cl_msg_seq_num (succ s.seqnums.outbound)

  -- On a connector that is ready, an application message takes the next outbound number, whether or
  -- not it can be encoded. The number is in the cache file before anything goes out, the message
  -- that is encoded carries it, and what is sent is that encoding and nothing else. If the codec
  -- refuses the message the result is false and nothing is sent.
  pub send_msg-numbered :
      (m : E.Msg) (s : Optiq E.Msg)
      → s.state ≡ ready
      → is_admin k (template_of E k m) ≡ false
      → ((send_msg E k m s).0.seqnums ≡ taken s)
        × ((E.encode (numbered m s) ≡ none
              → ((send_msg E k m s).1 ≡ false)
                × ((send_msg E k m s).0.trace ≡ cached (taken s) ∷ s.trace))
            × ((bytes : List ℕ)
                → E.encode (numbered m s) ≡ some bytes
                → ((send_msg E k m s).1 ≡ true)
                  × ((send_msg E k m s).0.trace ≡ sent bytes ∷ cached (taken s) ∷ s.trace)))
  unfolding send_msg take_number encode_and_send
  send_msg-numbered m s h a = (
    ground arith,
    (
      (λ e. rw (h, a, e, encode_and_send) (refl, refl)),
      (λ b e. rw (h, a, e, encode_and_send) (refl, refl)),
    ),
  )

  -- A session message is sent without a number: the numbers stay, and nothing is written to the
  -- cache file.
  pub send_msg_unnumbered :
      (m : E.Msg) (s : Optiq E.Msg) (bytes : List ℕ)
      → s.state ≡ ready
      → is_admin k (template_of E k m) ≡ true
      → E.encode m ≡ some bytes
      → ((send_msg E k m s).1 ≡ true)
        × (((send_msg E k m s).0.seqnums ≡ s.seqnums)
            × ((send_msg E k m s).0.trace ≡ sent bytes ∷ s.trace))
  unfolding send_msg encode_and_send
  send_msg_unnumbered m s bytes h a e = rw (h, a, e, encode_and_send) (refl, (refl, refl))

  -- The first application message after a logon carries the number after the last one that the
  -- exchange says it has, whatever number the connector had before.
  send_msg-accept_logon :
      (m ack : E.Msg) (s : Optiq E.Msg) (n : ℤ) (bytes : List ℕ)
      → E.get_integer ack last_cl_msg_seq_num ≡ some n
      → is_admin k (template_of E k m) ≡ false
      → E.encode (E.set_integer m cl_msg_seq_num (succ n)) ≡ some bytes
      → ((send_msg E k m (accept_logon E k ack s)).1 ≡ true)
        × (((send_msg E k m (accept_logon E k ack s)).0.trace
              ≡ sent bytes
                ∷ cached (taken (accept_logon E k ack s))
                ∷ (accept_logon E k ack s).trace)
            × ((accept_logon E k ack s).seqnums.outbound ≡ n))
  unfolding accept_logon
  send_msg-accept_logon m ack s n bytes g a e =
      let t = accept_logon E k ack s in
      let r = (send_msg-numbered m t refl a).1.1 bytes (rw g e) in (r.0, (r.1, rw g refl))

  logon_msg_asks :
      IsCdr E.cdr
      → (s : Optiq E.Msg) → eqb_ℤ s.seqnums.inbound (negsuc 0) ≡ false
      → E.get_integer (logon_msg E k s) last_msg_seq_num ≡ some s.seqnums.inbound
  unfolding logon_msg
  logon_msg_asks L s h = rw h (L.get_integer-set_integer_self _ _ _)

  refuse_logon_numbers :
      (reject : E.Msg) (s : Optiq E.Msg) (n o : ℤ)
      → E.get_integer reject last_msg_seq_num ≡ some n
      → E.get_integer reject last_cl_msg_seq_num ≡ some o
      → ((refuse_logon E k reject s).seqnums ≡ record { inbound = n; outbound = o })
        × ((refuse_logon E k reject s).connection ≡ false)
  unfolding refuse_logon error reset
  refuse_logon_numbers reject s n o g h = ground arith

  ne_test : (n : ℤ) → n ≢ negsuc 0 → eqb_ℤ n (negsuc 0) ≡ false
  ne_test n ne = elim (Bool-cases (eqb_ℤ n (negsuc 0))) [
    | inl h ↦ elim (ne (eqb_ℤ→eq n (negsuc 0) h)) [ ]
    | inr h ↦ h
  ]

  -- A logon reject leaves the numbers that the exchange names, and the session is over; the next
  -- logon then asks for what comes after the exchange's last message, unless that is -1.
  logon_msg-refuse_logon :
      IsCdr E.cdr
      → (reject : E.Msg) (s : Optiq E.Msg) (n o : ℤ)
      → E.get_integer reject last_msg_seq_num ≡ some n
      → E.get_integer reject last_cl_msg_seq_num ≡ some o
      → n ≢ negsuc 0
      → ((refuse_logon E k reject s).seqnums ≡ record { inbound = n; outbound = o })
        × (((refuse_logon E k reject s).connection ≡ false)
            × (E.get_integer (logon_msg E k (refuse_logon E k reject s)) last_msg_seq_num ≡ some n))
  logon_msg-refuse_logon L reject s n o g h ne =
      let t = refuse_logon E k reject s in
      let r = refuse_logon_numbers reject s n o g h in
      let i = ap (λ q. q.inbound) r.0 in
      (r.0, (r.1, logon_msg_asks L t (rw i (ne_test n ne)) ∙ ap some i))

  -- With a message that keeps its fields, what the exchange's answers to a logon set. An accept that names
  -- the number a of the last of the client's messages that the exchange has: an application message that the
  -- codec encodes under the number after a is sent with it, whatever the connector had counted before, and
  -- the number is stored first. A reject that names the number n of the exchange's last message, other than
  -- -1, and the number o of the client's: the numbers are n and o, the connection goes, and the next logon
  -- asks for what comes after n.
  pub logon_numbers :
      IsCdr E.cdr
      → (m ack reject : E.Msg) (s : Optiq E.Msg) (a n o : ℤ) (bytes : List ℕ)
      → E.get_integer ack last_cl_msg_seq_num ≡ some a
      → is_admin k (template_of E k m) ≡ false
      → E.encode (E.set_integer m cl_msg_seq_num (succ a)) ≡ some bytes
      → E.get_integer reject last_msg_seq_num ≡ some n
      → E.get_integer reject last_cl_msg_seq_num ≡ some o
      → n ≢ negsuc 0
      → ((send_msg E k m (accept_logon E k ack s)).1 ≡ true)
        × ((send_msg E k m (accept_logon E k ack s)).0.trace
            ≡ sent bytes ∷ cached (taken (accept_logon E k ack s)) ∷ (accept_logon E k ack s).trace)
        × ((accept_logon E k ack s).seqnums.outbound ≡ a)
        × ((refuse_logon E k reject s).seqnums ≡ record { inbound = n; outbound = o })
        × ((refuse_logon E k reject s).connection ≡ false)
        × (E.get_integer (logon_msg E k (refuse_logon E k reject s)) last_msg_seq_num ≡ some n)
  logon_numbers L m ack reject s a n o bytes h admin e g i ne =
      let accepted = send_msg-accept_logon m ack s a bytes h admin e in
      let refused = logon_msg-refuse_logon L reject s n o g i ne in
      (accepted.0, accepted.1.0, accepted.1.1, refused.0, refused.1.0, refused.1.1)
