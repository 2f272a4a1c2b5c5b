-- ===== src/Eti/Numbers.antt =====
-- The numbers of what src/eti/gwcEti.cpp sends, its requests for retransmission, and its reads.
use fosdk.Common.{
  ℕ, ◌^◌, ◌<◌, ◌≡◌, refl, ap, Bool, true, false, none, some, List, ◌∷◌, pos, arith, if◌then◌else◌,
}
use fosdk.Gwc.{sent, is_ready}
use fosdk.Gwc.Env.{Env, msg_seq_num}
use fosdk.Eti.{Eti, Item}
use fosdk.Eti.Session.{next_seq_no, previous_seq_no, is_hb, send, send_msg}

previous-next : (n : ℕ) → n < 2 ^ 64 → previous_seq_no (next_seq_no n) ≡ n
unfolding previous_seq_no next_seq_no
previous-next n h = omega (arith, h)

module _ (E : Env Item) where
  -- The message as it goes out, with its number.
  abbrev pub numbered : E.Msg → Eti E.Msg → E.Msg
  numbered m s =
      E.set_integer m msg_seq_num (pos (if is_hb E m then s.seq_no else next_seq_no s.seq_no))

  counter_back :
      (hb : Bool) (n : ℕ)
      → n < 2 ^ 64
      → (let k = if hb then n else next_seq_no n in if hb then k else previous_seq_no k) ≡ n
  counter_back true n h = refl
  counter_back false n h = previous-next n h

  send-refused :
      (m : E.Msg) (s : Eti E.Msg)
      → is_ready s.state ≡ false
      → ((send_msg E m s).0 ≡ s) × ((send_msg E m s).1 ≡ false)
  unfolding send_msg send
  send-refused m s e = (ground arith, ground arith)

  send-unencoded :
      (m : E.Msg) (s : Eti E.Msg)
      → s.seq_no < 2 ^ 64
      → is_ready s.state ≡ true
      → E.encode (numbered m s) ≡ none
      → ((send_msg E m s).0 ≡ s) × ((send_msg E m s).1 ≡ false)
  unfolding send_msg send
  send-unencoded m s h e q = (
    rw (e, send, q) (ap (λ k. record s { seq_no = k }) (counter_back (is_hb E m) s.seq_no h)),
    rw (e, send, q) refl,
  )

  send-encoded :
      (m : E.Msg) (s : Eti E.Msg) (b : List ℕ)
      → s.connection ≡ true
      → is_ready s.state ≡ true
      → E.encode (numbered m s) ≡ some b
      → ((send_msg E m s).0.trace ≡ sent b ∷ s.trace)
        × ((send_msg E m s).0.seq_no ≡ (if is_hb E m then s.seq_no else next_seq_no s.seq_no))
        × ((send_msg E m s).1 ≡ true)
  unfolding send_msg send
  send-encoded m s b c e q =
      (rw (e, send, q) (ground arith), rw (e, send, q) refl, rw (e, send, q) refl)

  -- Sending does one of three things, with a counter below 2^64 and a connection. A session that is
  -- not ready is left as it is, and the result is false. A message that cannot be encoded leaves the
  -- counter, the trace and the connection as they were, and the result is false. Any other goes out,
  -- in the encoding of the message with its number, as the one new effect: a heartbeat with the
  -- counter's value, which stays, and any other message with the counter's successor, modulo 2^64,
  -- which the counter becomes; and the result is true.
  pub send_msg-outcome :
      (m : E.Msg) (s : Eti E.Msg)
      → s.seq_no < 2 ^ 64
      → s.connection ≡ true
      → (is_ready s.state ≡ false → ((send_msg E m s).0 ≡ s) × ((send_msg E m s).1 ≡ false))
        × (is_ready s.state ≡ true
            → E.encode (numbered m s) ≡ none
            → ((send_msg E m s).0 ≡ s) × ((send_msg E m s).1 ≡ false))
        × ((b : List ℕ)
            → is_ready s.state ≡ true
            → E.encode (numbered m s) ≡ some b
            → ((send_msg E m s).0.trace ≡ sent b ∷ s.trace)
              × ((send_msg E m s).0.seq_no ≡ (if is_hb E m then s.seq_no else next_seq_no s.seq_no))
              × ((send_msg E m s).1 ≡ true))
  send_msg-outcome m s h c = (send-refused m s, send-unencoded m s h, (λ b. send-encoded m s b c))
