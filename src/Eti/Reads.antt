-- ===== src/Eti/Reads.antt =====
-- The reads of src/eti/gwcEti.cpp, and its heartbeat timer.
use fosdk.Common.{
  ℕ, zero, suc, ◌+◌, ◌-◌, ◌≤◌, ◌<◌, ◌≡◌, refl, ap, ◌∙◌, false, Option, some, List, arith, length,
}
use fosdk.Gwc.{init}
use fosdk.Gwc.Env.{Env, IsCodec}
use fosdk.Gwc.Stream.{Finds, handle_all, read_loop-Finds, found}
use fosdk.Eti.{Eti, Item, Ids}
use fosdk.Eti.Session.{reset, error, send, send_msg}
use fosdk.Eti.Receive.{handle_tcp_msg, on_tcp_connection_read}
use fosdk.Eti.Control.{on_hb_timeout}

module _ (E : Env Item) (I : Ids) where
  -- What a read does with some bytes: the messages that the codec finds one after the other, all handled in
  -- their order, and the number of bytes that it leaves for the next read.
  abbrev pub Reading : List ℕ → Eti E.Msg → Type 0
  Reading b s =
      (ms : List E.Msg) × ((n : ℕ) × (Finds E (handle_tcp_msg E I) E.empty b ms n
          × (◌≡◌ {A = Option (Eti E.Msg × ℕ)} (on_tcp_connection_read E I b s)
              (some (handle_all E (handle_tcp_msg E I) ms s, length b - n)))
          × (n ≤ length b)))

  -- With a codec that consumes at least a byte whenever it succeeds, a read always ends: it hands
  -- each message that the codec finds to the handler, in order, and returns the number of all bytes
  -- but those of an incomplete message, which stay for the next read, and of all bytes where the
  -- codec fails.
  pub read_handles_all : IsCodec E → (b : List ℕ) (s : Eti E.Msg) → Reading b s
  unfolding on_tcp_connection_read
  read_handles_all C b s =
      let (ms, (n, (f, l, k))) =
        found E (handle_tcp_msg E I) C (suc (length b)) E.empty b (omega arith) in
      (
        ms,
        (
          n,
          (
            f,
            read_loop-Finds E (handle_tcp_msg E I) (suc (length b)) (length b) s f
                (omega (arith, l)),
            k,
          ),
        ),
      )

  -- The heartbeat timer goes off, again and again, and nothing else happens.
  unfoldable pub timeouts : ℕ → Eti E.Msg → Eti E.Msg
  timeouts zero s = s
  timeouts (suc n) s = timeouts n (on_hb_timeout E I s)

  abbrev pub Missed : ℕ → Eti E.Msg → Eti E.Msg → Type 0
  Missed n s t =
      (t.missed_hb ≡ s.missed_hb + n)
      × (t.seen_hb ≡ false)
      × (t.state ≡ s.state)
      × (t.connection ≡ s.connection)

  on_hb_timeout-Missed :
      (s : Eti E.Msg) → s.seen_hb ≡ false → s.missed_hb < 3 → Missed 1 s (on_hb_timeout E I s)
  unfolding on_hb_timeout send_msg send
  on_hb_timeout-Missed s q h = ground arith

  on_hb_timeout_error :
      (s : Eti E.Msg)
      → s.seen_hb ≡ false
      → s.missed_hb ≡ 3
      → ((on_hb_timeout E I s).state ≡ init) × ((on_hb_timeout E I s).connection ≡ false)
  unfolding on_hb_timeout send_msg send error reset
  on_hb_timeout_error s q h = ground arith

  timeouts-Missed :
      (n : ℕ) (s : Eti E.Msg) → s.seen_hb ≡ false → s.missed_hb + n ≤ 3 → Missed n s (timeouts n s)
  unfolding timeouts
  timeouts-Missed zero s q h = (omega arith, q, refl, refl)
  timeouts-Missed (suc n) s q h =
      let a = on_hb_timeout-Missed s q (omega (arith, h)) in
      let t = on_hb_timeout E I s in
      let b = timeouts-Missed n t a.1 (omega (arith, h, a.0)) in
      (b.0 ∙ omega (arith, a.0), b.1, b.2 ∙ a.2, b.3 ∙ a.3)

  timeouts-last : (n : ℕ) (s : Eti E.Msg) → timeouts (suc n) s ≡ on_hb_timeout E I (timeouts n s)
  unfolding timeouts
  timeouts-last zero s = refl
  timeouts-last (suc n) s = timeouts-last n (on_hb_timeout E I s)

  -- From a state in which no message and no missed heartbeat was noted, three timeouts in a row
  -- leave the session's state and its connection as they were, and with a fourth the connection is
  -- gone and the session in its first state.
  pub four_missed :
      (s : Eti E.Msg)
      → s.seen_hb ≡ false
      → s.missed_hb ≡ 0
      → ((n : ℕ)
          → n ≤ 3
          → ((timeouts n s).state ≡ s.state) × ((timeouts n s).connection ≡ s.connection))
        × ((timeouts 4 s).state ≡ init)
        × ((timeouts 4 s).connection ≡ false)
  four_missed s q h =
      let three = timeouts-Missed 3 s q (omega (arith, h)) in
      let fourth = on_hb_timeout_error (timeouts 3 s) three.1 (three.0 ∙ omega (arith, h)) in
      (
        (λ n l. let m = timeouts-Missed n s q (omega (arith, h, l)) in (m.2, m.3)),
        ap (λ t. t.state) (timeouts-last 3 s) ∙ fourth.0,
        ap (λ t. t.connection) (timeouts-last 3 s) ∙ fourth.1,
      )
