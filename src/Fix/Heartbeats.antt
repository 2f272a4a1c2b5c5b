-- ===== src/Fix/Heartbeats.antt =====
-- The heartbeat timer of src/fix/gwcFix.cpp: onHbTimeout and the flag that every message sets.
use fosdk.Common.{
  ℕ, zero, suc, ◌+◌, ◌≤◌, ◌<◌, ◌≡◌, refl, ◌∙◌, ap, true, false, String, List, [], ◌∷◌, arith,
}
use fosdk.Gwc.{Effect, on_error, init}
use fosdk.Gwc.Env.{Env}
use fosdk.Fix.{Fix, Seqnums}
use fosdk.Fix.Session.{error, reset, send_msg}
use fosdk.Fix.Control.{on_hb_timeout}

-- The errors reported to the client, newest first.
unfoldable pub errors : {Msg : Type 0} → List (Effect Msg Seqnums) → List String
errors [] = []
errors (on_error e ∷ es) = e ∷ errors es
errors (_ ∷ es) = errors es

module _ (E : Env Seqnums) where
  -- `n` timeouts with nothing received in between.
  unfoldable pub silence : ℕ → Fix E.Msg → Fix E.Msg
  silence zero s = s
  silence (suc n) s = on_hb_timeout E (silence n s)

  -- A timeout that finds the flag not set.
  on_hb_timeout_silent :
      (s : Fix E.Msg)
      → s.seen_hb ≡ false
      → let t = on_hb_timeout E s in
        (s.missed_hb < 3
          → (t.missed_hb ≡ s.missed_hb + 1)
            × (t.seen_hb ≡ false)
            × (t.state ≡ s.state)
            × (errors t.trace ≡ errors s.trace))
        × (3 ≤ s.missed_hb
            → (t.state ≡ init)
              × (t.connection ≡ false)
              × (errors t.trace ≡ "missed heartbeats" ∷ errors s.trace))
  unfolding on_hb_timeout send_msg error reset errors
  on_hb_timeout_silent s h = ground arith

  on_hb_timeout_heard :
      (s : Fix E.Msg)
      → s.seen_hb ≡ true
      → let t = on_hb_timeout E s in
        (t.missed_hb ≡ 0)
        × (t.seen_hb ≡ false)
        × (t.state ≡ s.state)
        × (errors t.trace ≡ errors s.trace)
  unfolding on_hb_timeout send_msg errors
  on_hb_timeout_heard s h = ground arith

  counting :
      (k : ℕ) (s : Fix E.Msg)
      → s.seen_hb ≡ true
      → k ≤ 3
      → let t = silence (suc k) s in
        (t.missed_hb ≡ k)
        × (t.seen_hb ≡ false)
        × (t.state ≡ s.state)
        × (errors t.trace ≡ errors s.trace)
  unfolding silence
  counting zero s h b = on_hb_timeout_heard s h
  counting (suc k) s h b = ground (arith, counting k s h, on_hb_timeout_silent (silence (suc k) s))

  quiet :
      (n : ℕ) (s : Fix E.Msg)
      → s.seen_hb ≡ true
      → n ≤ 4
      → ((silence n s).state ≡ s.state) × (errors (silence n s).trace ≡ errors s.trace)
  unfolding silence
  quiet zero s h b = (refl, refl)
  quiet (suc n) s h b = ground (arith, counting n s h)

  -- After a message was received, four timeouts in a row leave the session as it is and report no error;
  -- the fifth with nothing received closes it, and reports one error, that of missed heartbeats.
  pub silence_limit :
      (s : Fix E.Msg)
      → s.seen_hb ≡ true
      → ((n : ℕ)
          → n ≤ 4
          → ((silence n s).state ≡ s.state) × (errors (silence n s).trace ≡ errors s.trace))
        × ((silence 5 s).state ≡ init)
        × ((silence 5 s).connection ≡ false)
        × (errors (silence 5 s).trace ≡ "missed heartbeats" ∷ errors s.trace)
  unfolding silence
  silence_limit s h =
      let fourth = counting 3 s h (omega arith) in
      let fifth = (on_hb_timeout_silent (silence 4 s) fourth.1).1 (omega (arith, fourth.0)) in
      (
        λ n b. quiet n s h b,
        fifth.0,
        fifth.1,
        fifth.2 ∙ ap (λ es. "missed heartbeats" ∷ es) fourth.3,
      )
