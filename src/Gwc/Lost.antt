-- ===== src/Gwc/Lost.antt =====
-- When a waitFor function of src/gwcConnector.h returns, and the orders of turns in which it does not.
use fosdk.Common.{
  ℕ, ◌≡◌, ◌≢◌, refl, sym, ◌∙◌, ap, inl, inr, Bool, true, false, Bool-cases, List, [], ◌∷◌, ◌++◌,
  All, arith, subst, ◌==◌,
}
use fosdk.Gwc.Wait.{
  Monitor, IsMonitor, IsStrict, Wait, awaits, Client, testing, entering, holding, sleeping, leaving,
  returned, Dispatcher, idle, locking, signalling, unlocking, Write, event, quiet, Thread, client,
  dispatcher, nobody, World, client_turn, begin, dispatcher_turn, turn, run, wait_for,
}
use fosdk.Gwc.Wakeup.{run-append}

unfoldable pub is_quiet : Write → Bool
is_quiet (event n) = false
is_quiet (quiet n) = true

-- Outside, or with the signal given already.
unfoldable pub has_signalled : Dispatcher → Bool
has_signalled idle = true
has_signalled unlocking = true
has_signalled q = false

module _ (M : Monitor) (v : ℕ) where
  -- A place other than the end is left for the end only by a test that finds another value.
  client-returned :
      (p : Client) (w : World M)
      → w.at ≡ p
      → p ≢ returned
      → (w.flag == v) ≡ true
      → (client_turn M v p w).at ≢ returned
  unfolding client_turn
  client-returned testing w at h e = ground arith
  client-returned entering w at h e = ground arith
  client-returned holding w at h e = ground arith
  client-returned sleeping w at h e = ground arith
  client-returned leaving w at h e = ground arith
  client-returned returned w at h e = ground arith

  dispatcher-at : (q : Dispatcher) (w : World M) → (dispatcher_turn M q w).at ≡ w.at
  unfolding dispatcher_turn begin
  dispatcher-at q w = ground arith

  turn-returned :
      (t : Thread) (w : World M)
      → w.at ≢ returned
      → (w.flag == v) ≡ true
      → (turn M v t w).at ≢ returned
  unfolding turn
  turn-returned client w h e = client-returned w.at w refl h e
  turn-returned dispatcher w h e = λ g. h (sym (dispatcher-at w.notifier w) ∙ g)
  turn-returned nobody w h e = h

  -- A function that waits and has returned has seen its flag with another value: there was a moment,
  -- after some of the turns, at which the flag had one.
  pub returned-seen :
      (ts : List Thread) (w : World M)
      → w.at ≢ returned
      → (run M v ts w).at ≡ returned
      → (us : List Thread) × (vs : List Thread) × (us ++ vs ≡ ts)
        × (((run M v us w).flag == v) ≡ false)
  unfolding run
  returned-seen [] w h e = absurd (h e)
  returned-seen (t ∷ ts) w h e = elim (Bool-cases (w.flag == v)) [
    | inr other ↦ ([], t ∷ ts, refl, other)
    | inl same ↦
        let r = returned-seen ts (turn M v t w) (turn-returned t w h same) e in
        (t ∷ r.0, r.1, ap (λ us. t ∷ us) r.2, r.3)
  ]

module _ (M : Monitor) where
  -- The client sleeps, and what is still to come does not signal.
  abbrev pub Forgotten : World M → Type 0
  Forgotten w =
      (w.at ≡ sleeping)
      × (M.is_asleep w.shared ≡ true)
      × (has_signalled w.notifier ≡ true)
      × All (λ a. is_quiet a ≡ true) w.todo

module _ (M : Monitor) (L : IsMonitor M) (strict : IsStrict M) where
  begin-Forgotten :
      (ws : List Write) (w : World M)
      → w.at ≡ sleeping
      → M.is_asleep w.shared ≡ true
      → has_signalled w.notifier ≡ true
      → All (λ a. is_quiet a ≡ true) ws
      → w.todo ≡ ws
      → Forgotten M (begin M ws w)
  unfolding begin is_quiet
  begin-Forgotten [] w a b c h e = (a, b, c, subst (All (λ a. is_quiet a ≡ true)) (sym e) h)
  begin-Forgotten (event n ∷ ws) w a b c h e = ground arith
  begin-Forgotten (quiet n ∷ ws) w a b c h e = (a, b, c, h.1)

  dispatcher-Forgotten :
      (q : Dispatcher) (w : World M)
      → w.notifier ≡ q
      → Forgotten M w
      → Forgotten M (dispatcher_turn M q w)
  unfolding dispatcher_turn has_signalled
  dispatcher-Forgotten idle w e h = begin-Forgotten w.todo w h.0 h.1 h.2 h.3 refl
  dispatcher-Forgotten locking w e h = ground arith
  dispatcher-Forgotten signalling w e h = ground arith
  dispatcher-Forgotten unlocking w e h = (h.0, L.is_asleep-unlock w.shared ∙ h.1, refl, h.3)

  client-Forgotten : (v : ℕ) (w : World M) → Forgotten M w → client_turn M v w.at w ≡ w
  unfolding client_turn
  client-Forgotten v w h = rw (h.0, h.1) refl

  turn-Forgotten : (v : ℕ) (t : Thread) (w : World M) → Forgotten M w → Forgotten M (turn M v t w)
  unfolding turn
  turn-Forgotten v client w h = subst (Forgotten M) (sym (client-Forgotten v w h)) h
  turn-Forgotten v dispatcher w h = dispatcher-Forgotten w.notifier w refl h
  turn-Forgotten v nobody w h = (h.0, strict w.shared ∙ h.1, h.2, h.3)

  pub run-Forgotten :
      (v : ℕ) (ts : List Thread) (w : World M) → Forgotten M w → Forgotten M (run M v ts w)
  unfolding run
  run-Forgotten v [] w h = h
  run-Forgotten v (t ∷ ts) w h = run-Forgotten v ts (turn M v t w) (turn-Forgotten v t w h)

  -- Where a library wakes nobody without a signal, a client that sleeps in a function that waits, with
  -- no signal to come, is never woken: after any further turns it sleeps, and in particular after a
  -- `reset`, which writes the flag and does not signal.
  pub sleeps_on :
      (f : Wait) (ts : List Thread) (w : World M)
      → Forgotten M w
      → (wait_for M f ts w).at ≡ sleeping
  unfolding wait_for
  sleeps_on f ts w h = (run-Forgotten (awaits f) ts w h).0

-- The client's test, then the whole of an `...Event` function, then the client's wait.
abbrev pub missed_turns : List Thread
missed_turns = client ∷ dispatcher ∷ dispatcher ∷ dispatcher ∷ dispatcher ∷ client ∷ client ∷ []

-- The flag as the waiting function does not want it, the mutex free, and one event to come.
abbrev pub before_event : (M : Monitor) → M.Shared → Wait → ℕ → World M
before_event M s f n = record {
  flag = awaits f;
  shared = s;
  at = testing;
  notifier = idle;
  todo = event n ∷ [];
}

module _ (M : Monitor) (L : IsMonitor M) (s : M.Shared) (free : M.is_free s ≡ true) where
  missed-Forgotten :
      (f : Wait) (n : ℕ)
      → let w = run M (awaits f) missed_turns (before_event M s f n) in Forgotten M w × (w.flag ≡ n)
  unfolding run turn client_turn dispatcher_turn begin has_signalled awaits
  missed-Forgotten f n =
      let t = M.unlock (M.signal (M.lock s)) in
      ground (arith, free, L.is_free-unlock (M.signal (M.lock s)), L.is_asleep-sleep (M.lock t))

  -- The signal can be lost, as the flag is tested outside the mutex. When the event comes between the
  -- client's test and its wait, the flag is as the event writes it, and yet, where a library wakes
  -- nobody without a signal, the client sleeps after any further turns, unless there is another event.
  pub lost_wakeup :
      (strict : IsStrict M) (f : Wait) (n : ℕ) (ts : List Thread)
      → ((wait_for M f missed_turns (before_event M s f n)).flag ≡ n)
        × ((wait_for M f (missed_turns ++ ts) (before_event M s f n)).at ≡ sleeping)
  unfolding wait_for
  lost_wakeup strict f n ts =
      let m = missed-Forgotten f n in
      (
        m.1,
        rw (run-append M (awaits f) missed_turns ts (before_event M s f n))
            (run-Forgotten M L strict (awaits f) ts _ m.0).0,
      )
