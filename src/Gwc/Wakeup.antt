-- ===== src/Gwc/Wakeup.antt =====
-- What becomes of a client that waits in one of the waitFor functions of src/gwcConnector.h.
use fosdk.Common.{
  ℕ, ◌-◌, ◌≤◌, ◌≡◌, ◌⊎◌, inl, inr, refl, sym, Bool, true, false, not, ◌&&◌, List, [], ◌∷◌, ◌++◌,
  concat, All, length, arith, ◌==◌, subst,
}
use fosdk.Gwc.Wait.{
  Monitor, IsMonitor, Client, testing, entering, holding, sleeping, leaving, returned, Dispatcher,
  idle, locking, signalling, unlocking, Write, Thread, client, dispatcher, nobody, World,
  client_turn, begin, dispatcher_turn, turn, run,
}

-- With the two threads at these places, the client asleep or not and the mutex free or not, the client
-- will be woken if it sleeps; the mutex is held by at most one of them.
unfoldable pub is_awaited : Client → Dispatcher → Bool → Bool → Bool
is_awaited entering q asleep free = false
is_awaited holding locking asleep free = not free
is_awaited holding q asleep free = false
is_awaited leaving idle asleep free = not free
is_awaited leaving locking asleep free = not free
is_awaited leaving q asleep free = false
is_awaited sleeping idle asleep free = free && not asleep
is_awaited sleeping locking asleep free = free
is_awaited sleeping signalling asleep free = not free
is_awaited sleeping unlocking asleep free = not free && not asleep
is_awaited p idle asleep free = free
is_awaited p locking asleep free = free
is_awaited p q asleep free = not free

-- The turns that are left.
left : Client → Dispatcher → ℕ
left returned q = 0
left testing q = 1
left leaving q = 2
left sleeping idle = 3
left sleeping unlocking = 4
left sleeping signalling = 5
left sleeping locking = 6
left holding q = 7
left entering q = 7

-- The thread on which the client's return waits.
mover : Client → Dispatcher → Thread
mover sleeping idle = client
mover sleeping q = dispatcher
mover p q = client

-- Whether a thread has a turn.
unfoldable pub has_turn : Thread → List Thread → Bool
has_turn t [] = false
has_turn client (client ∷ ts) = true
has_turn dispatcher (dispatcher ∷ ts) = true
has_turn t (u ∷ ts) = has_turn t ts

-- A stretch of turns in which both threads have one.
abbrev pub IsRound : List Thread → Type 0
IsRound ts = (has_turn client ts ≡ true) × (has_turn dispatcher ts ≡ true)

has_turn-later :
    (a t : Thread) (ts : List Thread)
    → has_turn a (t ∷ []) ≡ false
    → has_turn a (t ∷ ts) ≡ true
    → has_turn a ts ≡ true
unfolding has_turn
has_turn-later client client ts h g = ground arith
has_turn-later client dispatcher ts h g = g
has_turn-later client nobody ts h g = g
has_turn-later dispatcher dispatcher ts h g = ground arith
has_turn-later dispatcher client ts h g = g
has_turn-later dispatcher nobody ts h g = g
has_turn-later nobody t ts h g = ground arith

mover-turn :
    (p : Client) (q : Dispatcher) (ts : List Thread) → IsRound ts → has_turn (mover p q) ts ≡ true
unfolding mover
mover-turn p q ts h = ground arith

left-bound : (p : Client) (q : Dispatcher) → left p q ≤ 7
unfolding left
left-bound p q = ground arith

left-returned : (p : Client) (q : Dispatcher) → left p q ≤ 0 → p ≡ returned
unfolding left
left-returned p q h = ground arith

pub run-append :
    (M : Monitor) (v : ℕ) (ts us : List Thread) (w : World M)
    → run M v (ts ++ us) w ≡ run M v us (run M v ts w)
unfolding run
run-append M v [] us w = refl
run-append M v (t ∷ ts) us w = run-append M v ts us (turn M v t w)

module _ (M : Monitor) (L : IsMonitor M) (v : ℕ) where
  -- The flag has been written for good, and the client has returned or will be woken.
  abbrev pub Awaited : World M → Type 0
  Awaited w =
      ((w.flag == v) ≡ false)
      × (w.todo ≡ [])
      × (is_awaited w.at w.notifier (M.is_asleep w.shared) (M.is_free w.shared) ≡ true)

  abbrev Moved : Thread → World M → World M → Type 0
  Moved t w u =
      Awaited u
      × (left u.at u.notifier ≤ left w.at w.notifier)
      × ((left u.at u.notifier ≤ left w.at w.notifier - 1)
          ⊎ ((mover u.at u.notifier ≡ mover w.at w.notifier)
              × (has_turn (mover w.at w.notifier) (t ∷ []) ≡ false)))

  abbrev world : ℕ → M.Shared → Client → Dispatcher → List Write → World M
  world f s p q ws = record { flag = f; shared = s; at = p; notifier = q; todo = ws }

  client-Moved :
      (f : ℕ) (s : M.Shared) (p : Client) (q : Dispatcher) (ws : List Write)
      → Awaited (world f s p q ws)
      → Moved client (world f s p q ws) (client_turn M v p (world f s p q ws))
  unfolding client_turn left mover is_awaited has_turn
  client-Moved f s testing idle ws h = ground arith
  client-Moved f s testing locking ws h = ground arith
  client-Moved f s testing signalling ws h = ground arith
  client-Moved f s testing unlocking ws h = ground arith
  client-Moved f s holding locking ws h = ground (arith, L.is_free-sleep s, L.is_asleep-sleep s)
  client-Moved f s sleeping idle ws h = ground (arith, L.is_free-lock s, L.is_asleep-lock s)
  client-Moved f s sleeping locking ws h = ground (arith, L.is_free-lock s, L.is_asleep-lock s)
  client-Moved f s sleeping signalling ws h = ground (arith, L.is_free-lock s, L.is_asleep-lock s)
  client-Moved f s sleeping unlocking ws h = ground (arith, L.is_free-lock s, L.is_asleep-lock s)
  client-Moved f s leaving idle ws h = ground (arith, L.is_free-unlock s, L.is_asleep-unlock s)
  client-Moved f s leaving locking ws h = ground (arith, L.is_free-unlock s, L.is_asleep-unlock s)
  client-Moved f s returned q ws h = ground arith
  client-Moved f s p q ws h = ground arith

  dispatcher-Moved :
      (f : ℕ) (s : M.Shared) (p : Client) (q : Dispatcher) (ws : List Write)
      → Awaited (world f s p q ws)
      → Moved dispatcher (world f s p q ws) (dispatcher_turn M q (world f s p q ws))
  unfolding dispatcher_turn begin left mover is_awaited has_turn
  dispatcher-Moved f s p idle (w ∷ ws) h = ground arith
  dispatcher-Moved f s testing idle [] h = ground arith
  dispatcher-Moved f s returned idle [] h = ground arith
  dispatcher-Moved f s sleeping idle [] h = ground arith
  dispatcher-Moved f s leaving idle [] h = ground arith
  dispatcher-Moved f s p locking ws h = ground (arith, L.is_free-lock s, L.is_asleep-lock s)
  dispatcher-Moved f s p signalling ws h = ground (arith, L.is_free-signal s, L.is_asleep-signal s)
  dispatcher-Moved f s p unlocking ws h = ground (arith, L.is_free-unlock s, L.is_asleep-unlock s)
  dispatcher-Moved f s p q ws h = ground arith

  nobody-Moved :
      (f : ℕ) (s : M.Shared) (p : Client) (q : Dispatcher) (ws : List Write)
      → Awaited (world f s p q ws)
      → Moved nobody (world f s p q ws) (world f (M.stir s) p q ws)
  unfolding left mover is_awaited has_turn
  nobody-Moved f s p q ws h = ground (arith, L.is_free-stir s, L.is_asleep-stir s)

  turn-Moved : (t : Thread) (w : World M) → Awaited w → Moved t w (turn M v t w)
  unfolding turn
  turn-Moved client w h = client-Moved w.flag w.shared w.at w.notifier w.todo h
  turn-Moved dispatcher w h = dispatcher-Moved w.flag w.shared w.at w.notifier w.todo h
  turn-Moved nobody w h = nobody-Moved w.flag w.shared w.at w.notifier w.todo h

  -- A list of turns in which the awaited thread has one takes the client further.
  run-progress :
      (ts : List Thread) (w : World M)
      → Awaited w
      → Awaited (run M v ts w)
        × (left (run M v ts w).at (run M v ts w).notifier ≤ left w.at w.notifier)
        × (has_turn (mover w.at w.notifier) ts ≡ true
            → left (run M v ts w).at (run M v ts w).notifier ≤ left w.at w.notifier - 1)
  unfolding run has_turn
  run-progress [] w h = ground arith
  run-progress (t ∷ ts) w h =
      let m = turn-Moved t w h in
      let r = run-progress ts (turn M v t w) m.0 in
      (
        r.0,
        omega (arith, m.1, r.1),
        λ e. elim m.2 [
          | inl less ↦ omega (arith, less, r.1)
          | inr (same, none) ↦ omega (
            arith,
            m.1,
            r.2 (subst (λ a. has_turn a ts ≡ true) (sym same) (has_turn-later _ t ts none e)),
          )
        ],
      )

  rounds-progress :
      (rs : List (List Thread)) (w : World M)
      → All IsRound rs
      → Awaited w
      → left (run M v (concat rs) w).at (run M v (concat rs) w).notifier
        ≤ left w.at w.notifier - length rs
  unfolding run
  rounds-progress [] w fair h = omega arith
  rounds-progress (r ∷ rs) w fair h =
      let one = run-progress r w h in
      let more = rounds-progress rs (run M v r w) fair.1 one.0 in
      rw (run-append M v r (concat rs) w)
        (omega (arith, more, one.2 (mover-turn w.at w.notifier r fair.0)))

  -- With a mutex and a condition variable, a client that has not yet gone to sleep behind a signal
  -- that is given already, or that will be signalled, returns: when the flag is written for good, and
  -- then both threads have a turn in each of 7 stretches, in any order and with wakeups that no signal
  -- caused, the function that waits has returned.
  pub run_until_returned :
      (rs : List (List Thread)) (w : World M)
      → Awaited w
      → All IsRound rs
      → 7 ≤ length rs
      → (run M v (concat rs) w).at ≡ returned
  run_until_returned rs w h fair long =
      left-returned (run M v (concat rs) w).at (run M v (concat rs) w).notifier
        (omega (arith, rounds-progress rs w fair h, left-bound w.at w.notifier))
