-- ===== src/Gwc/Wait.antt =====
-- src/gwcConnector.h: waitForLogon, waitForLogoff, waitForTraderLogon and waitForTraderLogoff against
-- the four `...Event` functions and `reset`, as two threads that take turns: the client, which waits,
-- and the connector's dispatch thread, which writes the flag. A turn is one access to the flag, the
-- mutex or the condition variable; what a compiler may do with the unprotected flag is left out.
use fosdk.Common.{ℕ, Bool, true, false, List, [], ◌∷◌, if◌then◌else◌, ◌==◌, ◌≡◌}

-- `mEventMutex` and `mEventCond` of the sbf library, as the one waiting client sees them: whether the
-- mutex is free, and whether the client sleeps on the condition variable. `stir` is what happens when
-- the library wakes a sleeper without a signal.
pub record Monitor : Type 1 where
  pub Shared : Type 0
  pub is_free : Shared → Bool
  pub is_asleep : Shared → Bool
  pub lock : Shared → Shared
  pub unlock : Shared → Shared
  pub sleep : Shared → Shared
  pub signal : Shared → Shared
  pub stir : Shared → Shared

-- A mutex, and a condition variable whose wait releases it and whose signal wakes the sleeper.
pub record IsMonitor (M : Monitor) : Type 0 where
  pub is_free-lock : (s : M.Shared) → M.is_free (M.lock s) ≡ false
  pub is_asleep-lock : (s : M.Shared) → M.is_asleep (M.lock s) ≡ M.is_asleep s
  pub is_free-unlock : (s : M.Shared) → M.is_free (M.unlock s) ≡ true
  pub is_asleep-unlock : (s : M.Shared) → M.is_asleep (M.unlock s) ≡ M.is_asleep s
  pub is_free-sleep : (s : M.Shared) → M.is_free (M.sleep s) ≡ true
  pub is_asleep-sleep : (s : M.Shared) → M.is_asleep (M.sleep s) ≡ true
  pub is_free-signal : (s : M.Shared) → M.is_free (M.signal s) ≡ M.is_free s
  pub is_asleep-signal : (s : M.Shared) → M.is_asleep (M.signal s) ≡ false
  pub is_free-stir : (s : M.Shared) → M.is_free (M.stir s) ≡ M.is_free s
  pub is_asleep-stir : (s : M.Shared) → M.is_asleep s ≡ false → M.is_asleep (M.stir s) ≡ false

-- A library that wakes nobody without a signal.
abbrev pub IsStrict : Monitor → Type 0
IsStrict M = (s : M.Shared) → M.is_asleep (M.stir s) ≡ M.is_asleep s

-- The four functions that wait.
pub data Wait : Type 0 where
  for_logon for_logoff for_trader_logon for_trader_logoff : Wait

-- The value of its flag in which each of them goes on waiting.
unfoldable pub awaits : Wait → ℕ
awaits for_logon = 0
awaits for_logoff = 1
awaits for_trader_logon = 0
awaits for_trader_logoff = 1

-- Where the client stands in such a function: before the test of the flag, before the mutex is taken,
-- with the mutex, in the wait, after the wait, and after the loop.
pub data Client : Type 0 where
  testing entering holding sleeping leaving returned : Client

-- Where the dispatch thread stands: outside, and in an `...Event` function after the write of the flag,
-- with the mutex, and after the signal.
pub data Dispatcher : Type 0 where
  idle locking signalling unlocking : Dispatcher

-- What the dispatch thread does to the flag: an `...Event` function, or `reset`, which does not signal.
pub data Write : Type 0 where
  event : ℕ → Write
  quiet : ℕ → Write

-- The functions that write a flag, those of the trader's flag beside those of the session's.
unfoldable pub logged_on_write : Write
logged_on_write = event 1

unfoldable pub logged_off_write : Write
logged_off_write = event 0

unfoldable pub trader_logged_on_write : Write
trader_logged_on_write = event 1

unfoldable pub trader_logged_off_write : Write
trader_logged_off_write = event 0

unfoldable pub reset_write : Write
reset_write = quiet 0

-- Whose turn it is; in a turn of nobody's the library may wake the sleeper.
pub data Thread : Type 0 where
  client dispatcher nobody : Thread

module _ (M : Monitor) where
  -- The flag that is waited for, what the threads share, where they stand, and the writes to come.
  pub record World : Type 0 where
    pub flag : ℕ
    pub shared : M.Shared
    pub at : Client
    pub notifier : Dispatcher
    pub todo : List Write

  -- One turn of `while (flag == v) { lock; wait; unlock; }`.
  unfoldable pub client_turn : ℕ → Client → World → World
  client_turn v testing w = record w { at = if w.flag == v then entering else returned }
  client_turn v entering w =
      if M.is_free w.shared then record w { shared = M.lock w.shared; at = holding } else w
  client_turn v holding w = record w { shared = M.sleep w.shared; at = sleeping }
  client_turn v sleeping w =
      if M.is_asleep w.shared
      then w
      else if M.is_free w.shared
      then record w { shared = M.lock w.shared; at = leaving }
      else w
  client_turn v leaving w = record w { shared = M.unlock w.shared; at = testing }
  client_turn v returned w = w

  -- The next write.
  unfoldable pub begin : List Write → World → World
  begin [] w = w
  begin (event n ∷ ws) w = record w { flag = n; notifier = locking; todo = ws }
  begin (quiet n ∷ ws) w = record w { flag = n; todo = ws }

  -- One turn of `flag = n; lock; signal; unlock;`.
  unfoldable pub dispatcher_turn : Dispatcher → World → World
  unfolding begin
  dispatcher_turn idle w = begin w.todo w
  dispatcher_turn locking w =
      if M.is_free w.shared then record w { shared = M.lock w.shared; notifier = signalling } else w
  dispatcher_turn signalling w = record w { shared = M.signal w.shared; notifier = unlocking }
  dispatcher_turn unlocking w = record w { shared = M.unlock w.shared; notifier = idle }

  unfoldable pub turn : ℕ → Thread → World → World
  unfolding client_turn dispatcher_turn
  turn v client w = client_turn v w.at w
  turn v dispatcher w = dispatcher_turn w.notifier w
  turn v nobody w = record w { shared = M.stir w.shared }

  -- The threads take turns in the order of a list.
  unfoldable pub run : ℕ → List Thread → World → World
  unfolding turn
  run v [] w = w
  run v (t ∷ ts) w = run v ts (turn v t w)

  unfoldable pub wait_for : Wait → List Thread → World → World
  unfolding run awaits
  wait_for f ts w = run (awaits f) ts w
