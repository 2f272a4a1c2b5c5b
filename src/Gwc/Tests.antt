-- ===== src/Gwc/Tests.antt =====
-- The theorems on the waiting functions of src/gwcConnector.h at concrete inputs: a monitor of two
-- flags.
use fosdk.Common.{◌≡◌, refl, Bool, true, false, List, [], ◌∷◌, ◌++◌, concat, arith, ◌==◌}
use fosdk.Gwc.Wait.{
  Monitor, IsMonitor, World, for_logon, for_logoff, awaits, sleeping, returned, idle, locking,
  reset_write, Thread, client, dispatcher, nobody, run, turn, client_turn, dispatcher_turn, begin,
  wait_for,
}
use fosdk.Gwc.Wakeup.{has_turn, is_awaited, run_until_returned}
use fosdk.Gwc.Lost.{
  is_quiet, has_signalled, returned-seen, sleeps_on, missed_turns, before_event, lost_wakeup,
}

record Flags : Type 0 where
  free : Bool
  asleep : Bool

abbrev flags : Monitor
flags = record {
  Shared = Flags;
  is_free = λ s. s.free;
  is_asleep = λ s. s.asleep;
  lock = λ s. record s { free = false };
  unlock = λ s. record s { free = true };
  sleep = λ s. record { free = true; asleep = true };
  signal = λ s. record s { asleep = false };
  stir = λ s. s;
}

flags-IsMonitor : IsMonitor flags
flags-IsMonitor = record {
  is_free-lock = λ s. refl;
  is_asleep-lock = λ s. refl;
  is_free-unlock = λ s. refl;
  is_asleep-unlock = λ s. refl;
  is_free-sleep = λ s. refl;
  is_asleep-sleep = λ s. refl;
  is_free-signal = λ s. refl;
  is_asleep-signal = λ s. refl;
  is_free-stir = λ s. refl;
  is_asleep-stir = λ s h. h;
}

abbrev free : Flags
free = record { free = true; asleep = false }

-- A client that sleeps in waitForLogon, and a dispatch thread that has written the flag.
abbrev written : World flags
written = record {
  flag = 1;
  shared = record { free = true; asleep = true };
  at = sleeping;
  notifier = locking;
  todo = [];
}

abbrev round : List Thread
round = client ∷ nobody ∷ dispatcher ∷ []

abbrev rounds : List (List Thread)
rounds = round ∷ round ∷ round ∷ round ∷ round ∷ round ∷ round ∷ []

run_until_returned_example : (run flags 0 (concat rounds) written).at ≡ returned
unfolding is_awaited has_turn
run_until_returned_example =
    run_until_returned flags flags-IsMonitor 0 rounds written (refl, refl, refl)
      (
        (refl, refl),
        (
          (refl, refl),
          ((refl, refl), ((refl, refl), ((refl, refl), ((refl, refl), ((refl, refl), tt))))),
        ),
      )
      (omega arith)

-- A client that is about to test the flag of waitForLogon, before the logon.
abbrev before_logon : World flags
before_logon = before_event flags free for_logon 1

abbrev passing : List Thread
passing = dispatcher ∷ client ∷ []

passing-returned : (run flags 0 passing before_logon).at ≡ returned
unfolding run turn client_turn dispatcher_turn begin awaits
passing-returned = refl

passing_seen :
    (us : List Thread) × (vs : List Thread) × (us ++ vs ≡ passing)
    × (((run flags 0 us before_logon).flag == 0) ≡ false)
passing_seen = returned-seen flags 0 passing before_logon (λ e. ground (arith, e)) passing-returned

-- A client that sleeps in waitForLogoff while the connection is lost.
abbrev dropped : World flags
dropped = record {
  flag = 1;
  shared = record { free = true; asleep = true };
  at = sleeping;
  notifier = idle;
  todo = reset_write ∷ [];
}

dropped_sleeps_on : (wait_for flags for_logoff round dropped).at ≡ sleeping
unfolding is_quiet has_signalled reset_write
dropped_sleeps_on =
    sleeps_on flags flags-IsMonitor (λ s. refl) for_logoff round dropped
      (refl, refl, refl, (refl, tt))

lost_wakeup_example :
    ((wait_for flags for_logon missed_turns before_logon).flag ≡ 1)
    × ((wait_for flags for_logon (missed_turns ++ round) before_logon).at ≡ sleeping)
lost_wakeup_example = lost_wakeup flags flags-IsMonitor free refl (λ s. refl) for_logon 1 round
