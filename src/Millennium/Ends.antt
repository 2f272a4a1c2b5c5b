-- ===== src/Millennium/Ends.antt =====
-- The reads of src/millennium/gwcMillennium.cpp end, and consume no more than there is.
use fosdk.Common.{
  ℕ, zero, suc, ◌+◌, ◌-◌, ◌≤◌, ◌<◌, ◌≡◌, refl, Option, some, List, length, length-drop, arith,
  both_ways,
}
use fosdk.Gwc.Env.{Env, IsCodec}
use fosdk.Gwc.Stream.{read_loop, read_loop-Finds, found, handle_all, Finding}
use fosdk.Millennium.{Millennium, SeqNum, Layout}
use fosdk.Millennium.Receive.{handle_real_time_msg, handle_recovery_msg}
use fosdk.Millennium.Raw.{
  Round, finished, again, session_frame, raw_round, raw_loop, read, frame_length,
  on_real_time_connection_read, on_recovery_connection_read,
}

-- A read of `size` bytes has a result, and what it consumed is in bounds.
abbrev pub Ends : {Msg : Type 0} → ℕ → Option (Millennium Msg × ℕ) → Type 0
Ends {Msg} size o =
    (t : Millennium Msg) × ((n : ℕ) × ((◌≡◌ {A = Option (Millennium Msg × ℕ)} o (some (t, n)))
        × (n ≤ size)))

module _ (E : Env SeqNum) (L : Layout E.Msg) (C : IsCodec E) (header_size : 2 ≤ L.header)
    (handle : E.Msg → Millennium E.Msg → Millennium E.Msg) (failed : ℕ → ℕ) (size : ℕ)
    (failed_bound : (n : ℕ) → n ≤ size → failed n ≤ size) where
  -- A round that goes on has bytes behind it.
  abbrev GoesOn : List ℕ → Round E.Msg → Type 0
  GoesOn b (finished s n) = n ≤ size
  GoesOn b (again m b' u s) = (length b' < length b) × (u + length b' ≤ size)

  session_frame-GoesOn :
      (m : E.Msg) (b : List ℕ) (u : ℕ) (s : Millennium E.Msg)
      → u + length b ≤ size
      → GoesOn b (session_frame E L handle failed m b u s)
  unfolding session_frame
  session_frame-GoesOn m b u s h =
      ground (arith, failed_bound (length b), C.used_bounds m b, length-drop (E.decode m b).used b)

  raw_round-GoesOn :
      (m : E.Msg) (b : List ℕ) (u : ℕ) (s : Millennium E.Msg)
      → u + length b ≤ size
      → GoesOn b (raw_round E L handle failed m b u s)
  unfolding raw_round frame_length
  raw_round-GoesOn m b u s h =
      ground (arith, session_frame-GoesOn m b u s h, length-drop (frame_length E L b) b)

  next_round-Ends :
      (b : List ℕ) (after : E.Msg → List ℕ → ℕ → Millennium E.Msg → Option (Millennium E.Msg × ℕ))
      (r : Round E.Msg)
      → GoesOn b r
      → ((m : E.Msg) (b' : List ℕ) (u : ℕ) (t : Millennium E.Msg)
          → length b' < length b
          → u + length b' ≤ size
          → Ends size (after m b' u t))
      → Ends size (elim r [ finished t n ↦ some (t, n) | again m b' u t ↦ after m b' u t ])
  next_round-Ends b after (finished t n) g rec = (t, (n, (refl, g)))
  next_round-Ends b after (again m b' u t) (g, l) rec = rec m b' u t g l

  raw_loop-Ends :
      (fuel : ℕ) (m : E.Msg) (b : List ℕ) (u : ℕ) (s : Millennium E.Msg)
      → length b < fuel
      → u + length b ≤ size
      → Ends size (raw_loop E L handle failed fuel m b u s)
  unfolding raw_loop
  raw_loop-Ends zero m b u s f h = absurd (omega (arith, f))
  raw_loop-Ends (suc fuel) m b u s f h =
      next_round-Ends b (raw_loop E L handle failed fuel) (raw_round E L handle failed m b u s)
        (raw_round-GoesOn m b u s h)
        (λ m' b' u' t g l. raw_loop-Ends fuel m' b' u' t (omega (arith, f, g)) l)

  decoded_loop-Ends :
      (b : List ℕ) (s : Millennium E.Msg)
      → length b ≡ size
      → Finding E handle E.empty b
      → Ends size (read_loop E handle (suc (length b)) (length b) E.empty b s)
  decoded_loop-Ends b s e (ms, (n, (f, l, k))) = (
    handle_all E handle ms s,
    (
      length b - n,
      (
        read_loop-Finds E handle (suc (length b)) (length b) s f (omega (arith, l)),
        omega (arith, e),
      ),
    ),
  )

  read-Ends :
      (b : List ℕ) (s : Millennium E.Msg) → length b ≡ size → Ends size (read E L handle failed b s)
  unfolding read
  read-Ends b s e =
      both_ways (Ends size) s.raw_enabled
        (raw_loop E L handle failed (suc (length b)) E.empty b 0 s)
        (read_loop E handle (suc (length b)) (length b) E.empty b s)
        (λ q. raw_loop-Ends (suc (length b)) E.empty b 0 s (omega arith) (omega (arith, e)))
        (λ q. decoded_loop-Ends b s e (found E handle C (suc (length b)) E.empty b (omega arith)))

module _ (E : Env SeqNum) (L : Layout E.Msg) where
  -- Where a codec that succeeds consumes a byte at least and no more than it was given, and the header
  -- has two bytes or more, a read of either connection ends, whether raw messages are on or off,
  -- whatever the bytes are, and the number of bytes that it returns is at most the number
  -- of those that it was given.
  pub reads_end :
      IsCodec E
      → 2 ≤ L.header
      → (b : List ℕ) (s : Millennium E.Msg)
      → Ends (length b) (on_real_time_connection_read E L b s)
        × Ends (length b) (on_recovery_connection_read E L b s)
  unfolding on_real_time_connection_read on_recovery_connection_read
  reads_end C h b s = (
    read-Ends E L C h (handle_real_time_msg E L) (λ left. length b) (length b) (λ n l. omega arith)
        b s refl,
    read-Ends E L C h (handle_recovery_msg E L) (λ left. left) (length b) (λ n l. l) b s refl,
  )
