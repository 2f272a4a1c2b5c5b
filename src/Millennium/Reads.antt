-- ===== src/Millennium/Reads.antt =====
-- The reads of src/millennium/gwcMillennium.cpp: that they end, and that what each handler keeps, a read keeps.
use fosdk.Common.{ℕ, zero, suc, Option, some, List, length, arith, Holds, both_ways}
use fosdk.Gwc.Env.{Env}
use fosdk.Gwc.Stream.{read_loop, read_loop-keeps}
use fosdk.Millennium.{Millennium, SeqNum, Layout}
use fosdk.Millennium.Raw.{
  Round, finished, again, session_frame, application_frame, raw_round, raw_loop, read,
}

module _ (E : Env SeqNum) (L : Layout E.Msg) (handle : E.Msg → Millennium E.Msg → Millennium E.Msg)
    (failed : ℕ → ℕ) (P : Millennium E.Msg → Type 0)
    (keeps : (m : E.Msg) (s : Millennium E.Msg) → P s → P (handle m s))
    (keeps_raw : (b : List ℕ) (s : Millennium E.Msg) → P s → P (application_frame E L b s)) where
  abbrev RoundHolds : Round E.Msg → Type 0
  RoundHolds (finished s n) = P s
  RoundHolds (again m b u s) = P s

  session_frame-keeps :
      (m : E.Msg) (b : List ℕ) (u : ℕ) (s : Millennium E.Msg)
      → P s
      → RoundHolds (session_frame E L handle failed m b u s)
  unfolding session_frame
  session_frame-keeps m b u s h = ground (arith, keeps (E.decode m b).msg s h)

  raw_round-keeps :
      (m : E.Msg) (b : List ℕ) (u : ℕ) (s : Millennium E.Msg)
      → P s
      → RoundHolds (raw_round E L handle failed m b u s)
  unfolding raw_round
  raw_round-keeps m b u s h = ground (arith, session_frame-keeps m b u s h, keeps_raw b s h)

  next_round-keeps :
      (after : E.Msg → List ℕ → ℕ → Millennium E.Msg → Option (Millennium E.Msg × ℕ))
      (r : Round E.Msg)
      → RoundHolds r
      → ((m : E.Msg) (b : List ℕ) (u : ℕ) (t : Millennium E.Msg)
          → P t
          → Holds (λ (q : Millennium E.Msg × ℕ). P q.0) (after m b u t))
      → Holds
          (λ (q : Millennium E.Msg × ℕ). P q.0)
          (elim r [ finished t n ↦ some (t, n) | again m b u t ↦ after m b u t ])
  next_round-keeps after (finished t n) g rec = g
  next_round-keeps after (again m b u t) g rec = rec m b u t g

  raw_loop-keeps :
      (fuel : ℕ) (m : E.Msg) (b : List ℕ) (u : ℕ) (s : Millennium E.Msg)
      → P s
      → Holds (λ (r : Millennium E.Msg × ℕ). P r.0) (raw_loop E L handle failed fuel m b u s)
  unfolding raw_loop
  raw_loop-keeps zero m b u s h = tt
  raw_loop-keeps (suc fuel) m b u s h =
      next_round-keeps (raw_loop E L handle failed fuel) (raw_round E L handle failed m b u s)
        (raw_round-keeps m b u s h) (λ m' b' u' t g. raw_loop-keeps fuel m' b' u' t g)

  pub read-keeps :
      (b : List ℕ) (s : Millennium E.Msg)
      → P s
      → Holds (λ (r : Millennium E.Msg × ℕ). P r.0) (read E L handle failed b s)
  unfolding read
  read-keeps b s h =
      both_ways (Holds (λ (r : Millennium E.Msg × ℕ). P r.0)) s.raw_enabled
        (raw_loop E L handle failed (suc (length b)) E.empty b 0 s)
        (read_loop E handle (suc (length b)) (length b) E.empty b s)
        (λ e. raw_loop-keeps (suc (length b)) E.empty b 0 s h)
        (λ e. read_loop-keeps E handle P keeps (suc (length b)) (length b) E.empty b s h)
