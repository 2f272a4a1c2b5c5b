-- ===== src/Optiq/Safety.antt =====
-- Reading, the timers, start and stop of src/optiq/gwcOptiq.cpp keep the invariant of an Optiq
-- connector.
use fosdk.Common.{
  Holds, ℕ, zero, suc, ◌+◌, ◌≡◌, refl, both_ways, if◌then◌else◌, Bool, true, false, Option, none,
  some, List, [], ◌∷◌, All, arith, drop, length,
}
use fosdk.Gwc.Env.{Env}
use fosdk.Optiq.{Optiq, Codes, Seqnums}
use fosdk.Optiq.Session.{reset, send_msg, send_order, send_cancel, send_modify}
use fosdk.Optiq.Receive.{handle_tcp_msg, read_loop}
use fosdk.Optiq.Raw.{
  Packet, u16_at, returned, Round, finished, again, session_frame, raw_frame, raw_round, raw_loop,
  on_tcp_connection_read,
}
use fosdk.Optiq.Control.{
  on_tcp_connection_ready, count_missed, on_hb_timeout, start, stop, step, run,
  on_tcp_connection_error, on_reconnect, Event, tcp_ready, tcp_error, hb_timeout, reconnect, stops,
  tcp_read, starts, orders, cancels, modifies, sends, sends_raw,
}
use fosdk.Optiq.Invariant.{
  Inv, persisted, error-Inv, send_msg-Inv, send_raw-Inv, handle_tcp_msg-Inv,
}

-- An event after which the cache file can still be right: `start (true)` forgets the numbers in
-- memory only.
unfoldable pub Allowed : {Msg : Type 0} → Bool → Event Msg → Type 0
Allowed w (starts asked) = w ≡ true → asked ≡ false
Allowed w _ = Unit

module _ (E : Env Seqnums) (k : Codes) (p : Packet) (w : Bool) (c : Seqnums) (d : ℕ) where
  read_loop-Inv :
      (f : ℕ) (m : E.Msg) (b : List ℕ) (s : Optiq E.Msg)
      → Inv w c d s
      → Inv w c d (read_loop E k f m b s).0
  unfolding read_loop
  read_loop-Inv zero m b s v = v
  read_loop-Inv (suc f) m b s v =
      let r = E.decode m b in
      ground (
        arith,
        read_loop-Inv f r.msg (drop r.used b) (handle_tcp_msg E k r.msg s)
            (handle_tcp_msg-Inv E k w c d r.msg s v),
      )

  raw_frame-Inv :
      (n : ℕ) (b : List ℕ) (s : Optiq E.Msg)
      → w ≡ false
      → Inv w c d s
      → Inv w c d (raw_frame E k p n b s)
  unfolding raw_frame persisted
  raw_frame-Inv n b s h v = ground arith

  abbrev Kept : Round E.Msg → Type 0
  Kept (finished s n) = Inv w c d s
  Kept (again m b s) = Inv w c d s

  session_frame-Inv :
      (m : E.Msg) (b : List ℕ) (s : Optiq E.Msg) → Inv w c d s → Kept (session_frame E k p m b s)
  unfolding session_frame
  session_frame-Inv m b s v = ground (arith, handle_tcp_msg-Inv E k w c d (E.decode m b).msg s v)

  raw_round-Inv :
      (m : E.Msg) (b : List ℕ) (s : Optiq E.Msg)
      → w ≡ false
      → Inv w c d s
      → Kept (raw_round E k p m b s)
  unfolding raw_round
  raw_round-Inv m b s h v =
      ground (arith, session_frame-Inv m b s v, raw_frame-Inv (u16_at p b 0) b s h v)

  abbrev Left : Option (Optiq E.Msg × ℕ) → Type 0
  Left o = Holds (λ r. Inv w c d r.0) o

  -- What a round leaves, and the loop does with it.
  go_on-Left :
      (f : ℕ) (q : Round E.Msg)
      → Kept q
      → ((m : E.Msg) (b : List ℕ) (s : Optiq E.Msg) → Inv w c d s → Left (raw_loop E k p f m b s))
      → Left
          (elim q [ finished t left ↦ some (t, left) | again m rest t ↦ raw_loop E k p f m rest t ])
  go_on-Left f (finished s n) v h = v
  go_on-Left f (again m b s) v h = h m b s v

  raw_loop-Inv :
      (f : ℕ) (m : E.Msg) (b : List ℕ) (s : Optiq E.Msg)
      → w ≡ false
      → Inv w c d s
      → Left (raw_loop E k p f m b s)
  unfolding raw_loop
  raw_loop-Inv zero m b s h v = tt
  raw_loop-Inv (suc f) m b s h v =
      go_on-Left f _ (raw_round-Inv m b s h v) (λ m' b' s' v'. raw_loop-Inv f m' b' s' h v')

  -- Raw messages are off where the cache file is compared.
  raw_off : (s : Optiq E.Msg) → Inv w c d s → s.raw_enabled ≡ true → w ≡ false
  raw_off s v h = ground arith

  returned-Left : (n : ℕ) (r : Option (Optiq E.Msg × ℕ)) → Left r → Left (returned n r)
  unfolding returned
  returned-Left n none v = tt
  returned-Left n (some q) v = v

  read-Inv : (b : List ℕ) (s : Optiq E.Msg) → Inv w c d s → Left (on_tcp_connection_read E k p b s)
  unfolding on_tcp_connection_read
  read-Inv b s v = returned-Left (length b) _ (
      both_ways Left s.raw_enabled _ _
        (λ h. raw_loop-Inv (suc (length b)) E.empty b s (raw_off s v h) v)
        (λ h. read_loop-Inv (length b) E.empty b s v))

  ready-Inv :
      (s : Optiq E.Msg)
      → s.connection ≡ true
      → Inv w c d s
      → Inv w c d (on_tcp_connection_ready E k s)
  unfolding on_tcp_connection_ready persisted
  ready-Inv s h v = ground arith

  count_missed-Inv : (s : Optiq E.Msg) → Inv w c d s → Inv w c d (count_missed E k s)
  unfolding count_missed
  count_missed-Inv s v =
      ground
        (arith, error-Inv E k w c d "missed heartbeats" (record s { missed_hb = s.missed_hb + 1 }))

  hb_timeout-Inv : (s : Optiq E.Msg) → Inv w c d s → Inv w c d (on_hb_timeout E k s)
  unfolding on_hb_timeout
  hb_timeout-Inv s v = count_missed-Inv _ (send_msg-Inv E k w c d _ s v)

  start-Inv :
      (asked : Bool) (s : Optiq E.Msg)
      → (w ≡ true → asked ≡ false)
      → Inv w c d s
      → Inv w c d (start E k asked s).0
  unfolding start persisted
  start-Inv asked s h v = ground arith

  stop-Inv : (s : Optiq E.Msg) → Inv w c d s → Inv w c d (stop E k s).0
  unfolding stop persisted reset send_msg
  stop-Inv s v = ground arith

  if-Inv :
      (b : Bool) (s t : Optiq E.Msg)
      → (b ≡ true → Inv w c d t)
      → Inv w c d s
      → Inv w c d (if b then t else s)
  if-Inv b s t h v = ground arith

  next-Inv :
      (r : Option (Optiq E.Msg × ℕ))
      → Left r
      → Holds (Inv w c d) (elim r [ none ↦ none | some q ↦ some q.0 ])
  next-Inv none v = tt
  next-Inv (some q) v = v

  tcp_read-Inv :
      (b : List ℕ) (s : Optiq E.Msg) → Inv w c d s → Holds (Inv w c d) (step E k p (tcp_read b) s)
  unfolding step
  tcp_read-Inv b s v =
      both_ways (Holds (Inv w c d)) s.connection _ _ (λ h. next-Inv _ (read-Inv b s v)) (λ h. v)

  -- Every event that is allowed, in every state, keeps the invariant.
  pub step-Inv :
      (e : Event E.Msg) (s : Optiq E.Msg)
      → Allowed w e
      → Inv w c d s
      → Holds (Inv w c d) (step E k p e s)
  unfolding step Allowed on_tcp_connection_error on_reconnect send_order send_cancel send_modify
  step-Inv tcp_ready s a v = if-Inv _ s _ (λ h. ready-Inv s h v) v
  step-Inv tcp_error s a v =
      if-Inv s.connection s _
        (λ h. error-Inv E k w c d "tcp dropped connection" s v.lock_held v.raw_off v.persistent) v
  step-Inv hb_timeout s a v = if-Inv _ s _ (λ h. hb_timeout-Inv s v) v
  step-Inv reconnect s a v = if-Inv _ s _ (λ h. start-Inv false s (λ i. refl) v) v
  step-Inv stops s a v = stop-Inv s v
  step-Inv (tcp_read b) s a v = tcp_read-Inv b s v
  step-Inv (starts asked) s a v = start-Inv asked s a v
  step-Inv (orders m) s a v = send_msg-Inv E k w c d _ s v
  step-Inv (cancels m) s a v = send_msg-Inv E k w c d _ s v
  step-Inv (modifies m) s a v = send_msg-Inv E k w c d _ s v
  step-Inv (sends m) s a v = send_msg-Inv E k w c d m s v
  step-Inv (sends_raw b) s a v = send_raw-Inv E k w c d p.header b s v

  run_on-Inv :
      (es : List (Event E.Msg)) (o : Option (Optiq E.Msg))
      → Holds (Inv w c d) o
      → ((s : Optiq E.Msg) → Inv w c d s → Holds (Inv w c d) (run E k p es s))
      → Holds (Inv w c d) (elim o [ none ↦ none | some t ↦ run E k p es t ])
  run_on-Inv es none v h = tt
  run_on-Inv es (some s) v h = h s v

  -- A connector that satisfies the invariant does so after any history of events that ends. The
  -- invariant: a session that is ready or waits for its logoff has a connection and a heartbeat
  -- timer and counts as logged on; one that waits for the logon's answer has a connection; at most
  -- 3 heartbeats are missed; and the mutex is held as often as at the beginning. With `w` as true it
  -- also says that raw messages are off and that the cache file holds the sequence numbers in
  -- memory, and then no event is a start that asks for a reset.
  pub run-Holds :
      (es : List (Event E.Msg)) (s : Optiq E.Msg)
      → All (Allowed w) es
      → Inv w c d s
      → Holds (Inv w c d) (run E k p es s)
  unfolding run
  run-Holds [] s a v = v
  run-Holds (e ∷ es) s (a, b) v = run_on-Inv es _ (step-Inv e s a v) (λ t u. run-Holds es t b u)
