-- ===== src/Swx/Invariant.antt =====
-- What holds of a connector of src/swx/gwcSwx.cpp between two events, and the messages that it gets,
-- as src/soupbin/gwcSoupBin.cpp hands them over, which keep it.
use text.Mathlib.Text.{starts_with}
use fosdk.Common.{
  Bool, false, ℕ, zero, suc, ◌≡◌, both_ways, Holds, true, String, Option, none, some, List, arith,
  if◌then◌else◌, length, or_else, take, drop,
}
use fosdk.Gwc.{Callback, is_up}
use fosdk.Gwc.Env.{type, Env, message_type}
use fosdk.Gwc.Stream.{read_loop-keeps}
use fosdk.SoupBin.{notify, SoupBin, SeqNum}
use fosdk.SoupBin.Session.{
  reset, reset_hb_timer, error, update_seqno, login_accepted, login_rejected, is_session_message,
  handle_session_message, next_sequenced, handle_real_time_msg,
}
use fosdk.SoupBin.Receive.{
  Round, finished, again, session_frame, raw_round, raw_loop, on_connection_read,
}
use fosdk.Swx.{Codes, send_msg, sequenced_as, handle_sequenced_message, handle_unsequenced_message}
use fosdk.Swx.Venues.{swx}

-- The flag tells whether the session is up, and a session that is up has a heartbeat timer.
abbrev pub Inv : {Msg : Type 0} → SoupBin Msg → Type 0
Inv s = (s.logged_on ≡ (if is_up s.state then 1 else 0)) × (is_up s.state ≡ true → s.hb ≡ true)

module _ (E : Env SeqNum) (k : Codes) (clip : String → String) where
  pub error-Inv : (t : String) (s : SoupBin E.Msg) → Inv (error E (swx E k clip) t s)
  unfolding error reset
  error-Inv t s = ground arith

  pub send_msg-Inv : (m : E.Msg) (s : SoupBin E.Msg) → Inv s → Inv (send_msg E k m s).0
  unfolding send_msg
  send_msg-Inv m s h = ground arith

  session-Inv :
      (m : E.Msg) (s : SoupBin E.Msg) → Inv s → Inv (handle_session_message E (swx E k clip) m s)
  unfolding handle_session_message login_accepted reset_hb_timer login_rejected error reset
  session-Inv m s h = ground arith

  -- A callback in one branch of a chain of tests, and the rest of the chain in the other.
  chain-Inv :
      (b : Bool) (c : Callback) (m : E.Msg) (s r : SoupBin E.Msg)
      → Inv s
      → Inv r
      → Inv (if b then notify c s.sequence_number m s else r)
  chain-Inv true c m s r h g = h
  chain-Inv false c m s r h g = g

  as-Inv :
      (o : Option String) (m : E.Msg) (s : SoupBin E.Msg)
      → Inv s
      → Inv (elim o [ none ↦ s | some t ↦ sequenced_as E k t m s ])
  unfolding sequenced_as
  as-Inv none m s h = h
  as-Inv (some t) m s h = chain-Inv (starts_with t k.system_event) _ m s _ h (
      chain-Inv (starts_with t k.accepted) _ m s _ h (
        chain-Inv (starts_with t k.replaced) _ m s _ h (
          chain-Inv (starts_with t k.cancelled) _ m s _ h (
            chain-Inv (starts_with t k.executed_order) _ m s _ h (
              chain-Inv (starts_with t k.rejected_order) _ m s _ h (
                chain-Inv (starts_with t k.order_priority_update) _ m s _ h
                  (chain-Inv (starts_with t k.broken_trade) _ m s _ h h)))))))

  sequenced-Inv : (m : E.Msg) (s : SoupBin E.Msg) → Inv s → Inv (handle_sequenced_message E k m s)
  unfolding handle_sequenced_message
  sequenced-Inv m s h = as-Inv (E.get_string m type) m s h

  unsequenced-Inv :
      (m : E.Msg) (s : SoupBin E.Msg) → Inv s → Inv (handle_unsequenced_message E k m s)
  unfolding handle_unsequenced_message
  unsequenced-Inv m s h = h

  next-Inv : (s : SoupBin E.Msg) → Inv s → Inv (next_sequenced E (swx E k clip) s)
  unfolding next_sequenced update_seqno
  next-Inv s h = h

  msg-Inv :
      (m : E.Msg) (s : SoupBin E.Msg) → Inv s → Inv (handle_real_time_msg E (swx E k clip) m s)
  unfolding handle_real_time_msg
  msg-Inv m s h =
      let V = swx E k clip in
      let u = record s { seen_message = true } in
      let t = or_else (E.get_string m message_type) "" in
      both_ways Inv (is_session_message t) (handle_session_message E V m u) _
        (λ e. session-Inv m u h)
        (λ e.
          both_ways Inv (starts_with t "U") (handle_unsequenced_message E k m u) _
            (λ e'. unsequenced-Inv m u h)
            (λ e'.
              both_ways Inv (starts_with t "S")
                (handle_sequenced_message E k m (next_sequenced E V u)) u
                (λ e''. sequenced-Inv m (next_sequenced E V u) (next-Inv u h)) (λ e''. h)))

  abbrev Kept : Round E.Msg → Type 0
  Kept (finished s n) = Inv s
  Kept (again a l u s) = Inv s

  frame-Inv :
      (b : List ℕ) (n : ℕ) (s : SoupBin E.Msg) → Inv s → Kept (session_frame E (swx E k clip) b n s)
  unfolding session_frame
  frame-Inv b n s h = ground (arith, msg-Inv (E.decode E.empty b).msg s)

  round-Inv :
      (b : List ℕ) (a l n : ℕ) (s : SoupBin E.Msg)
      → Inv s
      → Kept (raw_round E (swx E k clip) b a l n s)
  unfolding raw_round
  round-Inv b a l n s h =
      ground (arith, frame-Inv (take l (drop a b)) n (record s { seen_message = true }))

  go_on-Inv :
      (f : ℕ) (b : List ℕ) (r : Round E.Msg)
      → ((a l n : ℕ) (s : SoupBin E.Msg)
          → Inv s
          → Holds (λ (q : SoupBin E.Msg × ℕ). Inv q.0) (raw_loop E (swx E k clip) f b a l n s))
      → Kept r
      → Holds
          (λ (q : SoupBin E.Msg × ℕ). Inv q.0)
          (elim r [
            | finished t n ↦ some (t, n)
            | again h l u t ↦ raw_loop E (swx E k clip) f b h l u t
          ])
  go_on-Inv f b (finished s n) rec h = h
  go_on-Inv f b (again a l n s) rec h = rec a l n s h

  raw_loop-Inv :
      (f : ℕ) (b : List ℕ) (a l n : ℕ) (s : SoupBin E.Msg)
      → Inv s
      → Holds (λ (r : SoupBin E.Msg × ℕ). Inv r.0) (raw_loop E (swx E k clip) f b a l n s)
  unfolding raw_loop
  raw_loop-Inv zero b a l n s h = tt
  raw_loop-Inv (suc f) b a l n s h =
      go_on-Inv f b (raw_round E (swx E k clip) b a l n s)
        (λ a' l' n' t g. raw_loop-Inv f b a' l' n' t g) (round-Inv b a l n s h)

  pub read-Inv :
      (b : List ℕ) (s : SoupBin E.Msg)
      → Inv s
      → Holds (λ (r : SoupBin E.Msg × ℕ). Inv r.0) (on_connection_read E (swx E k clip) b s)
  unfolding on_connection_read
  read-Inv b s h =
      both_ways (Holds (λ (r : SoupBin E.Msg × ℕ). Inv r.0)) s.raw_enabled _ _
        (λ e. raw_loop-Inv (suc (length b)) b 0 (length b) 0 s h)
        (λ e.
          read_loop-keeps E (handle_real_time_msg E (swx E k clip)) Inv msg-Inv (suc (length b))
            (length b) E.empty b s h)
