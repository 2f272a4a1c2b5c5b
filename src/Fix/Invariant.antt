-- ===== src/Fix/Invariant.antt =====
-- What holds of a FIX connector between two events: a session that is up has its connection and
-- its heartbeat timer, the mutex is free, and the cache file holds the numbers in memory. The
-- sends and the handlers of src/fix/gwcFix.cpp keep it.
use fosdk.Common.{
  ℕ, ◌≤◌, ◌≡◌, Bool, true, false, String, List, [], ◌∷◌, ℤ, arith, Option, none, some, none, some,
}
use fosdk.Gwc.{Effect, Callback, cached, ready, connected, waiting_logoff, admin}
use fosdk.Gwc.Env.{Env}
use fosdk.Fix.{Fix, Seqnums, notify, in_state}
use fosdk.Fix.Session.{reset, error, send_msg, send_raw}
use fosdk.Fix.Handlers.{
  handle_logout_msg, handle_test_request_msg, handle_resend_request_msg, handle_sequence_reset_msg,
  handle_execution_report_msg, handle_order_cancel_reject_msg, handle_reject_msg,
  handle_business_reject_msg,
}
use fosdk.Fix.Receive.{
  Outcome, return, go_on, accept_logon, logon_reset, logged_on, check_logon, Handler,
  on_test_request, on_resend_request, on_logout, on_order_cancel_reject, call, handler_of, dispatch,
}

-- The numbers that the cache file holds after a trace, if it held `c` before.
unfoldable pub persisted : {Msg : Type 0} → Seqnums → List (Effect Msg Seqnums) → Seqnums
persisted c [] = c
persisted c (cached n ∷ es) = n
persisted c (_ ∷ es) = persisted c es

-- `depth` is how often the mutex is held.
pub record Inv {Msg : Type 0} (c : Seqnums) (depth : ℕ) (s : Fix Msg) : Type 0 where
  pub ready_up : s.state ≡ ready → (s.connection ≡ true) × (s.logged_on ≡ 1) × (s.hb ≡ true)
  pub logoff_up :
      s.state ≡ waiting_logoff → (s.connection ≡ true) × (s.logged_on ≡ 1) × (s.hb ≡ true)
  pub connected_up : s.state ≡ connected → s.connection ≡ true
  pub missed_bound : s.missed_hb ≤ 3
  pub lock_held : s.lock_depth ≡ depth
  pub persistent : persisted c s.trace ≡ s.seqnums

module _ {Msg : Type 0} (c : Seqnums) (d : ℕ) where
  -- A reset gives the invariant whatever the session's state was.
  pub reset-Inv :
      (s : Fix Msg) → s.lock_depth ≡ d → persisted c s.trace ≡ s.seqnums → Inv c d (reset s)
  unfolding reset
  reset-Inv s h p = ground arith

module _ (E : Env Seqnums) (c : Seqnums) (d : ℕ) where
  abbrev pub Keeps : Outcome E → Type 0
  Keeps (return s) = Inv c d s
  Keeps (go_on s) = Inv c d s

  pub error-Inv :
      (t : String) (s : Fix E.Msg)
      → s.lock_depth ≡ d
      → persisted c s.trace ≡ s.seqnums
      → Inv c d (error E t s)
  unfolding error persisted
  error-Inv t s h p = ground (arith, reset-Inv c d s)

  pub send_msg-Inv : (m : E.Msg) (s : Fix E.Msg) → Inv c d s → Inv c d (send_msg E m s).0
  unfolding send_msg persisted
  send_msg-Inv m s v = ground arith

  pub send_raw-Inv : (b : List ℕ) (s : Fix E.Msg) → Inv c d s → Inv c d (send_raw E b s).0
  unfolding send_raw persisted
  send_raw-Inv b s v = ground arith

  pub logout-Inv :
      (n : ℤ) (m : E.Msg) (s : Fix E.Msg) → Inv c d s → Inv c d (handle_logout_msg E n m s)
  unfolding handle_logout_msg persisted reset
  logout-Inv n m s v =
      ground (arith, error-Inv "unsolicited logoff from exchnage" (notify admin n m s))

  pub test_request-Inv :
      (n : ℤ) (m : E.Msg) (s : Fix E.Msg) → Inv c d s → Inv c d (handle_test_request_msg E n m s)
  unfolding handle_test_request_msg persisted
  test_request-Inv n m s v = grind (arith, send_msg-Inv)

  pub resend_request-Inv :
      (n : ℤ) (m : E.Msg) (s : Fix E.Msg) → Inv c d s → Inv c d (handle_resend_request_msg E n m s)
  unfolding handle_resend_request_msg persisted
  resend_request-Inv n m s v = grind (arith, send_msg-Inv)

  pub sequence_reset-Inv :
      (n : ℤ) (m : E.Msg) (s : Fix E.Msg) → Inv c d s → Inv c d (handle_sequence_reset_msg E n m s)
  unfolding handle_sequence_reset_msg persisted
  sequence_reset-Inv n m s v = ground arith

  pub cancel_reject-Inv :
      (n : ℤ) (m : E.Msg) (s : Fix E.Msg)
      → Inv c d s
      → Inv c d (handle_order_cancel_reject_msg E n m s)
  unfolding handle_order_cancel_reject_msg persisted
  cancel_reject-Inv n m s v = ground arith

  pub notify-Inv :
      (k : Callback) (n : ℤ) (m : E.Msg) (s : Fix E.Msg) → Inv c d s → Inv c d (notify k n m s)
  unfolding persisted
  notify-Inv k n m s v = ground arith

  pub call-Inv :
      (h : Handler) (n : ℤ) (m : E.Msg) (s : Fix E.Msg) → Inv c d s → Inv c d (call E h n m s)
  unfolding call handle_reject_msg handle_business_reject_msg handle_execution_report_msg
  call-Inv on_test_request n m s v = test_request-Inv n m s v
  call-Inv on_resend_request n m s v = resend_request-Inv n m s v
  call-Inv on_logout n m s v = logout-Inv n m s v
  call-Inv on_order_cancel_reject n m s v = cancel_reject-Inv n m s v
  call-Inv _ n m s v = notify-Inv _ n m s v

  pub dispatch-Inv :
      (t : String) (n : ℤ) (m : E.Msg) (s : Fix E.Msg) → Inv c d s → Inv c d (dispatch E t n m s)
  unfolding dispatch
  dispatch-Inv t n m s v = call-Inv (handler_of t) n m s v

  pub logged_on-Inv :
      (r : Option Bool) (n : ℤ) (m : E.Msg) (s : Fix E.Msg)
      → s.state ≡ connected
      → Inv c d s
      → Keeps (logged_on E r n m (record (in_state ready s) { hb = true }))
  unfolding logged_on persisted
  logged_on-Inv none n m s h v = error-Inv _ _ v.lock_held v.persistent
  logged_on-Inv (some true) n m s h v = ground arith
  logged_on-Inv (some false) n m s h v = ground arith

  pub accept_logon-Inv :
      (n : ℤ) (m : E.Msg) (s : Fix E.Msg)
      → s.state ≡ connected
      → Inv c d s
      → Keeps (accept_logon E n m s)
  unfolding accept_logon
  accept_logon-Inv n m s h v = logged_on-Inv (logon_reset E m) n m s h v

  pub check_logon-Inv :
      (t : String) (n : ℤ) (m : E.Msg) (s : Fix E.Msg) → Inv c d s → Keeps (check_logon E t n m s)
  unfolding check_logon
  check_logon-Inv t n m s v = ground (
    arith,
    accept_logon-Inv n m s,
    error-Inv "logon rejected" s,
    error-Inv "invalid response after logon" s,
  )
