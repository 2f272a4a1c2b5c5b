-- ===== src/Optiq/Invariant.antt =====
-- What holds of an Optiq connector between two events: a session that is up has its connection and
-- its heartbeat timer, the mutex is free, and, where the numbers are kept in the cache file, the
-- file holds those in memory. The sends and handlers of src/optiq/gwcOptiq.cpp keep it.
use fosdk.Common.{
  ℕ, ◌≤◌, ◌≡◌, refl, Bool, true, false, String, List, [], ◌∷◌, ℤ, pos, arith, or_else,
}
use fosdk.Gwc.{
  Effect, Callback, cached, ready, connected, waiting_logoff, admin, order_ack, modify_ack,
  order_rejected, modify_rejected, cancel_rejected,
}
use fosdk.Gwc.Env.{Env, template_id, msg_seq_num}
use fosdk.Optiq.{Optiq, Codes, Seqnums, notify}
use fosdk.Optiq.Session.{reset, error, send_msg, send_raw}
use fosdk.Optiq.Receive.{
  handle_logoff_response, handle_test_request_msg, handle_technical_reject_msg, handle_ack_msg,
  handle_execution_msg, handle_kill_msg, handle_reject_msg, accept_logon, refuse_logon, await_logon,
  Handler, on_logout, on_test_request, on_ack, on_reject, call, handler_of, track, handle_tcp_msg,
}

-- The numbers that the cache file holds after a trace, if it held `c` before.
unfoldable pub persisted : {Msg : Type 0} → Seqnums → List (Effect Msg Seqnums) → Seqnums
persisted c [] = c
persisted c (cached n ∷ es) = n
persisted c (_ ∷ es) = persisted c es

-- `depth` is how often the mutex is held; `keeps` says that raw messages are off, and that the
-- cache file is compared.
pub record Inv {Msg : Type 0} (keeps : Bool) (c : Seqnums) (depth : ℕ) (s : Optiq Msg)
    : Type 0 where
  pub ready_up : s.state ≡ ready → (s.connection ≡ true) × (s.logged_on ≡ 1) × (s.hb ≡ true)
  pub logoff_up :
      s.state ≡ waiting_logoff → (s.connection ≡ true) × (s.logged_on ≡ 1) × (s.hb ≡ true)
  pub connected_up : s.state ≡ connected → s.connection ≡ true
  pub missed_bound : s.missed_hb ≤ 3
  pub lock_held : s.lock_depth ≡ depth
  pub raw_off : keeps ≡ true → s.raw_enabled ≡ false
  pub persistent : keeps ≡ true → persisted c s.trace ≡ s.seqnums

module _ {Msg : Type 0} (w : Bool) (c : Seqnums) (d : ℕ) where
  -- A reset gives the invariant whatever the session's state was.
  pub reset-Inv :
      (s : Optiq Msg)
      → s.lock_depth ≡ d
      → (w ≡ true → s.raw_enabled ≡ false)
      → (w ≡ true → persisted c s.trace ≡ s.seqnums)
      → Inv w c d (reset s)
  unfolding reset
  reset-Inv s h r p = ground arith

module _ (E : Env Seqnums) (k : Codes) (w : Bool) (c : Seqnums) (d : ℕ) where
  pub error-Inv :
      (t : String) (s : Optiq E.Msg)
      → s.lock_depth ≡ d
      → (w ≡ true → s.raw_enabled ≡ false)
      → (w ≡ true → persisted c s.trace ≡ s.seqnums)
      → Inv w c d (error E k t s)
  unfolding error persisted
  error-Inv t s h r p = ground (arith, reset-Inv w c d s)

  pub send_msg-Inv : (m : E.Msg) (s : Optiq E.Msg) → Inv w c d s → Inv w c d (send_msg E k m s).0
  unfolding send_msg persisted
  send_msg-Inv m s v = ground arith

  pub send_raw-Inv :
      (h : ℕ) (b : List ℕ) (s : Optiq E.Msg) → Inv w c d s → Inv w c d (send_raw E k h b s).0
  unfolding send_raw persisted
  send_raw-Inv h b s v = ground arith

  pub notify-Inv :
      (q : Callback) (n : ℤ) (m : E.Msg) (s : Optiq E.Msg)
      → Inv w c d s
      → Inv w c d (notify q n m s)
  unfolding persisted
  notify-Inv q n m s v = ground arith

  logoff-Inv :
      (m : E.Msg) (s : Optiq E.Msg) → Inv w c d s → Inv w c d (handle_logoff_response E k m s)
  unfolding handle_logoff_response persisted reset
  logoff-Inv m s v =
      ground (arith, error-Inv "unsolicited logoff from exchnage" (notify admin (pos 0) m s))

  pub call-Inv :
      (h : Handler) (n : ℤ) (m : E.Msg) (s : Optiq E.Msg)
      → Inv w c d s
      → Inv w c d (call E k h n m s)
  unfolding call handle_execution_msg handle_kill_msg handle_technical_reject_msg
      handle_test_request_msg handle_ack_msg handle_reject_msg
  call-Inv on_logout n m s v = logoff-Inv m s v
  call-Inv on_test_request n m s v = send_msg-Inv _ _ (notify-Inv admin (pos 0) m s v)
  call-Inv on_ack n m s v =
      ground (arith, notify-Inv order_ack n m s v, notify-Inv modify_ack n m s v)
  call-Inv on_reject n m s v = ground (
    arith,
    notify-Inv order_rejected n m s v,
    notify-Inv modify_rejected n m s v,
    notify-Inv cancel_rejected n m s v,
  )
  call-Inv _ n m s v = notify-Inv _ _ m s v

  accept_logon-Inv :
      (m : E.Msg) (s : Optiq E.Msg)
      → s.state ≡ connected
      → Inv w c d s
      → Inv w c d (accept_logon E k m s)
  unfolding accept_logon persisted
  accept_logon-Inv m s h v = ground arith

  refuse_logon-Inv : (m : E.Msg) (s : Optiq E.Msg) → Inv w c d s → Inv w c d (refuse_logon E k m s)
  unfolding refuse_logon persisted
  refuse_logon-Inv m s v = error-Inv _ _ (ground arith) v.raw_off (λ h. refl)

  await_logon-Inv :
      (t : ℤ) (m : E.Msg) (s : Optiq E.Msg)
      → s.state ≡ connected
      → Inv w c d s
      → Inv w c d (await_logon E k t m s)
  unfolding await_logon
  await_logon-Inv t m s h v = ground (
    arith,
    accept_logon-Inv m (notify admin (pos 0) m s) h (notify-Inv admin (pos 0) m s v),
    refuse_logon-Inv m (notify admin (pos 0) m s) (notify-Inv admin (pos 0) m s v),
    error-Inv "invalid template response after logon" s,
  )

  track-Inv : (m : E.Msg) (s : Optiq E.Msg) → Inv w c d s → Inv w c d (track E k m s)
  unfolding track persisted
  track-Inv m s v = ground arith

  seen-Inv : (s : Optiq E.Msg) → Inv w c d s → Inv w c d (record s { seen_hb = true })
  seen-Inv s v = ground arith

  pub handle_tcp_msg-Inv :
      (m : E.Msg) (s : Optiq E.Msg) → Inv w c d s → Inv w c d (handle_tcp_msg E k m s)
  unfolding handle_tcp_msg
  handle_tcp_msg-Inv m s v =
      let t = record s { seen_hb = true } in
      let id = or_else (E.get_integer m template_id) (pos 0) in
      let n = or_else (E.get_integer m msg_seq_num) (pos 0) in
      ground (
        arith,
        notify-Inv admin (pos 0) m t (seen-Inv s v),
        await_logon-Inv id m t,
        seen-Inv s v,
        call-Inv (handler_of E k id) n m (track E k m t) (track-Inv m t (seen-Inv s v)),
        error-Inv "invalid message during state READY or WAITING_LOGOFF" t,
      )
