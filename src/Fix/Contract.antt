-- ===== src/Fix/Contract.antt =====
-- A connector of src/fix/gwcFix.cpp fills the interface of src/gwcConnector.h.
use fosdk.Common.{◌≡◌, true, false, ℕ, some, arith}
use fosdk.Gwc.{init, waiting_logoff, is_ready}
use fosdk.Gwc.Env.{Env}
use fosdk.Gwc.Contract.{Session, IsSession, Refuses}
use fosdk.Fix.{Fix, Seqnums}
use fosdk.Fix.Session.{reset, send_msg, send_order, send_cancel, send_modify}
use fosdk.Fix.Control.{Event, stop, step, stops}
use fosdk.Fix.Invariant.{Inv}
use fosdk.Fix.Safety.{step-Inv}

module _ (E : Env Seqnums) (c : Seqnums) (d : ℕ) where
  abbrev pub fix_session : Session
  fix_session = record {
    State = Fix E.Msg;
    Event = Event E;
    Msg = E.Msg;
    connector = λ s. s.base;
    step = λ e s. some (step E e s);
    send_order = send_order E;
    send_cancel = send_cancel E;
    send_modify = send_modify E;
    send_msg = send_msg E;
    stop = stop E;
  }

  send_msg-Refuses : Refuses fix_session (send_msg E)
  unfolding send_msg
  send_msg-Refuses m s e = ground (arith, e)

  stop-closes :
      (s : Fix E.Msg)
      → is_ready s.state ≡ false
      → ((stop E s).1 ≡ true) × ((stop E s).0.state ≡ init) × ((stop E s).0.logged_on ≡ 0)
  unfolding stop reset
  stop-closes s e = ground arith

  stop-waits :
      (s : Fix E.Msg)
      → is_ready s.state ≡ true
      → (stop E s).1 ≡ true
      → (stop E s).0.state ≡ waiting_logoff
  unfolding stop send_msg
  stop-waits s e g = ground arith

  -- A connector of gwcFix keeps the promises of gwcConnector, in every state that satisfies the
  -- invariant of a FIX connector.
  pub fix_session-IsSession : IsSession fix_session (Inv c d)
  unfolding step send_order send_cancel send_modify
  fix_session-IsSession = record {
    step-fits = step-Inv E c d;
    stop-fits = λ s h. step-Inv E c d stops s h;
    fits-Agrees = λ s h. ground (arith, h.ready_up, h.logoff_up);
    send_order-Refuses = λ m s e. send_msg-Refuses _ s e;
    send_cancel-Refuses = λ m s e. send_msg-Refuses _ s e;
    send_modify-Refuses = λ m s e. send_msg-Refuses _ s e;
    send_msg-Refuses = send_msg-Refuses;
    stop-closes = stop-closes;
    stop-waits = stop-waits;
  }
