-- ===== src/Eti/Contract.antt =====
-- A connector of src/eti/gwcEti.cpp fills the interface of src/gwcConnector.h.
use fosdk.Common.{◌≡◌, true, false, arith}
use fosdk.Gwc.{init, waiting_logoff, is_ready}
use fosdk.Gwc.Env.{Env}
use fosdk.Gwc.Contract.{Session, IsSession, Refuses}
use fosdk.Eti.{Eti, Item, Ids}
use fosdk.Eti.Session.{reset, send, send_msg, send_order, send_cancel, send_modify}
use fosdk.Eti.Control.{Event, stop_not_ready, stop, step, stops}
use fosdk.Eti.Invariant.{Inv}
use fosdk.Eti.Histories.{step-Inv}

module _ (E : Env Item) (I : Ids) where
  abbrev pub eti_session : Session
  eti_session = record {
    State = Eti E.Msg;
    Event = Event E.Msg;
    Msg = E.Msg;
    connector = λ s. s.base;
    step = step E I;
    send_order = send_order E;
    send_cancel = send_cancel E;
    send_modify = send_modify E;
    send_msg = send_msg E;
    stop = stop E I;
  }

  send_msg-Refuses : Refuses eti_session (send_msg E)
  unfolding send_msg send
  send_msg-Refuses m s e = ground (arith, e)

  stop-closes :
      (s : Eti E.Msg)
      → is_ready s.state ≡ false
      → ((stop E I s).1 ≡ true) × ((stop E I s).0.state ≡ init) × ((stop E I s).0.logged_on ≡ 0)
  unfolding stop stop_not_ready reset
  stop-closes s e = ground arith

  stop-waits :
      (s : Eti E.Msg)
      → is_ready s.state ≡ true
      → (stop E I s).1 ≡ true
      → (stop E I s).0.state ≡ waiting_logoff
  unfolding stop
  stop-waits s e g = ground arith

  -- A connector of gwcEti keeps the promises of gwcConnector, in every state that satisfies the
  -- invariant of an ETI connector.
  pub eti_session-IsSession : IsSession eti_session (Inv {Msg = E.Msg})
  unfolding step send_order send_cancel send_modify
  eti_session-IsSession = record {
    step-fits = step-Inv E I;
    stop-fits = λ s h. step-Inv E I stops s h;
    fits-Agrees = λ s h. h.4;
    send_order-Refuses = λ m s e. send_msg-Refuses _ s e;
    send_cancel-Refuses = λ m s e. send_msg-Refuses _ s e;
    send_modify-Refuses = λ m s e. send_msg-Refuses _ s e;
    send_msg-Refuses = send_msg-Refuses;
    stop-closes = stop-closes;
    stop-waits = stop-waits;
  }
