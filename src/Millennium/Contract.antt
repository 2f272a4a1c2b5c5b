-- ===== src/Millennium/Contract.antt =====
-- A connector of src/millennium/gwcMillennium.cpp fills the interface of src/gwcConnector.h.
use fosdk.Common.{◌≡◌, true, false, ℕ, Option, arith}
use fosdk.Gwc.{init, waiting_logoff, is_ready}
use fosdk.Gwc.Env.{Env}
use fosdk.Gwc.Contract.{Session, IsSession, Refuses}
use fosdk.Millennium.{Millennium, SeqNum, Layout}
use fosdk.Millennium.Session.{reset, send_msg, send_order, send_cancel, send_modify}
use fosdk.Millennium.Control.{Event, stop, step, stops}
use fosdk.Millennium.Kept.{Kept}
use fosdk.Millennium.Runs.{step-Kept}

module _ (E : Env SeqNum) (L : Layout E.Msg) (c : ℕ → Option ℕ) (k : ℕ) where
  abbrev pub millennium_session : Session
  millennium_session = record {
    State = Millennium E.Msg;
    Event = Event E.Msg;
    Msg = E.Msg;
    connector = λ s. s.base;
    step = step E L;
    send_order = send_order E;
    send_cancel = send_cancel E;
    send_modify = send_modify E;
    send_msg = send_msg E;
    stop = stop E L;
  }

  send_msg-Refuses : Refuses millennium_session (send_msg E)
  unfolding send_msg
  send_msg-Refuses m s e = ground (arith, e)

  stop-closes :
      (s : Millennium E.Msg)
      → is_ready s.state ≡ false
      → ((stop E L s).1 ≡ true) × ((stop E L s).0.state ≡ init) × ((stop E L s).0.logged_on ≡ 0)
  unfolding stop reset
  stop-closes s e = ground arith

  stop-waits :
      (s : Millennium E.Msg)
      → is_ready s.state ≡ true
      → (stop E L s).1 ≡ true
      → (stop E L s).0.state ≡ waiting_logoff
  unfolding stop
  stop-waits s e g = ground arith

  -- A connector of gwcMillennium keeps the promises of gwcConnector, in every state that is logged on
  -- when it is up, and whose number for a partition is that of the cache file.
  pub millennium_session-IsSession : IsSession millennium_session (Kept E L c k)
  unfolding step send_order send_cancel send_modify
  millennium_session-IsSession = record {
    step-fits = step-Kept E L c k;
    stop-fits = λ s h. step-Kept E L c k stops s h;
    fits-Agrees = λ s h. h.1;
    send_order-Refuses = λ m s e. send_msg-Refuses _ s e;
    send_cancel-Refuses = λ m s e. send_msg-Refuses _ s e;
    send_modify-Refuses = λ m s e. send_msg-Refuses _ s e;
    send_msg-Refuses = send_msg-Refuses;
    stop-closes = stop-closes;
    stop-waits = stop-waits;
  }
