-- ===== src/Swx/Contract.antt =====
-- A connector of src/swx/gwcSwx.cpp fills the interface of src/gwcConnector.h.
use fosdk.Common.{String, arith, ◌≡◌, true, false}
use fosdk.Gwc.{init, waiting_logoff, is_ready}
use fosdk.Gwc.Env.{Env}
use fosdk.Gwc.Contract.{Session, IsSession, Refuses}
use fosdk.SoupBin.{SoupBin, SeqNum}
use fosdk.SoupBin.Session.{reset}
use fosdk.SoupBin.Control.{stop}
use fosdk.Swx.{Codes, send_msg, send_order, send_cancel, send_modify}
use fosdk.Swx.Venues.{swx}
use fosdk.Swx.Control.{Event, step, stops}
use fosdk.Swx.Invariant.{Inv}
use fosdk.Swx.Histories.{step-Inv}

module _ (E : Env SeqNum) (k : Codes) (clip : String → String) where
  abbrev pub swx_session : Session
  swx_session = record {
    State = SoupBin E.Msg;
    Event = Event E.Msg;
    Msg = E.Msg;
    connector = λ s. s.base;
    step = step E k clip;
    send_order = send_order E k;
    send_cancel = send_cancel E k;
    send_modify = send_modify E k;
    send_msg = send_msg E k;
    stop = stop E (swx E k clip);
  }

  send_msg-Refuses : Refuses swx_session (send_msg E k)
  unfolding send_msg
  send_msg-Refuses m s e = ground (arith, e)

  stop-closes :
      (s : SoupBin E.Msg)
      → is_ready s.state ≡ false
      → ((stop E (swx E k clip) s).1 ≡ true)
        × ((stop E (swx E k clip) s).0.state ≡ init)
        × ((stop E (swx E k clip) s).0.logged_on ≡ 0)
  unfolding stop reset
  stop-closes s e = ground arith

  stop-waits :
      (s : SoupBin E.Msg)
      → is_ready s.state ≡ true
      → (stop E (swx E k clip) s).1 ≡ true
      → (stop E (swx E k clip) s).0.state ≡ waiting_logoff
  unfolding stop
  stop-waits s e g = ground arith

  -- A connector of gwcSwx keeps the promises of gwcConnector, in every state whose flag is that of the
  -- session and where a session that is up has its timer.
  pub swx_session-IsSession : IsSession swx_session (Inv {Msg = E.Msg})
  unfolding step send_order send_cancel send_modify
  swx_session-IsSession = record {
    step-fits = step-Inv E k clip;
    stop-fits = λ s h. step-Inv E k clip stops s h;
    fits-Agrees = λ s h. ground arith;
    send_order-Refuses = λ m s e. send_msg-Refuses _ s e;
    send_cancel-Refuses = λ m s e. send_msg-Refuses _ s e;
    send_modify-Refuses = λ m s e. send_msg-Refuses _ s e;
    send_msg-Refuses = send_msg-Refuses;
    stop-closes = stop-closes;
    stop-waits = stop-waits;
  }
