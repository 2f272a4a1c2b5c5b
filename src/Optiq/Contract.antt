-- ===== src/Optiq/Contract.antt =====
-- A connector of src/optiq/gwcOptiq.cpp fills the interface of src/gwcConnector.h.
use fosdk.Common.{◌≡◌, true, false, ℕ, arith}
use fosdk.Gwc.{init, waiting_logoff, is_ready}
use fosdk.Gwc.Env.{Env}
use fosdk.Gwc.Contract.{Session, IsSession, Refuses}
use fosdk.Optiq.{Optiq, Codes, Seqnums}
use fosdk.Optiq.Session.{reset, send_msg, send_order, send_cancel, send_modify}
use fosdk.Optiq.Raw.{Packet}
use fosdk.Optiq.Control.{
  Event, tcp_ready, tcp_error, hb_timeout, reconnect, tcp_read, starts, orders, cancels, modifies,
  sends, sends_raw, stop, step, stops,
}
use fosdk.Optiq.Invariant.{Inv}
use fosdk.Optiq.Safety.{Allowed, step-Inv}

all-Allowed : {Msg : Type 0} (e : Event Msg) → Allowed false e
unfolding Allowed
all-Allowed (starts asked) = λ h. ground arith
all-Allowed tcp_ready = tt
all-Allowed tcp_error = tt
all-Allowed hb_timeout = tt
all-Allowed reconnect = tt
all-Allowed stops = tt
all-Allowed (tcp_read b) = tt
all-Allowed (orders m) = tt
all-Allowed (cancels m) = tt
all-Allowed (modifies m) = tt
all-Allowed (sends m) = tt
all-Allowed (sends_raw b) = tt

module _ (E : Env Seqnums) (k : Codes) (p : Packet) (c : Seqnums) (d : ℕ) where
  abbrev pub optiq_session : Session
  optiq_session = record {
    State = Optiq E.Msg;
    Event = Event E.Msg;
    Msg = E.Msg;
    connector = λ s. s.base;
    step = step E k p;
    send_order = send_order E k;
    send_cancel = send_cancel E k;
    send_modify = send_modify E k;
    send_msg = send_msg E k;
    stop = stop E k;
  }

  send_msg-Refuses : Refuses optiq_session (send_msg E k)
  unfolding send_msg
  send_msg-Refuses m s e = ground (arith, e)

  stop-closes :
      (s : Optiq E.Msg)
      → is_ready s.state ≡ false
      → ((stop E k s).1 ≡ true) × ((stop E k s).0.state ≡ init) × ((stop E k s).0.logged_on ≡ 0)
  unfolding stop reset
  stop-closes s e = ground arith

  stop-waits :
      (s : Optiq E.Msg)
      → is_ready s.state ≡ true
      → (stop E k s).1 ≡ true
      → (stop E k s).0.state ≡ waiting_logoff
  unfolding stop send_msg
  stop-waits s e g = ground arith

  -- A connector of gwcOptiq keeps the promises of gwcConnector, in every state that satisfies the
  -- invariant of an Optiq connector, with raw messages on or off.
  pub optiq_session-IsSession : IsSession optiq_session (Inv false c d)
  unfolding step send_order send_cancel send_modify Allowed
  optiq_session-IsSession = record {
    step-fits = λ e s h. step-Inv E k p false c d e s (all-Allowed e) h;
    stop-fits = λ s h. step-Inv E k p false c d stops s tt h;
    fits-Agrees = λ s h. ground (arith, h.ready_up, h.logoff_up);
    send_order-Refuses = λ m s e. send_msg-Refuses _ s e;
    send_cancel-Refuses = λ m s e. send_msg-Refuses _ s e;
    send_modify-Refuses = λ m s e. send_msg-Refuses _ s e;
    send_msg-Refuses = send_msg-Refuses;
    stop-closes = stop-closes;
    stop-waits = stop-waits;
  }
