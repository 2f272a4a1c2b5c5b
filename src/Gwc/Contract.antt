-- ===== src/Gwc/Contract.antt =====
-- What src/gwcConnector.h promises of every connector, as an interface: the pure virtual functions
-- that a client calls, and what a client relies on. The connectors fill it.
use fosdk.Common.{◌≡◌, Bool, true, false, Option, Holds}
use fosdk.Gwc.{Connector, init, waiting_logoff, Agrees, is_ready}

-- A connector's class: its objects, the events that change them, where `none` is one that does not
-- end, and the calls that a client makes.
pub record Session : Type 1 where
  pub State : Type 0
  pub Event : Type 0
  pub Msg : Type 0
  pub connector : State → Connector
  pub step : Event → State → Option State
  pub send_order : Msg → State → State × Bool
  pub send_cancel : Msg → State → State × Bool
  pub send_modify : Msg → State → State × Bool
  pub send_msg : Msg → State → State × Bool
  pub stop : State → State × Bool

module _ (S : Session) where
  -- A send on a session that is not ready is refused and leaves what all connectors share alone.
  abbrev pub Refuses : (S.Msg → S.State → S.State × Bool) → Type 0
  Refuses send =
      (m : S.Msg) (s : S.State)
      → is_ready (S.connector s).state ≡ false
      → ((send m s).1 ≡ false) × (S.connector (send m s).0 ≡ S.connector s)

  -- `fits` is what holds of the connectors in question between two events.
  pub record IsSession (fits : S.State → Type 0) : Type 0 where
    pub step-fits : (e : S.Event) (s : S.State) → fits s → Holds fits (S.step e s)
    pub stop-fits : (s : S.State) → fits s → fits (S.stop s).0
    pub fits-Agrees : (s : S.State) → fits s → Agrees (S.connector s)
    pub send_order-Refuses : Refuses S.send_order
    pub send_cancel-Refuses : Refuses S.send_cancel
    pub send_modify-Refuses : Refuses S.send_modify
    pub send_msg-Refuses : Refuses S.send_msg
    -- Before the session is ready there is nobody to log off from.
    pub stop-closes :
        (s : S.State)
        → is_ready (S.connector s).state ≡ false
        → ((S.stop s).1 ≡ true)
          × ((S.connector (S.stop s).0).state ≡ init)
          × ((S.connector (S.stop s).0).logged_on ≡ 0)
    -- A logoff that was sent is waited for.
    pub stop-waits :
        (s : S.State)
        → is_ready (S.connector s).state ≡ true
        → (S.stop s).1 ≡ true
        → (S.connector (S.stop s).0).state ≡ waiting_logoff
