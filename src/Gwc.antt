-- ===== src/Gwc.antt =====
-- src/gwcConnector.h: the connector's states, the part of its state that every venue shares, and
-- the calls by which it is seen from outside. The mutex `mLock` is recursive; its depth is kept as
-- a number, so that an operation that leaves it locked can be told from one that does not. Here the
-- `...Event` functions write their flag; the signal that they give with it is in Gwc/Wait.
pub mod Order
pub mod Env
pub mod Sample
pub mod Stream
pub mod Keyed
pub mod System
pub mod Wait
pub mod Wakeup
pub mod Lost
pub mod Contract
pub mod Factory
mod Tests
use fosdk.Common.{ℕ, ◌+◌, ◌-◌, ◌≡◌, Bool, true, false, String, List, [], ◌∷◌, arith, ℤ}

pub data ConnectorState : Type 0 where
  init connected waiting_logon waiting_trader_logon : ConnectorState
  ready waiting_logoff waiting_trader_logoff : ConnectorState

-- The methods of gwcMessageCallbacks that take a sequence number and a decoded message.
pub data Callback : Type 0 where
  admin order_ack order_rejected order_done order_fill : Callback
  modify_ack modify_rejected cancel_rejected other : Callback

-- What a connector does to the outside; a connector keeps a list of these, newest first. `Cache` is
-- the record that a venue keeps in its cache file; `cached` stands for a write and its flush, and
-- `null_used` for a call through a null pointer, after which nothing has a meaning.
pub data Effect (Msg Cache : Type 0) : Type 0 where
  on_logging_on : Msg → Effect Msg Cache
  on_error : String → Effect Msg Cache
  on_logged_on : ℤ → Msg → Effect Msg Cache
  on_logged_off : ℤ → Msg → Effect Msg Cache
  notified : Callback → ℤ → Msg → Effect Msg Cache
  on_raw_msg : ℤ → List ℕ → Effect Msg Cache
  sent : List ℕ → Effect Msg Cache
  cached : Cache → Effect Msg Cache
  opened : Effect Msg Cache
  wrote_in : List ℕ → Effect Msg Cache
  wrote_out : List ℕ → Effect Msg Cache
  on_trader_logged_on : Msg → Effect Msg Cache
  on_trader_logged_off : Msg → Effect Msg Cache
  on_trader_logging_off : Msg → Effect Msg Cache
  sent_recovery : List ℕ → Effect Msg Cache
  opened_recovery : Effect Msg Cache
  null_used : Effect Msg Cache

-- Whether a null pointer was called through.
unfoldable pub uses_null : {Msg Cache : Type 0} → List (Effect Msg Cache) → Bool
uses_null [] = false
uses_null (null_used ∷ es) = true
uses_null (_ ∷ es) = uses_null es

-- The protected members of gwcConnector.
pub record Connector : Type 0 where
  pub state : ConnectorState
  pub logged_on : ℕ
  pub trader_logged_on : ℕ
  pub raw_enabled : Bool
  pub lock_depth : ℕ

-- The constructor leaves mTraderLoggedOn as it finds it.
unfoldable pub new_connector : ℕ → Connector
new_connector uninitialised = record {
  state = init;
  logged_on = 0;
  trader_logged_on = uninitialised;
  raw_enabled = false;
  lock_depth = 0;
}

abbrev pub reset_connector : Connector → Connector
reset_connector c = record c { state = init; logged_on = 0; trader_logged_on = 0 }

abbrev pub logged_on_event : Connector → Connector
logged_on_event c = record c { logged_on = 1 }

abbrev pub logged_off_event : Connector → Connector
logged_off_event c = record c { logged_on = 0 }

abbrev pub trader_logged_on_event : Connector → Connector
trader_logged_on_event c = record c { trader_logged_on = 1 }

abbrev pub trader_logged_off_event : Connector → Connector
trader_logged_off_event c = record c { trader_logged_on = 0 }

abbrev pub lock : Connector → Connector
lock c = record c { lock_depth = c.lock_depth + 1 }

abbrev pub unlock : Connector → Connector
unlock c = record c { lock_depth = c.lock_depth - 1 }

abbrev pub set_state : ConnectorState → Connector → Connector
set_state q c = record c { state = q }

abbrev pub is_ready : ConnectorState → Bool
is_ready ready = true
is_ready _ = false

abbrev pub is_connected : ConnectorState → Bool
is_connected connected = true
is_connected _ = false

abbrev pub is_waiting_logoff : ConnectorState → Bool
is_waiting_logoff waiting_logoff = true
is_waiting_logoff _ = false

-- A session that is ready, or waits for the answer to its logoff, counts as logged on.
abbrev pub Agrees : Connector → Type 0
Agrees c =
    (is_ready c.state ≡ true → c.logged_on ≡ 1)
    × (is_waiting_logoff c.state ≡ true → c.logged_on ≡ 1)

-- Up: logged on, and not yet logged off.
abbrev pub is_up : ConnectorState → Bool
is_up ready = true
is_up waiting_logoff = true
is_up _ = false
