-- ===== src/Swx/Control.antt =====
-- What comes to a connector of src/swx/gwcSwx.cpp, with the callbacks, start and stop that it has from
-- src/soupbin/gwcSoupBin.cpp.
use fosdk.Common.{ℕ, Bool, Option, none, some, String, List, [], ◌∷◌, if◌then◌else◌}
use fosdk.Gwc.Env.{Env}
use fosdk.SoupBin.{SoupBin, SeqNum}
use fosdk.SoupBin.Session.{send_raw}
use fosdk.SoupBin.Receive.{on_connection_read}
use fosdk.SoupBin.Control.{
  on_connection_ready, on_connection_error, on_hb_timeout, on_reconnect, start, stop,
}
use fosdk.Swx.{Codes, send_msg, send_order, send_cancel, send_modify}
use fosdk.Swx.Venues.{swx}

-- What can happen to a connector that was initialised.
pub data Event (Msg : Type 0) : Type 0 where
  tcp_ready tcp_error hb_timeout reconnect stops : Event Msg
  tcp_read sends_raw : List ℕ → Event Msg
  starts : Bool → Event Msg
  orders cancels modifies sends : Msg → Event Msg

module _ (E : Env SeqNum) (k : Codes) (clip : String → String) where
  abbrev pub after_read : Option (SoupBin E.Msg × ℕ) → Option (SoupBin E.Msg)
  after_read none = none
  after_read (some r) = some r.0

  -- A callback comes from a connection or a timer that is there. There is no next state when reading
  -- does not end.
  unfoldable pub step : Event E.Msg → SoupBin E.Msg → Option (SoupBin E.Msg)
  step tcp_ready s = some (if s.connection then on_connection_ready E (swx E k clip) s else s)
  step tcp_error s = some (if s.connection then on_connection_error E (swx E k clip) s else s)
  step hb_timeout s = some (if s.hb then on_hb_timeout E (swx E k clip) s else s)
  step reconnect s = some (if s.reconnect_timer then on_reconnect E (swx E k clip) s else s)
  step stops s = some (stop E (swx E k clip) s).0
  step (tcp_read bytes) s =
      if s.connection then after_read (on_connection_read E (swx E k clip) bytes s) else some s
  step (sends_raw bytes) s = some (send_raw E (swx E k clip) bytes s).0
  step (starts asked) s = some (start E (swx E k clip) asked s).0
  step (orders m) s = some (send_order E k m s).0
  step (cancels m) s = some (send_cancel E k m s).0
  step (modifies m) s = some (send_modify E k m s).0
  step (sends m) s = some (send_msg E k m s).0

  unfoldable pub run : List (Event E.Msg) → SoupBin E.Msg → Option (SoupBin E.Msg)
  run [] s = some s
  run (e ∷ es) s = elim (step e s) [ none ↦ none | some t ↦ run es t ]
