-- ===== src/Millennium/Control.antt =====
-- src/millennium/gwcMillennium.cpp: connection and timer callbacks, start and stop; and the events
-- that the dispatch thread and the client bring to the connector.
use fosdk.Common.{ℕ, Bool, true, false, Option, none, some, List, [], ◌∷◌, pos, if◌then◌else◌}
use fosdk.Gwc.{waiting_logoff, on_logging_on, on_logged_off, opened, logged_off_event, is_ready}
use fosdk.Gwc.Env.{Env, message_type, user_name, password, new_password, message_version, reason}
use fosdk.Millennium.{
  Millennium, SeqNum, Layout, Link, created, connected, emit, in_state, send_real_time,
  send_recovery,
}
use fosdk.Millennium.Session.{
  reset, error, send_msg, send_raw, send_order, send_cancel, send_modify,
}
use fosdk.Millennium.Receive.{encoded}
use fosdk.Millennium.Raw.{on_real_time_connection_read, on_recovery_connection_read}

-- What can happen to a connector that was initialised.
pub data Event (Msg : Type 0) : Type 0 where
  real_time_ready real_time_error recovery_ready recovery_error : Event Msg
  hb_timeout reconnect starts stops : Event Msg
  real_time_read recovery_read sends_raw : List ℕ → Event Msg
  orders cancels modifies sends : Msg → Event Msg

abbrev pub is_connected : Link → Bool
is_connected connected = true
is_connected _ = false

module _ (E : Env SeqNum) (L : Layout E.Msg) where
  -- The logon message of both connections, before the client adds to it.
  unfoldable pub logon : E.Msg
  logon =
      let d = E.set_string E.empty message_type "A" in
      let d1 = E.set_string (E.set_string d user_name "") password "" in
      E.set_integer (E.set_string d1 new_password "") message_version (pos 1)

  unfoldable pub on_real_time_connection_ready : Millennium E.Msg → Millennium E.Msg
  on_real_time_connection_ready s =
      let d = E.logging_on s.trace logon in
      let t = emit (on_logging_on d) s in
      elim (E.encode d) [ none ↦ t | some bytes ↦ send_real_time bytes t ]

  unfoldable pub on_recovery_connection_ready : Millennium E.Msg → Millennium E.Msg
  on_recovery_connection_ready s =
      let d = E.logging_on s.trace logon in
      let t = emit (on_logging_on d) s in
      elim (E.encode d) [ none ↦ t | some bytes ↦ send_recovery bytes t ]

  unfoldable pub on_real_time_connection_error : Millennium E.Msg → Millennium E.Msg
  on_real_time_connection_error s = error E "tcp drop on real time connection" s

  unfoldable pub on_recovery_connection_error : Millennium E.Msg → Millennium E.Msg
  on_recovery_connection_error s = error E "tcp drop recovery connection" s

  unfoldable pub on_hb_timeout : Millennium E.Msg → Millennium E.Msg
  on_hb_timeout s =
      if s.seen_hb then record s { seen_hb = false } else error E "missed heartbeats" s

  -- Connections that are there are not deleted; new ones take their place.
  unfoldable pub start : Bool → Millennium E.Msg → Millennium E.Msg × Bool
  start asked s =
      let t = emit opened (record s { recovery = created }) in
      if E.connects t.trace
      then (record t { real_time = connected }, true)
      else (record t { real_time = created }, false)

  unfoldable pub on_reconnect : Millennium E.Msg → Millennium E.Msg
  unfolding start
  on_reconnect s = (start false s).0

  unfoldable pub stop : Millennium E.Msg → Millennium E.Msg × Bool
  stop s =
      let logoff = E.set_string E.empty message_type "5" in
      if is_ready s.state
      then (let m = E.set_string logoff reason "logoff" in
          (send_real_time (encoded E L m) (in_state waiting_logoff s), true))
      else (let t = emit (on_logged_off (pos 0) logoff) (reset s) in
          (record t { base = logged_off_event t.base }, true))

  abbrev pub after_read : Option (Millennium E.Msg × ℕ) → Option (Millennium E.Msg)
  after_read none = none
  after_read (some r) = some r.0

  -- A callback comes from a connection that has connected, or a timer that is there. There is no
  -- next state when reading does not end.
  unfoldable pub step : Event E.Msg → Millennium E.Msg → Option (Millennium E.Msg)
  step real_time_ready s =
      some (if is_connected s.real_time then on_real_time_connection_ready s else s)
  step real_time_error s =
      some (if is_connected s.real_time then on_real_time_connection_error s else s)
  step recovery_ready s =
      some (if is_connected s.recovery then on_recovery_connection_ready s else s)
  step recovery_error s =
      some (if is_connected s.recovery then on_recovery_connection_error s else s)
  step hb_timeout s = some (if s.hb then on_hb_timeout s else s)
  step reconnect s = some (if s.reconnect_timer then on_reconnect s else s)
  step starts s = some (start false s).0
  step stops s = some (stop s).0
  step (real_time_read bytes) s =
      if is_connected s.real_time
      then after_read (on_real_time_connection_read E L bytes s)
      else some s
  step (recovery_read bytes) s =
      if is_connected s.recovery
      then after_read (on_recovery_connection_read E L bytes s)
      else some s
  step (sends_raw bytes) s = some (send_raw E bytes s).0
  step (orders m) s = some (send_order E m s).0
  step (cancels m) s = some (send_cancel E m s).0
  step (modifies m) s = some (send_modify E m s).0
  step (sends m) s = some (send_msg E m s).0

  unfoldable pub run : List (Event E.Msg) → Millennium E.Msg → Option (Millennium E.Msg)
  run [] s = some s
  run (e ∷ es) s = elim (step e s) [ none ↦ none | some t ↦ run es t ]
