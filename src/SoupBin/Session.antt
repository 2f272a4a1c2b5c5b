-- ===== src/SoupBin/Session.antt =====
-- src/soupbin/gwcSoupBin.cpp: reset, resetHbTimer, error, updateSeqno, sendHeartBeat, sendRaw, and
-- the messages that concern the session.
use text.Mathlib.Text.{starts_with}
use fosdk.Common.{
  ℕ, ◌+◌, ◌%◌, Bool, true, false, ◌||◌, String, some, List, pos, if◌then◌else◌, or_else,
}
use fosdk.Gwc.{
  admin, ready, on_error, on_logged_on, on_logged_off, cached, reset_connector, logged_on_event,
  logged_off_event, is_ready, is_waiting_logoff,
}
use fosdk.Gwc.Env.{Env, message_type}
use fosdk.SoupBin.{SoupBin, SeqNum, Venue, emit, transmit, notify, in_state}

unfoldable pub reset : {Msg : Type 0} → SoupBin Msg → SoupBin Msg
reset s = record s {
  base = reset_connector s.base;
  connection = false;
  hb = false;
  reconnect_timer = false;
}

-- The old timer, if there is one, goes.
unfoldable pub reset_hb_timer : {Msg : Type 0} → SoupBin Msg → SoupBin Msg
reset_hb_timer s = record s { hb = true }

-- isSessionMessage, of the first character of a text.
unfoldable pub is_session_message : String → Bool
is_session_message t =
    starts_with t "A" || (starts_with t "J" || (starts_with t "H" || starts_with t "Z"))

module _ (E : Env SeqNum) (V : Venue E) where
  -- The client's answer decides whether the reconnect timer is started.
  unfoldable pub error : String → SoupBin E.Msg → SoupBin E.Msg
  unfolding reset
  error err s =
      let t = emit (on_error err) (reset s) in
      if E.reconnects t.trace err then record t { reconnect_timer = true } else t

  abbrev store_item : SeqNum → SoupBin E.Msg → SoupBin E.Msg
  store_item item s = emit (cached item) (record s { cache_item = some item })

  -- The cache item is written, or added if there is none.
  unfoldable pub update_seqno : String → ℕ → SoupBin E.Msg → SoupBin E.Msg
  update_seqno session seqno s = store_item (record { seqno = seqno; session = V.clip session }) s

  unfoldable pub send_heart_beat : SoupBin E.Msg → SoupBin E.Msg
  send_heart_beat s = (V.send_msg (E.set_string E.empty message_type "R") s).0

  unfoldable pub send_raw : List ℕ → SoupBin E.Msg → SoupBin E.Msg × Bool
  send_raw bytes s =
      if s.raw_enabled
      then (if is_ready s.state then (transmit bytes s, true) else (s, false))
      else (s, false)

  unfoldable pub login_accepted : E.Msg → SoupBin E.Msg → SoupBin E.Msg
  unfolding reset_hb_timer
  login_accepted msg s =
      let t =
        in_state ready (emit (on_logged_on (pos 0) msg) (notify admin s.sequence_number msg s)) in
      reset_hb_timer (record t { base = logged_on_event t.base })

  unfoldable pub login_rejected : E.Msg → SoupBin E.Msg → SoupBin E.Msg
  unfolding reset
  login_rejected msg s =
      let t = notify admin s.sequence_number msg s in
      if is_waiting_logoff t.state
      then (let u = emit (on_logged_off (pos t.sequence_number) msg) (reset t) in
          record u { base = logged_off_event u.base })
      else error "unsolicited logoff from exchnage" t

  unfoldable pub handle_session_message : E.Msg → SoupBin E.Msg → SoupBin E.Msg
  unfolding login_accepted login_rejected
  handle_session_message msg s =
      let t = or_else (E.get_string msg message_type) "" in
      if starts_with t "A"
      then login_accepted msg s
      else if starts_with t "J"
      then login_rejected msg s
      else if starts_with t "H"
      then notify admin s.sequence_number msg s
      else s

  -- A sequenced message takes the next number, modulo 2 ^ 32.
  unfoldable pub next_sequenced : SoupBin E.Msg → SoupBin E.Msg
  next_sequenced s =
      let n = (s.sequence_number + 1) % 4294967296 in
      update_seqno s.session n (record s { sequence_number = n })

  unfoldable pub handle_real_time_msg : E.Msg → SoupBin E.Msg → SoupBin E.Msg
  unfolding next_sequenced
  handle_real_time_msg msg s =
      let u = record s { seen_message = true } in
      let t = or_else (E.get_string msg message_type) "" in
      if is_session_message t
      then handle_session_message msg u
      else if starts_with t "U"
      then V.handle_unsequenced_message msg u
      else if starts_with t "S"
      then V.handle_sequenced_message msg (next_sequenced u)
      else u
