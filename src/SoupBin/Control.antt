-- ===== src/SoupBin/Control.antt =====
-- src/soupbin/gwcSoupBin.cpp: connection and timer callbacks, start and stop.
use fosdk.Common.{
  ℕ, Bool, true, false, not, String, Option, none, some, ℤ, pos, if◌then◌else◌, or_else,
}
use fosdk.Gwc.{waiting_logoff, on_logging_on, on_logged_off, opened, logged_off_event, is_ready}
use fosdk.Gwc.Env.{
  Env, message_type, username, password, requested_session, requested_sequence_number,
}
use fosdk.SoupBin.{SoupBin, SeqNum, Venue, emit, transmit, in_state, low_32}
use fosdk.SoupBin.Session.{reset, error, send_heart_beat}

module _ (E : Env SeqNum) (V : Venue E) where
  unfoldable pub asks : String → ℕ → E.Msg → E.Msg
  asks session n m =
      E.set_integer (E.set_string m requested_session session) requested_sequence_number (pos n)

  -- What the cache file holds replaces the session and the number.
  unfoldable pub from_cache : SoupBin E.Msg → SoupBin E.Msg
  from_cache s = elim s.cache_item [
    | none ↦ s
    | some c ↦ record s { sequence_number = c.seqno; session = c.session }
  ]

  unfoldable pub logon_msg : SoupBin E.Msg → E.Msg
  unfolding asks
  logon_msg s =
      let d = E.set_string E.empty message_type "L" in
      let d1 = asks "" s.sequence_number (E.set_string (E.set_string d username "") password "") in
      elim s.cache_item [ none ↦ d1 | some c ↦ asks c.session c.seqno d1 ]

  -- `getInteger` into a uint32_t that holds `n`.
  unfoldable pub stored_number : Option ℤ → ℕ → ℕ
  stored_number none n = n
  stored_number (some v) n = low_32 v

  -- The session and the number are those of the message as the client leaves it.
  unfoldable pub on_connection_ready : SoupBin E.Msg → SoupBin E.Msg
  unfolding logon_msg from_cache
  on_connection_ready s =
      let d = E.logging_on s.trace (logon_msg s) in
      let t = emit (on_logging_on d) (from_cache s) in
      let u = record t {
        session = or_else (E.get_string d requested_session) t.session;
        sequence_number =
            stored_number (E.get_integer d requested_sequence_number) t.sequence_number;
      } in
      elim (E.encode d) [ none ↦ u | some bytes ↦ transmit bytes u ]

  unfoldable pub on_connection_error : SoupBin E.Msg → SoupBin E.Msg
  on_connection_error s = error E V "tcp drop on real time connection" s

  unfoldable pub on_hb_timeout : SoupBin E.Msg → SoupBin E.Msg
  on_hb_timeout s =
      if not s.seen_message
      then error E V "missed heartbeats" s
      else record (send_heart_beat E V s) { seen_message = false }

  -- The argument of start is not used.
  unfoldable pub start : Bool → SoupBin E.Msg → SoupBin E.Msg × Bool
  start asked s = let t = emit opened (record s { connection = true }) in (t, E.connects t.trace)

  unfoldable pub on_reconnect : SoupBin E.Msg → SoupBin E.Msg
  unfolding start
  on_reconnect s = (start false s).0

  unfoldable pub stop : SoupBin E.Msg → SoupBin E.Msg × Bool
  unfolding reset
  stop s =
      let logoff = E.set_string E.empty message_type "O" in
      if is_ready s.state
      then elim (E.encode logoff) [
        | none ↦ (in_state waiting_logoff s, false)
        | some bytes ↦ (transmit bytes (in_state waiting_logoff s), true)
      ]
      else (let t = emit (on_logged_off (pos 0) logoff) (reset s) in
          (record t { base = logged_off_event t.base }, true))
