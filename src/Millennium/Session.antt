-- ===== src/Millennium/Session.antt =====
-- src/millennium/gwcMillennium.cpp: updateSeqno, reset, error, sendMsg, sendRaw and the sends that
-- set a message type.
use fosdk.Common.{ℕ, Bool, true, false, String, none, some, List, pos, if◌then◌else◌}
use fosdk.Gwc.{cached, on_error, reset_connector, is_ready}
use fosdk.Gwc.Env.{Env, message_type}
use fosdk.Millennium.{Millennium, SeqNum, absent, emit, send_real_time}
use fosdk.Gwc.Keyed.{update}

unfoldable pub reset : {Msg : Type 0} → Millennium Msg → Millennium Msg
reset s = record s {
  base = reset_connector s.base;
  real_time = absent;
  recovery = absent;
  hb = false;
  reconnect_timer = false;
  seen_hb = false;
  waiting_downloads = pos 0;
}

-- The partition's item is written, or added if there is none.
unfoldable pub update_seqno : {Msg : Type 0} → ℕ → ℕ → Millennium Msg → Millennium Msg
update_seqno part_id seqno s =
    emit (cached (record { partition = part_id; seqno = seqno }))
      (record s { cache_map = update part_id seqno s.cache_map })

module _ (E : Env SeqNum) where
  -- The client's answer decides whether the reconnect timer is started.
  unfoldable pub error : String → Millennium E.Msg → Millennium E.Msg
  unfolding reset
  error err s =
      let t = emit (on_error err) (reset s) in
      if E.reconnects t.trace err then record t { reconnect_timer = true } else t

  unfoldable pub send_msg : E.Msg → Millennium E.Msg → Millennium E.Msg × Bool
  send_msg msg s =
      if is_ready s.state
      then elim (E.encode msg) [ none ↦ (s, false) | some bytes ↦ (send_real_time bytes s, true) ]
      else (s, false)

  unfoldable pub send_raw : List ℕ → Millennium E.Msg → Millennium E.Msg × Bool
  send_raw bytes s =
      if s.raw_enabled
      then (if is_ready s.state then (send_real_time bytes s, true) else (s, false))
      else (s, false)

  unfoldable pub send_order : E.Msg → Millennium E.Msg → Millennium E.Msg × Bool
  send_order order s = send_msg (E.set_string order message_type "D") s

  unfoldable pub send_cancel : E.Msg → Millennium E.Msg → Millennium E.Msg × Bool
  send_cancel cancel s = send_msg (E.set_string cancel message_type "F") s

  unfoldable pub send_modify : E.Msg → Millennium E.Msg → Millennium E.Msg × Bool
  send_modify modify s = send_msg (E.set_string modify message_type "G") s
