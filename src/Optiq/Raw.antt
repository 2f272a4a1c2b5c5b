-- ===== src/Optiq/Raw.antt =====
-- src/optiq/gwcOptiq.cpp: isSessionMessage and onTcpConnectionRead. A round of the raw loop is a
-- function of its own; the loop runs on fuel, and has no result when the fuel is used up.
use fosdk.Common.{
  ℕ, zero, suc, ◌+◌, ◌-◌, ◌*◌, Bool, true, ◌||◌, Option, none, some, List, pos, eqb_ℤ, ltb,
  if◌then◌else◌, length, drop, take, get_or,
}
use fosdk.Gwc.{on_raw_msg}
use fosdk.Gwc.Env.{Env, error, short, abort, success}
use fosdk.Optiq.{Optiq, Codes, Seqnums, emit, set_inbound}
use fosdk.Optiq.Receive.{handle_tcp_msg, read_loop}

-- optiqMessageHeaderPacket of the codec: its size and the template it holds; and the value that a
-- byte behind the end of the buffer is read as.
pub record Packet : Type 0 where
  pub header : ℕ
  pub template : List ℕ → ℕ
  pub beyond : ℕ

-- A uint16_t in memory, low byte first.
unfoldable pub u16_at : Packet → List ℕ → ℕ → ℕ
u16_at p bytes i = get_or bytes i p.beyond + get_or bytes (i + 1) p.beyond * 256

unfoldable pub is_session_message : Codes → ℕ → Bool
is_session_message k t =
    eqb_ℤ (pos t) k.heartbeat
    || (eqb_ℤ (pos t) k.logon_ack
        || (eqb_ℤ (pos t) k.logon_reject
            || (eqb_ℤ (pos t) k.logout
                || (eqb_ℤ (pos t) k.test_request || eqb_ℤ (pos t) k.technical_reject))))

-- A round leaves the function with that many bytes unread, or goes on with what is left.
pub data Round (Msg : Type 0) : Type 0 where
  finished : Optiq Msg → ℕ → Round Msg
  again : Msg → List ℕ → Optiq Msg → Round Msg

-- `return size - left`, where the loop has ended.
unfoldable pub returned : {Msg : Type 0} → ℕ → Option (Optiq Msg × ℕ) → Option (Optiq Msg × ℕ)
returned size none = none
returned size (some r) = some (r.0, size - r.1)

module _ (E : Env Seqnums) (k : Codes) (p : Packet) where
  unfoldable pub session_frame : E.Msg → List ℕ → Optiq E.Msg → Round E.Msg
  session_frame msg bytes s =
      let d = E.decode msg bytes in
      elim d.status [
        | error ↦ finished s (length bytes)
        | short ↦ finished s (length bytes)
        | abort ↦ finished s 0
        | success ↦ again d.msg (drop d.used bytes) (handle_tcp_msg E k d.msg s)
      ]

  unfoldable pub raw_frame : ℕ → List ℕ → Optiq E.Msg → Optiq E.Msg
  raw_frame n bytes s =
      let seqno = pos (u16_at p bytes (p.header + 2)) in
      let t = record (set_inbound seqno s) { seen_hb = true } in
      emit (on_raw_msg seqno (take n bytes)) t

  unfoldable pub raw_round : E.Msg → List ℕ → Optiq E.Msg → Round E.Msg
  raw_round msg bytes s =
      let n = u16_at p bytes 0 in
      if ltb (length bytes) 2
      then finished s (length bytes)
      else if ltb (length bytes) n
      then finished s (length bytes)
      else if is_session_message k (p.template (drop 2 bytes))
      then session_frame msg bytes s
      else again msg (drop n bytes) (raw_frame n bytes s)

  unfoldable pub raw_loop : ℕ → E.Msg → List ℕ → Optiq E.Msg → Option (Optiq E.Msg × ℕ)
  raw_loop zero msg bytes s = none
  raw_loop (suc fuel) msg bytes s = elim (raw_round msg bytes s) [
    | finished t left ↦ some (t, left)
    | again m rest t ↦ raw_loop fuel m rest t
  ]

  -- The result is the number of bytes consumed. A round consumes at least one byte, unless a frame
  -- says that it is empty.
  unfoldable pub on_tcp_connection_read : List ℕ → Optiq E.Msg → Option (Optiq E.Msg × ℕ)
  unfolding returned
  on_tcp_connection_read bytes s = returned (length bytes) (
      if s.raw_enabled
      then raw_loop (suc (length bytes)) E.empty bytes s
      else some (read_loop E k (length bytes) E.empty bytes s))
