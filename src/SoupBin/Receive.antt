-- ===== src/SoupBin/Receive.antt =====
-- src/soupbin/gwcSoupBin.cpp: onConnectionRead. Both loops run on fuel, and have no result when
-- the fuel is used up.
use fosdk.Common.{
  ℕ, zero, suc, ◌+◌, ◌-◌, ◌*◌, ◌%◌, Bool, true, ◌||◌, ◌==◌, Option, none, some, List, pos, ltb,
  if◌then◌else◌, length, drop, take, get_or,
}
use fosdk.Gwc.{on_raw_msg}
use fosdk.Gwc.Stream.{read_loop}
use fosdk.Gwc.Env.{Env, error, short, abort, success}
use fosdk.SoupBin.{SoupBin, SeqNum, Venue, emit}
use fosdk.SoupBin.Session.{handle_real_time_msg}

-- isSessionMessage, of a byte.
unfoldable pub is_session_type : ℕ → Bool
is_session_type b = b == 65 || (b == 74 || (b == 72 || b == 90))

-- `ntohs (mMessageLength) + 2`, stored in a uint16_t, of the header at `bytes`.
unfoldable pub message_length : List ℕ → ℕ
message_length bytes = (get_or bytes 0 0 * 256 + get_or bytes 1 0 + 2) % 65536

-- A round of a loop leaves the function with a result, or goes on: in the raw loop with the
-- header's offset from `data`, and `left` and `used`.
pub data Round (Msg : Type 0) : Type 0 where
  finished : SoupBin Msg → ℕ → Round Msg
  again : ℕ → ℕ → ℕ → SoupBin Msg → Round Msg

module _ (E : Env SeqNum) (V : Venue E) where
  -- After a session message the code runs on into `default`, which returns.
  unfoldable pub session_frame : List ℕ → ℕ → SoupBin E.Msg → Round E.Msg
  session_frame bytes used s =
      let d = E.decode E.empty bytes in
      elim d.status [
        | error ↦ finished s d.used
        | abort ↦ finished s d.used
        | short ↦ finished s used
        | success ↦ finished (handle_real_time_msg E V d.msg s) (used + d.used)
      ]

  -- The next header is looked for at `data + messageLength`.
  unfoldable pub raw_round : List ℕ → ℕ → ℕ → ℕ → SoupBin E.Msg → Round E.Msg
  raw_round buffer hdr left used s =
      let bytes = take left (drop hdr buffer) in
      let n = message_length bytes in
      let t = record s { seen_message = true } in
      if ltb left 3
      then finished s used
      else if ltb left n
      then finished s used
      else if is_session_type (get_or bytes 2 0)
      then session_frame bytes used t
      else again n (left - n) (used + n) (emit (on_raw_msg (pos 0) (take n bytes)) t)

  unfoldable pub raw_loop : ℕ → List ℕ → ℕ → ℕ → ℕ → SoupBin E.Msg → Option (SoupBin E.Msg × ℕ)
  raw_loop zero buffer hdr left used s = none
  raw_loop (suc fuel) buffer hdr left used s = elim (raw_round buffer hdr left used s) [
    | finished t n ↦ some (t, n)
    | again h l u t ↦ raw_loop fuel buffer h l u t
  ]

  unfoldable pub on_connection_read : List ℕ → SoupBin E.Msg → Option (SoupBin E.Msg × ℕ)
  on_connection_read bytes s =
      if s.raw_enabled
      then raw_loop (suc (length bytes)) bytes 0 (length bytes) 0 s
      else read_loop E (handle_real_time_msg E V) (suc (length bytes)) (length bytes) E.empty bytes
          s
