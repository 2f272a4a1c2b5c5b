-- ===== src/Millennium/Raw.antt =====
-- src/millennium/gwcMillennium.cpp: isSessionMessage, getSeqnum, and the read loops of the two
-- connections, which differ in the handler and in what a codec's failure returns with raw messages
-- on. The loops run on fuel, and have no result when the fuel is used up.
use fosdk.Common.{
  ℕ, zero, suc, ◌+◌, ◌-◌, ◌^◌, ◌==◌, Bool, ◌||◌, Option, none, some, List, ℤ, pos, negsuc, ltb,
  eqb_ℤ, if◌then◌else◌, length, drop, take, unsigned,
}
use fosdk.Gwc.{on_raw_msg}
use fosdk.Gwc.Env.{Env, error, short, abort, success}
use fosdk.Gwc.Stream.{read_loop}
use fosdk.Millennium.{Millennium, SeqNum, Layout, emit}
use fosdk.Millennium.Session.{update_seqno}
use fosdk.Millennium.Receive.{handle_real_time_msg, handle_recovery_msg}

-- 'A', 'B', '5', '0', 'M', 'N' and 'P'
unfoldable pub is_session_message : ℕ → Bool
is_session_message t =
    t == 65 || (t == 66 || (t == 53 || (t == 48 || (t == 77 || (t == 78 || t == 80)))))

-- The messages that have a sequence number: '8', '9' and 'j'.
unfoldable pub has_seqnum : ℕ → Bool
has_seqnum t = t == 56 || (t == 57 || t == 106)

-- A round leaves the function with a result, or goes on with the bytes from `hdr` on, and `used`.
pub data Round (Msg : Type 0) : Type 0 where
  finished : Millennium Msg → ℕ → Round Msg
  again : Msg → List ℕ → ℕ → Millennium Msg → Round Msg

module _ (E : Env SeqNum) (L : Layout E.Msg) where
  -- The number of a message without one is -1; the partition then has no value.
  unfoldable pub get_seqnum : List ℕ → ℤ
  unfolding has_seqnum
  get_seqnum bytes =
      let t = L.message_type bytes in if has_seqnum t then L.sequence_no t bytes else negsuc 0

  unfoldable pub frame_length : List ℕ → ℕ
  frame_length bytes = L.message_length bytes + L.header - 1

  -- The number is an int32_t, and widened to a uint64_t; onRawMsg gets it in any case.
  unfoldable pub application_frame : List ℕ → Millennium E.Msg → Millennium E.Msg
  unfolding get_seqnum frame_length
  application_frame bytes s =
      let seqno = get_seqnum bytes in
      let n = unsigned (2 ^ 64) seqno in
      let t =
        if eqb_ℤ seqno (negsuc 0)
        then s
        else update_seqno (L.app_id (L.message_type bytes) bytes) n s in
      emit (on_raw_msg (pos n) (take (frame_length bytes) bytes)) t

  -- `handle` is the connection's handler, and `failed` what an error returns, of the bytes left.
  module _ (handle : E.Msg → Millennium E.Msg → Millennium E.Msg) (failed : ℕ → ℕ) where
    unfoldable pub session_frame : E.Msg → List ℕ → ℕ → Millennium E.Msg → Round E.Msg
    session_frame msg bytes used s =
        let d = E.decode msg bytes in
        elim d.status [
          | error ↦ finished s (failed (length bytes))
          | short ↦ finished s used
          | abort ↦ finished s (failed (length bytes))
          | success ↦ again d.msg (drop d.used bytes) (used + d.used) (handle d.msg s)
        ]

    unfoldable pub raw_round : E.Msg → List ℕ → ℕ → Millennium E.Msg → Round E.Msg
    raw_round msg bytes used s =
        let n = frame_length bytes in
        if ltb (length bytes) L.header
        then finished s used
        else if ltb (length bytes) n
        then finished s used
        else if is_session_message (L.message_type bytes)
        then session_frame msg bytes used s
        else again msg (drop n bytes) (used + n) (application_frame bytes s)

    unfoldable pub raw_loop :
        ℕ → E.Msg → List ℕ → ℕ → Millennium E.Msg → Option (Millennium E.Msg × ℕ)
    raw_loop zero msg bytes used s = none
    raw_loop (suc fuel) msg bytes used s = elim (raw_round msg bytes used s) [
      | finished t n ↦ some (t, n)
      | again m b u t ↦ raw_loop fuel m b u t
    ]

    -- A read; with raw messages off it is the loop over decoded messages.
    unfoldable pub read : List ℕ → Millennium E.Msg → Option (Millennium E.Msg × ℕ)
    read bytes s =
        if s.raw_enabled
        then raw_loop (suc (length bytes)) E.empty bytes 0 s
        else read_loop E handle (suc (length bytes)) (length bytes) E.empty bytes s

  unfoldable pub on_real_time_connection_read :
      List ℕ → Millennium E.Msg → Option (Millennium E.Msg × ℕ)
  unfolding read
  on_real_time_connection_read bytes s =
      read (handle_real_time_msg E L) (λ left. length bytes) bytes s

  unfoldable pub on_recovery_connection_read :
      List ℕ → Millennium E.Msg → Option (Millennium E.Msg × ℕ)
  unfolding read
  on_recovery_connection_read bytes s = read (handle_recovery_msg E L) (λ left. left) bytes s
