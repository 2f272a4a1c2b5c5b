-- ===== src/SoupBin/Numbers.antt =====
-- The sequence number of src/soupbin/gwcSoupBin.cpp: what a stream of messages makes of it, of the
-- cache file, and of the number that the next logon asks for.
use text.Mathlib.Text.{starts_with}
use fosdk.Common.{
  ℕ, suc, ◌+◌, ◌%◌, ◌≡◌, refl, ◌∙◌, true, false, some, List, [], ◌∷◌, pos, All, arith, or_else,
  length,
}
use fosdk.Gwc.Env.{Env, IsCdr, message_type, requested_session, requested_sequence_number}
use fosdk.SoupBin.{SoupBin, SeqNum, Venue}
use fosdk.SoupBin.Session.{is_session_message, update_seqno, next_sequenced, handle_real_time_msg}
use fosdk.SoupBin.Control.{logon_msg, asks}

-- A venue's handlers leave the connector's number, session and cache item alone.
pub record IsVenue {E : Env SeqNum} (V : Venue E) : Type 0 where
  pub sequenced_keeps :
      (m : E.Msg) (s : SoupBin E.Msg)
      → ((V.handle_sequenced_message m s).sequence_number ≡ s.sequence_number)
        × (((V.handle_sequenced_message m s).session ≡ s.session)
            × ((V.handle_sequenced_message m s).cache_item ≡ s.cache_item))

sums : (n k : ℕ) → ((n + 1) % 4294967296 + k) % 4294967296 ≡ (n + suc k) % 4294967296
sums n k = omega arith

module _ (E : Env SeqNum) (V : Venue E) where
  -- The message is a sequenced data packet.
  unfoldable pub IsSequenced : E.Msg → Type 0
  IsSequenced m =
      let t = or_else (E.get_string m message_type) "" in
      (is_session_message t ≡ false) × ((starts_with t "U" ≡ false) × (starts_with t "S" ≡ true))

  unfoldable pub handle_all : List E.Msg → SoupBin E.Msg → SoupBin E.Msg
  handle_all [] s = s
  handle_all (m ∷ ms) s = handle_all ms (handle_real_time_msg E V m s)

  handle_sequenced :
      (m : E.Msg) (s : SoupBin E.Msg)
      → IsSequenced m
      → handle_real_time_msg E V m s
        ≡ V.handle_sequenced_message m (next_sequenced E V (record s { seen_message = true }))
  unfolding handle_real_time_msg IsSequenced
  handle_sequenced m s (a, (b, c)) = rw (a, b, c) refl

  -- The number, the session and the cache item that a sequenced message leaves.
  handle_sequenced_lem :
      IsVenue V
      → (m : E.Msg) (s : SoupBin E.Msg) → IsSequenced m
      → ((handle_real_time_msg E V m s).sequence_number ≡ (s.sequence_number + 1) % 4294967296)
        × (((handle_real_time_msg E V m s).session ≡ s.session)
            × ((handle_real_time_msg E V m s).cache_item
                ≡ some (record {
                  seqno = (s.sequence_number + 1) % 4294967296;
                  session = V.clip s.session;
                })))
  unfolding next_sequenced update_seqno
  handle_sequenced_lem L m s h =
      let t = next_sequenced E V (record s { seen_message = true }) in
      rw (handle_sequenced m s h) (L.sequenced_keeps m t)

  handle_all_lem :
      IsVenue V
      → (m : E.Msg) (ms : List E.Msg) (s : SoupBin E.Msg) → All IsSequenced (m ∷ ms)
      → ((handle_all (m ∷ ms) s).sequence_number
          ≡ (s.sequence_number + suc (length ms)) % 4294967296)
        × (((handle_all (m ∷ ms) s).session ≡ s.session)
            × ((handle_all (m ∷ ms) s).cache_item
                ≡ some (record {
                  seqno = (s.sequence_number + suc (length ms)) % 4294967296;
                  session = V.clip s.session;
                })))
  unfolding handle_all
  handle_all_lem L m [] s (h, a) = handle_sequenced_lem L m s h
  handle_all_lem L m (q ∷ ms) s (h, a) =
      let (n, (i, c)) = handle_sequenced_lem L m s h in
      let (n', (i', c')) = handle_all_lem L q ms (handle_real_time_msg E V m s) a in
      let e = sums s.sequence_number (suc (length ms)) in
      (n' ∙ rw n e, (i' ∙ i, c' ∙ rw (n, i, e) refl))

  logon_msg_cached :
      IsCdr E.cdr
      → (s : SoupBin E.Msg) (c : SeqNum) → s.cache_item ≡ some c
      → (E.get_integer (logon_msg E V s) requested_sequence_number ≡ some (pos c.seqno))
        × (E.get_string (logon_msg E V s) requested_session ≡ some c.session)
  unfolding logon_msg asks
  logon_msg_cached L s c h = rw h (
    L.get_integer-set_integer_self _ _ _,
    L.get_string-set_integer_ne _ _ _ _ (λ e. cc) ∙ L.get_string-set_string_self _ _ _,
  )

  -- After at least one sequenced message the next logon asks for the number that the connector had
  -- before, raised by the number of those messages, modulo 2 ^ 32, and for the connector's session
  -- as it fits the cache file; the venue's handler leaves number, session and cache item alone.
  pub logon_msg-handle_all :
      IsCdr E.cdr
      → IsVenue V
      → (m : E.Msg) (ms : List E.Msg) (s : SoupBin E.Msg) → All IsSequenced (m ∷ ms)
      → let d = logon_msg E V (handle_all (m ∷ ms) s) in
        (E.get_integer d requested_sequence_number
          ≡ some (pos ((s.sequence_number + suc (length ms)) % 4294967296)))
        × (E.get_string d requested_session ≡ some (V.clip s.session))
  logon_msg-handle_all C L m ms s a =
      logon_msg_cached C (handle_all (m ∷ ms) s) _ (handle_all_lem L m ms s a).1.1
