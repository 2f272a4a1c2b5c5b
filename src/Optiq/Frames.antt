-- ===== src/Optiq/Frames.antt =====
-- Reading with raw messages on, src/optiq/gwcOptiq.cpp: what the frames of a stream come to, and
-- when the loop ends.
use fosdk.Common.{
  ℕ, zero, suc, ◌+◌, ◌-◌, ◌≤◌, ◌<◌, ◌≡◌, refl, ap, ◌∙◌, Bool, true, false, Option, none, some, List,
  [], ◌∷◌, ◌++◌, pos, All, arith, if◌then◌else◌, length, drop, length-append, take-append,
  drop-append, get_or-append, absurd, concat, ltb-false, ltb-true,
}
use mathlib.Core.List.{append_assoc}
use fosdk.Gwc.{Effect, on_raw_msg}
use fosdk.Gwc.Env.{Env}
use fosdk.Optiq.{Optiq, Codes, Seqnums, emit, set_inbound}
use fosdk.Optiq.Raw.{
  Packet, finished, again, u16_at, is_session_message, raw_frame, raw_round, raw_loop, returned,
  on_tcp_connection_read,
}

module _ (E : Env Seqnums) (k : Codes) (p : Packet) where
  -- A whole application frame: it begins with its length, has room for the sequence number behind
  -- the header, and its header has no session template, whatever comes after it.
  pub record IsFrame (f : List ℕ) : Type 0 where
    pub room : p.header + 4 ≤ length f
    pub says_length : u16_at p f 0 ≡ length f
    pub application :
        (rest : List ℕ) → is_session_message k (p.template (drop 2 (f ++ rest))) ≡ false

  abbrev pub seqno_of : List ℕ → ℕ
  seqno_of f = u16_at p f (p.header + 2)

  abbrev pub delivered : List ℕ → Optiq E.Msg → Optiq E.Msg
  delivered f s =
      emit (on_raw_msg (pos (seqno_of f)) f)
        (record (set_inbound (pos (seqno_of f)) s) { seen_hb = true })

  abbrev pub delivered_all : List (List ℕ) → Optiq E.Msg → Optiq E.Msg
  delivered_all [] s = s
  delivered_all (f ∷ fs) s = delivered_all fs (delivered f s)

  shorter :
      (a b : List ℕ) (n : ℕ) → p.header + 4 ≤ length a → length (a ++ b) < suc n → length b < n
  shorter a b n r h = omega (arith, length-append a b, r, h)

  consumed : (n a b : ℕ) → n ≡ b + a → n - a ≡ b
  consumed n a b h = omega (arith, h)

  u16_at-append :
      (f rest : List ℕ) (i : ℕ) → i + 1 < length f → u16_at p (f ++ rest) i ≡ u16_at p f i
  unfolding u16_at
  u16_at-append f rest i h =
      rw
        (
          get_or-append f rest i p.beyond (omega (arith, h)),
          get_or-append f rest (i + 1) p.beyond h,
        )
        refl

  raw_frame_lem :
      (f rest : List ℕ) (s : Optiq E.Msg)
      → IsFrame f
      → raw_frame E k p (length f) (f ++ rest) s ≡ delivered f s
  unfolding raw_frame
  raw_frame_lem f rest s h =
      rw (u16_at-append f rest (p.header + 2) (omega (arith, h.room)), take-append f rest) refl

  raw_round_lem :
      (m : E.Msg) (f rest : List ℕ) (s : Optiq E.Msg)
      → IsFrame f
      → raw_round E k p m (f ++ rest) s ≡ again m rest (delivered f s)
  unfolding raw_round
  raw_round_lem m f rest s h =
      let n = length-append f rest in
      let u = u16_at-append f rest 0 (omega (arith, h.room)) ∙ h.says_length in
      rw
        (
          ltb-false (length (f ++ rest)) 2 (omega (arith, n, h.room)),
          u,
          ltb-false (length (f ++ rest)) (length f) (omega (arith, n)),
          h.application rest,
          drop-append f rest,
          raw_frame_lem f rest s h,
        )
        refl

  raw_round_empty :
      (m : E.Msg) (bytes : List ℕ) (s : Optiq E.Msg)
      → 2 ≤ length bytes
      → u16_at p bytes 0 ≡ 0
      → is_session_message k (p.template (drop 2 bytes)) ≡ false
      → raw_round E k p m bytes s ≡ again m bytes (raw_frame E k p 0 bytes s)
  unfolding raw_round
  raw_round_empty m bytes s h z a =
      rw (ltb-false (length bytes) 2 h, z, ltb-false (length bytes) 0 (omega arith), a) refl

  -- As long as the bytes ahead are no session message and say that they are an empty frame, the
  -- loop does not end, however often it goes round.
  pub raw_loop_endless :
      (fuel : ℕ) (m : E.Msg) (bytes : List ℕ) (s : Optiq E.Msg)
      → 2 ≤ length bytes
      → u16_at p bytes 0 ≡ 0
      → is_session_message k (p.template (drop 2 bytes)) ≡ false
      → raw_loop E k p fuel m bytes s ≡ none
  unfolding raw_loop
  raw_loop_endless zero m bytes s h z a = refl
  raw_loop_endless (suc fuel) m bytes s h z a =
      rw (raw_round_empty m bytes s h z a, raw_loop) (raw_loop_endless fuel m bytes _ h z a)

  raw_round_tail :
      (m : E.Msg) (tail : List ℕ) (s : Optiq E.Msg)
      → length tail < 2
      → raw_round E k p m tail s ≡ finished s (length tail)
  unfolding raw_round
  raw_round_tail m tail s h = rw (ltb-true (length tail) 2 h) refl

  raw_loop_frames :
      (fuel : ℕ) (fs : List (List ℕ)) (tail : List ℕ) (m : E.Msg) (s : Optiq E.Msg)
      → All IsFrame fs
      → length tail < 2
      → length (concat fs) < fuel
      → raw_loop E k p fuel m (concat fs ++ tail) s ≡ some (delivered_all fs s, length tail)
  unfolding raw_loop
  raw_loop_frames zero fs tail m s a h f = elim (absurd _ f) [ ]
  raw_loop_frames (suc fuel) [] tail m s a h f = rw (raw_round_tail m tail s h, raw_loop) refl
  raw_loop_frames (suc fuel) (b ∷ fs) tail m s (w, a) h f =
      rw (append_assoc b (concat fs) tail, raw_round_lem m b (concat fs ++ tail) s w, raw_loop)
        (raw_loop_frames fuel fs tail m (delivered b s) a h (shorter b (concat fs) fuel w.room f))

  -- What the client is told of a list of frames, newest first.
  abbrev pub reported : List (List ℕ) → List (Effect E.Msg Seqnums) → List (Effect E.Msg Seqnums)
  reported [] t = t
  reported (f ∷ fs) t = reported fs (on_raw_msg (pos (seqno_of f)) f ∷ t)

  reported_lem :
      (fs : List (List ℕ)) (s : Optiq E.Msg) → (delivered_all fs s).trace ≡ reported fs s.trace
  reported_lem [] s = refl
  reported_lem (f ∷ fs) s = reported_lem fs (delivered f s)

  raw_on :
      (b : Bool) (n : ℕ) (x y : Option (Optiq E.Msg × ℕ))
      → b ≡ true
      → returned n (if b then x else y) ≡ returned n x
  raw_on b n x y h = ap (λ q. returned n (if q then x else y)) h

  counted : (t : Optiq E.Msg) (n a b : ℕ) → n - a ≡ b → returned n (some (t, a)) ≡ some (t, b)
  unfolding returned
  counted t n a b h = ap (λ q. some (t, q)) h

  -- With raw messages on, reading a stream of whole application frames and at most one byte more
  -- ends: the client gets each frame, in order, as it came and with the sequence number that it
  -- holds, and nothing else is done; the bytes of the frames are consumed, and the odd byte stays.
  pub on_tcp_connection_read_frames :
      (fs : List (List ℕ)) (tail : List ℕ) (s : Optiq E.Msg)
      → s.raw_enabled ≡ true
      → All IsFrame fs
      → length tail < 2
      → ((t : Optiq E.Msg) × ((on_tcp_connection_read E k p (concat fs ++ tail) s
              ≡ some (t, length (concat fs)))
            × (t.trace ≡ reported fs s.trace)))
  unfolding on_tcp_connection_read returned
  on_tcp_connection_read_frames fs tail s r a h =
      let n = length-append (concat fs) tail in
      let e =
        raw_loop_frames (suc (length (concat fs ++ tail))) fs tail E.empty s a h
          (omega (arith, n)) in
      let c = consumed (length (concat fs ++ tail)) (length tail) (length (concat fs)) n in
      (
        delivered_all fs s,
        (raw_on _ _ _ _ r ∙ ap (returned _) e ∙ counted _ _ _ _ c, reported_lem fs s),
      )
