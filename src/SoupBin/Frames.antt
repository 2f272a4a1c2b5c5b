-- ===== src/SoupBin/Frames.antt =====
-- Reading with raw messages on, src/soupbin/gwcSoupBin.cpp: what the frames of a buffer come to.
use fosdk.Common.{
  ℕ, zero, suc, ◌+◌, ◌-◌, ◌≤◌, ◌<◌, ◌≡◌, refl, sym, ap, ◌∙◌, true, false, Option, some, List, [],
  ◌∷◌, ◌++◌, pos, All, arith, length, drop, take, get_or, length-append, take-append, drop-append,
  get_or-append, get_or-take, take-take, absurd, concat, ltb-false, on_true,
}
use fosdk.Gwc.{Effect, on_raw_msg}
use fosdk.Gwc.Env.{Env}
use fosdk.SoupBin.{SoupBin, SeqNum, Venue, emit}
use fosdk.SoupBin.Receive.{
  finished, again, is_session_type, message_length, raw_round, raw_loop, on_connection_read,
}

-- A whole frame that is no session message: it begins with its length and its type.
pub record IsFrame (f : List ℕ) : Type 0 where
  pub room : 3 ≤ length f
  pub says_length : message_length f ≡ length f
  pub application : is_session_type (get_or f 2 0) ≡ false

get_or_front :
    (g tail : List ℕ) (n i : ℕ)
    → length g ≤ n
    → i < length g
    → get_or (take n (g ++ tail)) i 0 ≡ get_or g i 0
get_or_front g tail n i h b =
    get_or-take (g ++ tail) n i 0 (omega (arith, h, b)) ∙ get_or-append g tail i 0 b

message_length_front :
    (g tail : List ℕ) (n : ℕ)
    → length g ≤ n
    → 3 ≤ length g
    → message_length (take n (g ++ tail)) ≡ message_length g
unfolding message_length
message_length_front g tail n h b =
    rw (get_or_front g tail n 0 h (omega (arith, b)), get_or_front g tail n 1 h (omega (arith, b)))
      refl

less : (n a b : ℕ) → n ≡ a + b → n - a ≡ b
less n a b h = omega (arith, h)

module _ (E : Env SeqNum) (V : Venue E) where
  abbrev pub delivered : List ℕ → SoupBin E.Msg → SoupBin E.Msg
  delivered f s = emit (on_raw_msg (pos 0) f) (record s { seen_message = true })

  raw_round_lem :
      (buffer g tail : List ℕ) (hdr left used : ℕ) (s : SoupBin E.Msg)
      → drop hdr buffer ≡ g ++ tail
      → IsFrame g
      → length g ≤ left
      → raw_round E V buffer hdr left used s
        ≡ again (length g) (left - length g) (used + length g) (delivered g s)
  unfolding raw_round
  raw_round_lem buffer g tail hdr left used s e w h =
      rw
        (
          e,
          message_length_front g tail left h w.room,
          w.says_length,
          ltb-false left 3 (omega (arith, h, w.room)),
          ltb-false left (length g) h,
          get_or_front g tail left 2 h (omega (arith, w.room)),
          w.application,
          take-take (length g) left (g ++ tail) h,
          take-append g tail,
        )
        refl

  raw_round_end :
      (buffer : List ℕ) (hdr used : ℕ) (s : SoupBin E.Msg)
      → raw_round E V buffer hdr 0 used s ≡ finished s used
  unfolding raw_round
  raw_round_end buffer hdr used s = refl

  -- `g` delivered once for each list.
  abbrev delivered_for : List (List ℕ) → List ℕ → SoupBin E.Msg → SoupBin E.Msg
  delivered_for [] g s = s
  delivered_for (r ∷ rs) g s = delivered_for rs g (delivered g s)

  at_count :
      (s : SoupBin E.Msg) (a b : ℕ)
      → a ≡ b
      → ◌≡◌ {A = Option (SoupBin E.Msg × ℕ)} (some (s, a)) (some (s, b))
  at_count s a b h = ap (λ q. some (s, q)) h

  raw_loop_stuck :
      (fuel : ℕ) (buffer g tail : List ℕ) (rs : List (List ℕ)) (used : ℕ) (s : SoupBin E.Msg)
      → drop (length g) buffer ≡ g ++ tail
      → IsFrame g
      → All (λ r. length r ≡ length g) rs
      → length (concat rs) < fuel
      → raw_loop E V fuel buffer (length g) (length (concat rs)) used s
        ≡ some (delivered_for rs g s, used + length (concat rs))
  unfolding raw_loop
  raw_loop_stuck zero buffer g tail rs used s e w a f = elim (absurd _ f) [ ]
  raw_loop_stuck (suc fuel) buffer g tail [] used s e w a f =
      rw (raw_round_end buffer (length g) used s, raw_loop) (at_count s _ _ (omega arith))
  raw_loop_stuck (suc fuel) buffer g tail (r ∷ rs) used s e w (q, a) f =
      let n = length-append r (concat rs) in
      let left =
        less (length (r ++ concat rs)) (length g) (length (concat rs)) (omega (arith, n, q)) in
      rw
        (
          raw_round_lem buffer g tail (length g) (length (r ++ concat rs)) used s e w
              (omega (arith, n, q)),
          raw_loop,
          left,
        )
        (raw_loop_stuck fuel buffer g tail rs (used + length g) (delivered g s) e w a
            (omega (arith, n, q, w.room, f))
          ∙ at_count _ _ _ (omega (arith, n, q)))

  -- What the client is told: one frame, and another for each of some lists, newest first.
  abbrev pub reported :
      List (List ℕ) → List ℕ → List (Effect E.Msg SeqNum) → List (Effect E.Msg SeqNum)
  reported [] g t = t
  reported (r ∷ rs) g t = reported rs g (on_raw_msg (pos 0) g ∷ t)

  reported_lem :
      (rs : List (List ℕ)) (g : List ℕ) (s : SoupBin E.Msg)
      → (delivered_for rs g s).trace ≡ reported rs g s.trace
  reported_lem [] g s = refl
  reported_lem (r ∷ rs) g s = reported_lem rs g (delivered g s)

  raw_loop_first :
      (f g : List ℕ) (rs : List (List ℕ)) (s : SoupBin E.Msg)
      → IsFrame f
      → IsFrame g
      → length f ≡ length g
      → All (λ r. length r ≡ length g) rs
      → let buffer = f ++ (g ++ concat rs) in
        raw_loop E V (suc (length buffer)) buffer 0 (length buffer) 0 s
        ≡ some (delivered_for rs g (delivered g (delivered f s)), length buffer)
  unfolding raw_loop
  raw_loop_first f g rs s v w l a =
      let rest = g ++ concat rs in
      let n = length-append f rest in
      let left = less (length (f ++ rest)) (length f) (length rest) n in
      rw
        (
          raw_round_lem (f ++ rest) f rest 0 (length (f ++ rest)) 0 s refl v (omega (arith, n)),
          raw_loop,
          left,
          l,
        )
        (raw_loop_stuck (length (f ++ rest)) (f ++ rest) g (concat rs) (g ∷ rs) (0 + length g)
            (delivered f s) (ap (λ n. drop n (f ++ rest)) (sym l) ∙ drop-append f rest) w (refl, a)
            (omega (arith, n, v.room))
          ∙ at_count _ (0 + length g + length rest) (length (f ++ rest)) (omega (arith, n, l)))

  -- With raw messages on, reading two whole application frames of the same length, and behind them
  -- any bytes that fill more frames of that length, gives the client the first frame once, the
  -- second one once for itself and once for each length of bytes behind it, and none of those
  -- bytes; all of them count as consumed.
  pub on_connection_read_repeats :
      (f g : List ℕ) (rs : List (List ℕ)) (s : SoupBin E.Msg)
      → s.raw_enabled ≡ true
      → IsFrame f
      → IsFrame g
      → length f ≡ length g
      → All (λ r. length r ≡ length g) rs
      → (t : SoupBin E.Msg) × ((on_connection_read E V (f ++ (g ++ concat rs)) s
            ≡ some (t, length (f ++ (g ++ concat rs))))
          × (t.trace ≡ reported (g ∷ rs) g (on_raw_msg (pos 0) f ∷ s.trace)))
  unfolding on_connection_read
  on_connection_read_repeats f g rs s r v w l a = (
    delivered_for rs g (delivered g (delivered f s)),
    (
      on_true s.raw_enabled _ _ r ∙ raw_loop_first f g rs s v w l a,
      reported_lem (g ∷ rs) g (delivered f s),
    ),
  )
