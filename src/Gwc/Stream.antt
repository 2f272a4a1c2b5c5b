-- ===== src/Gwc/Stream.antt =====
-- The loop over decoded messages that the connectors of src/eti/gwcEti.cpp,
-- src/millennium/gwcMillennium.cpp and src/soupbin/gwcSoupBin.cpp have in common: `for (;;)` over
-- a decode, which is also made where nothing is left. It runs on fuel, and has no result when the
-- fuel is used up.
use fosdk.Common.{
  ℕ, zero, suc, ◌-◌, ◌≤◌, ◌<◌, ◌≡◌, refl, ap, Option, none, some, List, [], ◌∷◌, length,
  length-drop, drop, arith, Holds,
}
use fosdk.Gwc.Env.{Env, DecodeStatus, IsCodec, error, short, abort, success}

module _ {Cache : Type 0} (E : Env Cache) {S : Type 0} (handle : E.Msg → S → S) where
  -- `size` is the size of all that was read. Each round decodes into the message of the one before.
  -- The result is the number of bytes that count as consumed.
  unfoldable pub read_loop : ℕ → ℕ → E.Msg → List ℕ → S → Option (S × ℕ)
  read_loop zero size msg bytes s = none
  read_loop (suc fuel) size msg bytes s =
      let d = E.decode msg bytes in
      elim d.status [
        | error ↦ some (s, size)
        | short ↦ some (s, size - length bytes)
        | abort ↦ some (s, size)
        | success ↦ read_loop fuel size d.msg (drop d.used bytes) (handle d.msg s)
      ]

  -- What the codec finds in some bytes: the messages one after the other, up to where it stops, and
  -- whether the rest is kept for the next read.
  pub data Finds : E.Msg → List ℕ → List E.Msg → ℕ → Type 0 where
    stops : (m : E.Msg) (b : List ℕ) → (E.decode m b).status ≡ short → Finds m b [] (length b)
    fails : (m : E.Msg) (b : List ℕ) → (E.decode m b).status ≡ error → Finds m b [] 0
    aborts : (m : E.Msg) (b : List ℕ) → (E.decode m b).status ≡ abort → Finds m b [] 0
    finds :
        (m : E.Msg) (b : List ℕ) {ms : List E.Msg} {n : ℕ}
        → (E.decode m b).status ≡ success
        → Finds (E.decode m b).msg (drop (E.decode m b).used b) ms n
        → Finds m b ((E.decode m b).msg ∷ ms) n

  unfoldable pub handle_all : List E.Msg → S → S
  handle_all [] s = s
  handle_all (m ∷ ms) s = handle_all ms (handle m s)

  consumed : (s : S) (a b : ℕ) → a ≡ b → ◌≡◌ {A = Option (S × ℕ)} (some (s, a)) (some (s, b))
  consumed s a b h = ap (λ q. some (s, q)) h

  -- The loop handles the messages that the codec finds, and keeps what it leaves.
  pub read_loop-Finds :
      (fuel size : ℕ) (s : S) {m : E.Msg} {b : List ℕ} {ms : List E.Msg} {n : ℕ}
      → Finds m b ms n
      → length ms < fuel
      → read_loop fuel size m b s ≡ some (handle_all ms s, size - n)
  unfolding read_loop handle_all
  read_loop-Finds zero size s f h = absurd (omega (arith, h))
  read_loop-Finds (suc fuel) size s (stops m b e) h = rw (e, read_loop) refl
  read_loop-Finds (suc fuel) size s (fails m b e) h =
      rw (e, read_loop) (consumed s _ _ (omega arith))
  read_loop-Finds (suc fuel) size s (aborts m b e) h =
      rw (e, read_loop) (consumed s _ _ (omega arith))
  read_loop-Finds (suc fuel) size s (finds m b e f) h =
      rw (e, read_loop)
        (read_loop-Finds fuel size (handle (E.decode m b).msg s) f (omega (arith, h)))

  -- Each message takes a byte at least.
  pub Finds-length :
      IsCodec E
      → {m : E.Msg} {b : List ℕ} {ms : List E.Msg} {n : ℕ} → Finds m b ms n
      → length ms ≤ length b
  Finds-length c (stops m b e) = omega arith
  Finds-length c (fails m b e) = omega arith
  Finds-length c (aborts m b e) = omega arith
  Finds-length c (finds m b e f) =
      let d = E.decode m b in
      omega (arith, c.used_bounds m b e, length-drop d.used b, Finds-length c f)

  -- What the handler keeps, a read keeps.
  pub read_loop-keeps :
      (P : S → Type 0)
      → ((m : E.Msg) (s : S) → P s → P (handle m s))
      → (fuel size : ℕ) (m : E.Msg) (b : List ℕ) (s : S) → P s
      → Holds (λ (r : S × ℕ). P r.0) (read_loop fuel size m b s)
  unfolding read_loop
  read_loop-keeps P keeps zero size m b s h = tt
  read_loop-keeps P keeps (suc fuel) size m b s h =
      let d = E.decode m b in
      ground (
        arith,
        read_loop-keeps P keeps fuel size d.msg (drop d.used b) (handle d.msg s) (keeps d.msg s h),
      )

  -- What the codec finds, with no more messages than bytes.
  abbrev pub Finding : E.Msg → List ℕ → Type 0
  Finding m b =
      (ms : List E.Msg) × ((n : ℕ) × (Finds m b ms n × (length ms ≤ length b) × (n ≤ length b)))

  finding :
      IsCodec E
      → (fuel : ℕ) (m : E.Msg) (b : List ℕ) (q : DecodeStatus) → (E.decode m b).status ≡ q
      → length b < suc fuel
      → ((m' : E.Msg) (b' : List ℕ) → length b' < fuel → Finding m' b')
      → Finding m b
  finding C fuel m b error e h rec = ([], (0, (fails m b e, omega arith, omega arith)))
  finding C fuel m b short e h rec = ([], (length b, (stops m b e, omega arith, omega arith)))
  finding C fuel m b abort e h rec = ([], (0, (aborts m b e, omega arith, omega arith)))
  finding C fuel m b success e h rec =
      let d = E.decode m b in
      let u = C.used_bounds m b e in
      let l = length-drop d.used b in
      let (ms, (n, (f, g, i))) = rec d.msg (drop d.used b) (omega (arith, u, l, h)) in
      (d.msg ∷ ms, (n, (finds m b e f, omega (arith, u, l, g), omega (arith, u, l, i))))

  -- With a codec that consumes something whenever it succeeds, there always is such a finding.
  pub found : IsCodec E → (fuel : ℕ) (m : E.Msg) (b : List ℕ) → length b < fuel → Finding m b
  found C zero m b h = absurd (omega (arith, h))
  found C (suc fuel) m b h =
      finding C fuel m b (E.decode m b).status refl h (λ m' b' h'. found C fuel m' b' h')
