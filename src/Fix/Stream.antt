-- ===== src/Fix/Stream.antt =====
-- The read loop of src/fix/gwcFix.cpp: that it ends, what it hands to handleTcpMsg, and what it leaves
-- unread.
use fosdk.Common.{
  ℕ, zero, suc, ◌-◌, ◌≤◌, ◌<◌, ◌≡◌, refl, List, [], ◌∷◌, arith, drop, take, length, length-drop,
}
use fosdk.Gwc.Env.{Env, DecodeStatus, IsCodec, error, short, abort, success}
use fosdk.Fix.{Fix, Seqnums}
use fosdk.Fix.Receive.{handle_tcp_msg, record_inbound, read_loop, on_tcp_connection_read}

module _ (E : Env Seqnums) where
  -- What the codec finds in some bytes, one message after the other and each in the bytes that it took,
  -- and how many bytes are then left for the next read: none at the end of the bytes or where the codec
  -- aborts, and all that it could not read where it fails or waits for more.
  pub data Finds : List ℕ → List (E.Msg × List ℕ) → ℕ → Type 0 where
    ends : Finds [] [] 0
    waits :
        (b : List ℕ) → 0 < length b → (E.decode E.empty b).status ≡ short → Finds b [] (length b)
    fails :
        (b : List ℕ) → 0 < length b → (E.decode E.empty b).status ≡ error → Finds b [] (length b)
    aborts : (b : List ℕ) → 0 < length b → (E.decode E.empty b).status ≡ abort → Finds b [] 0
    finds :
        (b : List ℕ) {ms : List (E.Msg × List ℕ)} {n : ℕ}
        → 0 < length b
        → (E.decode E.empty b).status ≡ success
        → Finds (drop (E.decode E.empty b).used b) ms n
        → Finds b (((E.decode E.empty b).msg, take (E.decode E.empty b).used b) ∷ ms) n

  -- Each message is written to the inbound file, where there is one, and handled.
  unfoldable pub take_in : List (E.Msg × List ℕ) → Fix E.Msg → Fix E.Msg
  take_in [] s = s
  take_in ((m, b) ∷ ms) s = take_in ms (handle_tcp_msg E m (record_inbound E b s))

  read_loop-Finds :
      (f : ℕ) (s : Fix E.Msg) {b : List ℕ} {ms : List (E.Msg × List ℕ)} {n : ℕ}
      → Finds b ms n
      → length ms ≤ f
      → length b ≤ f
      → IsCodec E
      → read_loop E f b s ≡ (take_in ms s, n)
  unfolding read_loop take_in
  read_loop-Finds zero s ends h k c = refl
  read_loop-Finds zero s (waits b p e) h k c = absurd (omega (arith, p, k))
  read_loop-Finds zero s (fails b p e) h k c = absurd (omega (arith, p, k))
  read_loop-Finds zero s (aborts b p e) h k c = absurd (omega (arith, p, k))
  read_loop-Finds zero s (finds b p e f) h k c = absurd (omega (arith, p, k))
  read_loop-Finds (suc g) s ends h k c = refl
  read_loop-Finds (suc g) s (waits b p e) h k c = ground arith
  read_loop-Finds (suc g) s (fails b p e) h k c = ground arith
  read_loop-Finds (suc g) s (aborts b p e) h k c = ground arith
  read_loop-Finds (suc g) s (finds b p e f) h k c =
      let d = E.decode E.empty b in
      ground (
        arith,
        read_loop-Finds g (handle_tcp_msg E d.msg (record_inbound E (take d.used b) s)) f
            (omega (arith, h)) (omega (arith, k, length-drop d.used b, c.used_bounds E.empty b e))
            c,
      )

  abbrev pub Finding : List ℕ → Type 0
  Finding b =
      (ms : List (E.Msg × List ℕ)) × ((n : ℕ) × (Finds b ms n
          × (length ms ≤ length b)
          × (n ≤ length b)))

  finding :
      IsCodec E
      → (f x : ℕ) (xs : List ℕ) (q : DecodeStatus) → (E.decode E.empty (x ∷ xs)).status ≡ q
      → length xs < suc f
      → ((b : List ℕ) → length b < suc f → Finding b)
      → Finding (x ∷ xs)
  finding c f x xs error e h rec =
      ([], (length (x ∷ xs), (fails (x ∷ xs) (omega arith) e, omega arith, omega arith)))
  finding c f x xs short e h rec =
      ([], (length (x ∷ xs), (waits (x ∷ xs) (omega arith) e, omega arith, omega arith)))
  finding c f x xs abort e h rec =
      ([], (0, (aborts (x ∷ xs) (omega arith) e, omega arith, omega arith)))
  finding c f x xs success e h rec =
      let b = x ∷ xs in
      let d = E.decode E.empty b in
      let u = c.used_bounds E.empty b e in
      let l = length-drop d.used b in
      let (ms, (n, (g, i, j))) = rec (drop d.used b) (omega (arith, u, l, h)) in
      (
        (d.msg, take d.used b) ∷ ms,
        (n, (finds b (omega arith) e g, omega (arith, u, l, i), omega (arith, u, l, j))),
      )

  found : IsCodec E → (f : ℕ) (b : List ℕ) → length b < f → Finding b
  found c zero b h = absurd (omega (arith, h))
  found c (suc f) [] h = ([], (0, (ends, omega arith, omega arith)))
  found c (suc zero) (x ∷ xs) h = absurd (omega (arith, h))
  found c (suc (suc f)) (x ∷ xs) h =
      finding c f x xs (E.decode E.empty (x ∷ xs)).status refl (omega (arith, h))
        (λ b k. found c (suc f) b k)

  -- If a decoding that succeeds consumes something and no more than there is, `onTcpConnectionRead`
  -- ends: it hands every message that the codec finds to `handleTcpMsg`, in their order and each after
  -- its bytes were recorded, and returns the number of all bytes but those that are left: none at the
  -- end of the bytes or where the codec aborts, and otherwise all from the first on in which it finds no
  -- message.
  pub on_tcp_connection_read-Finds :
      IsCodec E
      → (b : List ℕ) (s : Fix E.Msg)
      → (ms : List (E.Msg × List ℕ)) × ((n : ℕ) × (Finds b ms n
            × (on_tcp_connection_read E b s ≡ (take_in ms s, length b - n))
            × (n ≤ length b)))
  unfolding on_tcp_connection_read
  on_tcp_connection_read-Finds c b s =
      let (ms, (n, (f, l, k))) = found c (suc (length b)) b (omega arith) in
      (ms, (n, (f, ground (arith, read_loop-Finds (length b) s f l (omega arith) c), k)))
