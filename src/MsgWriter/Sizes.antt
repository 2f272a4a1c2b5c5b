-- ===== src/MsgWriter/Sizes.antt =====
-- The size that `write` of src/fix/msgWriter.cpp keeps, against the size of the file.
use fosdk.Common.{
  ℕ, ◌+◌, ◌*◌, ◌≤◌, ◌<◌, ◌≡◌, refl, ◌∙◌, Bool, true, false, Option, none, some, List, [], ◌∷◌, ◌++◌,
  arith, length, length-append, All,
}
use fosdk.MsgWriter.{MsgWriter, size_t_mod, write, update, over_limit}

-- One write after the other; `none` as soon as one is to a closed file.
unfoldable pub write_all : Bool → List (List ℕ) → MsgWriter → Option MsgWriter
write_all opens [] w = some w
write_all opens (m ∷ ms) w = elim (write opens m w) [ none ↦ none | some v ↦ write_all opens ms v ]

write_all_step :
    (opens : Bool) (m : List ℕ) (ms : List (List ℕ)) (w v : MsgWriter)
    → write opens m w ≡ some v
    → write_all opens (m ∷ ms) w ≡ write_all opens ms v
unfolding write_all
write_all_step opens m ms w v e = rw (e, write_all)

-- `w` is open and its file holds `n` bytes.
abbrev pub Holds : ℕ → MsgWriter → Type 0
Holds n w = (w.is_open ≡ true) × ((c : List ℕ) × (w.files 0 ≡ some c) × (length c ≡ n))

write_one :
    (opens : Bool) (m : List ℕ) (w : MsgWriter) (n : ℕ)
    → Holds n w
    → 1 ≤ length m
    → w.size_limit < size_t_mod
    → w.size + length m + 1 ≤ w.size_limit
    → (v : MsgWriter) × (write opens m w ≡ some v)
      × Holds (n + length m + 1) v
      × (v.size ≡ w.size + 2)
      × (v.count ≡ w.count)
      × (v.size_limit ≡ w.size_limit)
unfolding write
write_one opens m w n (up, (c, e, len)) l b r = (
  record w { size = w.size + 2; files = update w.files 0 (some (c ++ (m ++ 10 ∷ []))) },
  ground (arith, within, e),
  (
    up,
    (
      c ++ (m ++ 10 ∷ []),
      refl,
      omega (arith, len, length-append c (m ++ 10 ∷ []), length-append m (10 ∷ [])),
    ),
  ),
  refl,
  refl,
  refl,
)
  where
    within : over_limit m w ≡ false
    within = ground arith

-- A file that is open and holds `n` bytes: after `ms`, of `k` bytes each, it holds `k + 1` more for each of
-- them, while the size that is kept has grown by 2 for each, whatever `k` is. There is no roll as long as the
-- kept size and one message lie within the limit.
pub write_all_unrolled :
    (opens : Bool) (k : ℕ) (ms : List (List ℕ)) (w : MsgWriter) (n : ℕ)
    → Holds n w
    → 1 ≤ k
    → All (λ m. length m ≡ k) ms
    → w.size_limit < size_t_mod
    → w.size + 2 * length ms + k ≤ w.size_limit + 1
    → (v : MsgWriter) × (write_all opens ms w ≡ some v)
      × Holds (n + length ms * (k + 1)) v
      × (v.size ≡ w.size + 2 * length ms)
      × (v.count ≡ w.count)
unfolding write_all
write_all_unrolled opens k [] w n h l a b r =
    (w, refl, (h.0, (h.1.0, h.1.1, omega (arith, h.1.2))), omega arith, refl)
write_all_unrolled opens k (m ∷ ms) w n h l a b r =
    let (v, e, held, size, count, limit) =
      write_one opens m w n h (omega (arith, a.0)) b (omega (arith, a.0)) in
    let (u, e', held', size', count') =
      write_all_unrolled opens k ms v (n + length m + 1) held l a.1 (omega (arith, limit))
        (omega (arith, limit, size)) in
    (
      u,
      write_all_step opens m ms w v e ∙ e',
      (held'.0, (held'.1.0, held'.1.1, omega (arith, held'.1.2, a.0))),
      omega (arith, size, size'),
      count' ∙ count,
    )
