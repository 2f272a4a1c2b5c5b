-- ===== src/MsgWriter/Rolling.antt =====
-- What `roll` of src/fix/msgWriter.cpp does to the files.
use fosdk.Common.{
  ℕ, zero, suc, ◌<◌, ◌≡◌, ◌≢◌, refl, Bool, true, none, some, List, [], arith, if◌then◌else◌,
  Option-cases, inl, inr, ◌&&◌, pos, succ, succ_parts, ltb_ℤ, ◌≤ℤ◌, ◌<ℤ◌, not,
}
use fosdk.MsgWriter.{Files, MsgWriter, update, setup, rename, shift, next_count, rounds, roll}

-- Files 0 to k - 1 are there.
abbrev pub Present : ℕ → Files → Type 0
Present k f = (i : ℕ) → i < k → f i ≢ none

moved : ℕ → List ℕ → Files → Files
moved k c f = update (update f k none) (suc k) (some c)

shift_step :
    (k : ℕ) (c : List ℕ) (f : Files) → f k ≡ some c → shift (suc k) f ≡ shift k (moved k c f)
unfolding shift rename moved
shift_step k c f e = ground arith

-- Each of the first k files moved up by one, and the rest as before.
record IsShifted (k : ℕ) (f g : Files) : Type 0 where
  below : (i : ℕ) → i < k → g (suc i) ≡ f i
  above : (j : ℕ) → k < j → g j ≡ f j

IsShifted-moved :
    (k : ℕ) (c : List ℕ) (f g : Files)
    → f k ≡ some c
    → IsShifted k (moved k c f) g
    → IsShifted (suc k) f g
unfolding moved
IsShifted-moved k c f g e h = record {
  below = λ i b. ground (arith, h.below i, h.above (suc k), e);
  above = λ j b. ground (arith, h.above j);
}

shift-IsShifted :
    (k : ℕ) (f : Files) → Present k f → ((shift k f).1 ≡ true) × IsShifted k f (shift k f).0
unfolding shift
shift-IsShifted zero f p = (refl, record { below = λ i h. elim h [ ]; above = λ j h. refl })
shift-IsShifted (suc k) f p = elim (Option-cases (f k)) [
  | inl gone ↦ absurd (p k (omega arith) gone)
  | inr (c, e) ↦
      let r = shift-IsShifted k (moved k c f) (still c) in
      rw (shift_step k c f e) (r.0, IsShifted-moved k c f _ e r.1)
]
  where
    still : (c : List ℕ) → Present k (moved k c f)
    still c i b = unfold moved in ground (arith, p i)

roll_opened :
    (w : MsgWriter)
    → (shift (rounds w) w.files).1 ≡ true
    → roll true w ≡ record w {
      is_open = true;
      size = 0;
      count = next_count w;
      files = update (shift (rounds w) w.files).0 0 (some []);
    }
unfolding roll setup
roll_opened w h = ground arith

-- If the files with numbers below the new count are there and the path can be opened, a roll moves each of
-- them up by one, leaves those above the count alone, and goes on with an empty file; the new count is the
-- old one and one, or 1 where that reaches a limit that is set.
pub roll_lem :
    (w : MsgWriter)
    → Present (rounds w) w.files
    → let r = roll true w in
      ((i : ℕ) → i < rounds w → r.files (suc i) ≡ w.files i)
      × ((j : ℕ) → rounds w < j → r.files j ≡ w.files j)
      × (r.files 0 ≡ some [])
      × (r.is_open ≡ true)
      × (r.size ≡ 0)
      × (r.count ≡ (
          if ltb_ℤ (pos 0) w.count_limit && not (ltb_ℤ (succ w.count) w.count_limit)
          then pos 1
          else succ w.count))
roll_lem w p =
    let h = shift-IsShifted (rounds w) w.files p in
    rw (roll_opened w h.0) (
      λ i b. ground (arith, h.1.below i),
      λ j b. ground (arith, h.1.above j),
      refl,
      refl,
      refl,
      unfold next_count in refl,
    )

shift_above : (k j : ℕ) (f : Files) → k < j → (shift k f).0 j ≡ f j
unfolding shift rename moved
shift_above zero j f h = refl
shift_above (suc k) j f h = elim (Option-cases (f k)) [
  | inl gone ↦ ground (arith, gone)
  | inr (c, e) ↦ rw (shift_step k c f e) (ground (arith, shift_above k j (moved k c f)))
]

next_count-lt :
    (w : MsgWriter)
    → pos 2 ≤ℤ w.count_limit
    → pos 0 ≤ℤ w.count
    → (pos 1 ≤ℤ next_count w) × (next_count w <ℤ w.count_limit)
unfolding next_count
next_count-lt w h k = ground (arith, succ_parts w.count)

-- With a limit of at least 2 and a count that is not negative, the count after a roll is at least 1 and below
-- the limit, and the files numbered from the limit on are as before, whether or not a rename or the opening
-- fails.
pub roll_bounded :
    (opens : Bool) (w : MsgWriter)
    → pos 2 ≤ℤ w.count_limit
    → pos 0 ≤ℤ w.count
    → let r = roll opens w in
      (pos 1 ≤ℤ r.count)
      × (r.count <ℤ w.count_limit)
      × ((j : ℕ) → w.count_limit ≤ℤ pos j → r.files j ≡ w.files j)
unfolding roll setup
roll_bounded opens w h k =
    let n = next_count-lt w h k in
    (
      ground (arith, n.0),
      ground (arith, n.1),
      λ j b. ground (arith, shift_above (rounds w) j w.files, n.1),
    )
