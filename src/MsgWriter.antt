-- ===== src/MsgWriter.antt =====
-- src/fix/msgWriter.h and src/fix/msgWriter.cpp: the file of messages that rolls over by size. File 0 is
-- the path itself and file i the path with the suffix `.i`; a file is the bytes that it holds.
-- Writes to an open file succeed. A FILE that is open always belongs to file 0, since the loop of
-- `roll` renames that one last and then closes it.
pub mod Rolling
pub mod Sizes
mod Tests
use fosdk.Common.{
  ℕ, zero, suc, ◌+◌, ◌%◌, ◌^◌, Bool, true, false, not, ◌&&◌, List, [], ◌∷◌, ◌++◌, Option, none,
  some, ltb, ◌==◌, if◌then◌else◌, length, ℤ, pos, succ, pos_part, ltb_ℤ,
}

abbrev pub Files : Type 0
Files = ℕ → Option (List ℕ)

pub record MsgWriter : Type 0 where
  pub is_open : Bool
  pub size : ℕ
  pub size_limit : ℕ
  pub count_limit : ℤ
  pub count : ℤ
  pub files : Files

abbrev pub size_t_mod : ℕ
size_t_mod = 2 ^ 64

-- The constructor leaves mSize and mCount as it finds them.
unfoldable pub new_msg_writer : ℕ → ℤ → ℕ → ℤ → Files → MsgWriter
new_msg_writer limit file_count old_size old_count files = record {
  is_open = false;
  size = old_size;
  size_limit = limit;
  count_limit = file_count;
  count = old_count;
  files = files;
}

abbrev pub update : Files → ℕ → Option (List ℕ) → Files
update f i c j = if i == j then c else f j

-- fopen with "w" empties the file, so fstat finds no byte in it. `opens` is whether fopen succeeds; fstat of
-- the file that it has opened is taken to succeed.
unfoldable pub setup : Bool → MsgWriter → MsgWriter × Bool
setup opens w =
    if opens
    then (record w { is_open = true; size = 0; files = update w.files 0 (some []) }, true)
    else (w, false)

-- After a roll that could not open the file again this would close a FILE twice, which has no meaning
-- in C; the model leaves the state alone.
unfoldable pub teardown : MsgWriter → MsgWriter
teardown w = if w.is_open then record w { is_open = false } else w

-- rename fails if there is no such file, and replaces the target otherwise.
unfoldable pub rename : ℕ → ℕ → Files → Option Files
rename from to f = elim (f from) [
  | none ↦ none
  | some c ↦ some (update (update f from none) to (some c))
]

-- The loop of roll over i = k - 1, …, 0: the files after it, and whether it came to its end.
unfoldable pub shift : ℕ → Files → Files × Bool
shift zero f = (f, true)
shift (suc i) f = elim (rename i (suc i) f) [ none ↦ (f, false) | some g ↦ shift i g ]

-- The count is an int, which a writer has as it finds it: it may be negative. Its overflow is undefined in C++.
unfoldable pub next_count : MsgWriter → ℤ
next_count w =
    let n = succ w.count in
    if ltb_ℤ (pos 0) w.count_limit && not (ltb_ℤ n w.count_limit) then pos 1 else n

-- The rounds of the loop of roll, from the new count less one down to 0.
abbrev pub rounds : MsgWriter → ℕ
rounds w = pos_part (next_count w)

-- After the renames the file is closed, and opened again.
unfoldable pub roll : Bool → MsgWriter → MsgWriter
roll opens w =
    let (f, done) = shift (rounds w) w.files in
    let moved = record w { count = next_count w; files = f } in
    if done then (setup opens (record moved { is_open = false })).0 else moved

-- What fwrite of one item of `n` bytes returns.
abbrev pub items : ℕ → ℕ
items n = if n == 0 then 0 else 1

abbrev pub append : List ℕ → Files → Files
append bytes f = elim (f 0) [ none ↦ f | some c ↦ update f 0 (some (c ++ bytes)) ]

abbrev pub over_limit : List ℕ → MsgWriter → Bool
over_limit bytes w =
    not (w.size_limit == 0) && ltb w.size_limit ((w.size + (length bytes + 1)) % size_t_mod)

-- `none`: a write to a FILE that is closed.
unfoldable pub put : List ℕ → MsgWriter → Option MsgWriter
put bytes w =
    if w.is_open
    then some (record w {
      size = (w.size + items (length bytes) + 1) % size_t_mod;
      files = append (bytes ++ 10 ∷ []) w.files;
    })
    else none

unfoldable pub write : Bool → List ℕ → MsgWriter → Option MsgWriter
unfolding put
write opens bytes w = put bytes (if over_limit bytes w then roll opens w else w)
