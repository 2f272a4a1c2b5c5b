-- ===== src/MsgWriter/Tests.antt =====
-- The theorems on the message file at concrete inputs.
use fosdk.Common.{
  ℕ, zero, suc, ◌≡◌, ◌<ℤ◌, pos, succ, refl, true, false, none, some, List, [], ◌∷◌, arith,
}
use fosdk.MsgWriter.{MsgWriter, Files, roll, rounds, next_count}
use fosdk.MsgWriter.Rolling.{Present, roll_lem, roll_bounded}
use fosdk.MsgWriter.Sizes.{Holds, write_all, write_all_unrolled}

-- The file, two older ones, and no more.
abbrev three_files : Files
three_files i = elim i [
  | suc j ↦ elim j [ suc k ↦ elim k [ suc l ↦ none | _ ↦ some (2 ∷ []) ] | _ ↦ some (1 ∷ []) ]
  | _ ↦ some (0 ∷ [])
]

abbrev writer : MsgWriter
writer = record {
  is_open = true;
  size = 0;
  size_limit = 20;
  count_limit = pos 4;
  count = pos 1;
  files = three_files;
}

writer-Present : Present (rounds writer) three_files
unfolding next_count succ
writer-Present zero h e = cc
writer-Present (suc zero) h e = cc
writer-Present (suc (suc i)) h e = omega arith

roll_lem_example : (roll true writer).files 0 ≡ some []
roll_lem_example = (roll_lem writer writer-Present).2

roll_bounded_example : (roll false writer).count <ℤ pos 4
roll_bounded_example = (roll_bounded false writer (omega arith) (omega arith)).1

-- Two messages of seven bytes.
abbrev seven : List ℕ
seven = 1 ∷ 2 ∷ 3 ∷ 4 ∷ 5 ∷ 6 ∷ 7 ∷ []

write_all_unrolled_example :
    (v : MsgWriter) × (write_all true (seven ∷ seven ∷ []) writer ≡ some v)
    × Holds 17 v
    × (v.size ≡ 4)
    × (v.count ≡ pos 1)
write_all_unrolled_example =
    write_all_unrolled true 7 (seven ∷ seven ∷ []) writer 1 (refl, (0 ∷ [], refl, refl))
      (omega arith) (refl, (refl, tt)) (omega arith) (omega arith)
