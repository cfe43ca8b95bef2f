-- ===== src/SString/Tests.antt =====
-- Runs of strings, on short blocks.
use siempre.Base.{ℕ, ◌<◌, ◌≡◌, refl, inl, inr, List, [], ◌∷◌, none, some, arith}
use siempre.SString.{
  ok, fault, SString, from_string, empty_string, own, outside, calculate_capacity, append,
  ceil_log2, next_log, read_bytes, write_bytes,
}
use siempre.SString.Split.{split, split_lem}
use siempre.SString.Bytes.{Holds, Gives}
use siempre.SString.Grow.{append_lem}
use siempre.SString.Streams.{print, read_line, room_of, print-read}
use siempre.SString.Refine.{edits_refine, edits_string, double, put, keep, over}

abbrev abc : SString
abc = record { data_block = some (97 ∷ 98 ∷ 99 ∷ 0 ∷ []); cap = 4; size = 3 }

abbrev letters : List ℕ
letters = 97 ∷ 98 ∷ 99 ∷ []

abc-Holds : Holds abc letters
abc-Holds = (0 ∷ [], refl, refl, refl)

abbrev dash : SString
dash = record { data_block = some (45 ∷ 0 ∷ []); cap = 2; size = 1 }

dash-Holds : Holds dash (45 ∷ [])
dash-Holds = (0 ∷ [], refl, refl, refl)

capacity_run : calculate_capacity 5 ≡ 8
unfolding calculate_capacity ceil_log2 next_log
capacity_run = refl

append_run :
    append abc (outside (100 ∷ [])) 1
    ≡ ok (record { data_block = some (97 ∷ 98 ∷ 99 ∷ 100 ∷ []); cap = 4; size = 4 })
unfolding append read_bytes write_bytes
append_run = refl

append_lem_example : append abc own 3 ≡ fault
append_lem_example =
    (append_lem abc letters own 3 letters abc-Holds (refl, refl)).2 refl (omega arith) (omega arith)

split_lem_example : split 100 abc 98 ≡ ok none
split_lem_example = (split_lem abc letters 98 abc-Holds).0 (inr (inl refl)) 100

edits_refine_example :
    Gives
      (edits_string abc (double ∷ put 1 (120 ∷ []) ∷ keep 3 ∷ over 0 (121 ∷ []) ∷ []))
      (121 ∷ 120 ∷ 98 ∷ [])
edits_refine_example =
    edits_refine abc letters (double ∷ put 1 (120 ∷ []) ∷ keep 3 ∷ over 0 (121 ∷ []) ∷ []) abc-Holds
      (omega arith, (omega arith, (omega arith, (omega arith, tt))))
      (omega arith, (omega arith, (tt, (tt, tt))))

print-read_example :
    (s : SString) × (from_string letters ≡ ok s)
    × (3 < room_of letters
        → (print s ≡ ok letters)
          × (s' : SString) × (read_line empty_string (97 ∷ 98 ∷ 99 ∷ 10 ∷ 120 ∷ [])
              ≡ ok (s', 120 ∷ []))
          × Holds s' letters)
    × (3 ≡ room_of letters → print s ≡ fault)
print-read_example = print-read letters (120 ∷ []) (refl, (refl, (refl, tt)))

room_of-letters : room_of letters ≡ 128
unfolding calculate_capacity ceil_log2 next_log
room_of-letters = refl
