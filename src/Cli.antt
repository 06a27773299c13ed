-- ===== src/Cli.antt =====
-- engine/src/main.cpp: the readers of options, `parse_size` and `split_csv`. A text is the list of its
-- characters. `std::from_chars` reads decimal digits into a word of 64 bits; the texts of the errors
-- are left out.
pub mod Csv
pub mod Size
pub mod Selection
use benchmark_platform.Prelude.{
  ℕ, zero, suc, ◌+◌, ◌-◌, ◌*◌, ◌^◌, Bool, true, false, ◌&&◌, ◌||◌, Option, none, some, List, [],
  ◌∷◌, ◌++◌, map, ltb, leb, ◌==◌, if◌then◌else◌,
}
use benchmark_platform.Prelude.Decimal.{digits_from, starts_digit}
use benchmark_platform.Prelude.Words.{shl64}

-- `none` for no digit, and for a value of 2^64 or more.
unfoldable pub read_decimal : List ℕ → Option (ℕ × List ℕ)
read_decimal s =
    let (v, rest) = digits_from s 0 in
    if starts_digit s && ltb v (2 ^ 64) then some (v, rest) else none

-- `std::toupper`
abbrev pub to_upper : ℕ → ℕ
to_upper c = if leb 97 c && leb c 122 then c - 32 else c

abbrev pub same_text : List ℕ → List ℕ → Bool
same_text [] [] = true
same_text [] (y ∷ ys) = false
same_text (x ∷ xs) [] = false
same_text (x ∷ xs) (y ∷ ys) = x == y && same_text xs ys

-- By how many bits a suffix in capitals shifts; 66, 71, 73, 75 and 77 are B, G, I, K and M.
unfoldable pub shift_of : List ℕ → Option ℕ
shift_of suffix =
    if same_text suffix [] || same_text suffix (66 ∷ [])
    then some 0
    else if same_text suffix (75 ∷ [])
        || same_text suffix (75 ∷ 66 ∷ [])
        || same_text suffix (75 ∷ 73 ∷ 66 ∷ [])
    then some 10
    else if same_text suffix (77 ∷ [])
        || same_text suffix (77 ∷ 66 ∷ [])
        || same_text suffix (77 ∷ 73 ∷ 66 ∷ [])
    then some 20
    else if same_text suffix (71 ∷ [])
        || same_text suffix (71 ∷ 66 ∷ [])
        || same_text suffix (71 ∷ 73 ∷ 66 ∷ [])
    then some 30
    else none

unfoldable pub parse_size : List ℕ → Option ℕ
parse_size s = elim (read_decimal s) [
  | none ↦ none
  | some (v, rest) ↦ elim (shift_of (map to_upper rest)) [ none ↦ none | some k ↦ some (shl64 v k) ]
]

-- `if (!cur.empty()) out.push_back(cur)`
abbrev pub push_part : List ℕ → List (List ℕ) → List (List ℕ)
push_part [] out = out
push_part (c ∷ cur) out = out ++ (c ∷ cur) ∷ []

-- The loop of `split_csv`; 44 is the comma, 32 the space.
unfoldable pub split_from : List ℕ → (cur : List ℕ) (out : List (List ℕ)) → List (List ℕ)
split_from [] cur out = push_part cur out
split_from (c ∷ cs) cur out =
    let at_comma = split_from cs [] (push_part cur out) in
    let at_space = split_from cs cur out in
    let at_other = split_from cs (cur ++ c ∷ []) out in
    if c == 44 then at_comma else (if c == 32 then at_space else at_other)

unfoldable pub split_csv : List ℕ → List (List ℕ)
split_csv s = split_from s [] []
