-- ===== src/Http.antt =====
-- engine/src/http.cpp: `decode_chunked`, over the bytes of the body (the child Transfer has `send_all`
-- and `recv_all`, Url has `parse_url`). A position is a `size_t`, whose
-- sums wrap at 2^64. The loop of the source runs on fuel, and `none` means that it has run out.
-- The resolution and connection of sockets and `post_json` are not modelled.
pub mod Chunks
pub mod Transfer
pub mod Url
use benchmark_platform.Prelude.{
  ℕ, zero, suc, ◌+◌, ◌-◌, ◌*◌, ◌%◌, ◌^◌, min, true, false, Option, none, some, List, [], ◌∷◌, ◌++◌,
  ◌==◌, leb, ltb, if◌then◌else◌, ◌&&◌, Bool, length, take, drop,
}
use benchmark_platform.Prelude.Words.{u64}

abbrev pub cr : ℕ
cr = 13

abbrev pub lf : ℕ
lf = 10

abbrev pub after : Option ℕ → Option ℕ
after none = none
after (some k) = some (suc k)

abbrev pub starts_lf : List ℕ → Bool
starts_lf [] = false
starts_lf (y ∷ ys) = y == lf

-- `find("\r\n")`
pub find_crlf : List ℕ → Option ℕ
find_crlf [] = none
find_crlf (x ∷ xs) =
    let later = find_crlf xs in if (x == cr) && starts_lf xs then some 0 else after later

-- The value of a hexadecimal digit of either case.
abbrev pub digit_value : ℕ → Option ℕ
digit_value c =
    if leb 48 c && leb c 57
    then some (c - 48)
    else (if leb 97 c && leb c 102
        then some (c - 87)
        else (if leb 65 c && leb c 70 then some (c - 55) else none))

-- The value of the digits that a text begins with, behind the value `acc`.
unfoldable pub digits_value : List ℕ → ℕ → ℕ
digits_value [] acc = acc
digits_value (c ∷ cs) acc = elim (digit_value c) [
  | none ↦ acc
  | some d ↦ digits_value cs (acc * 16 + d)
]

-- `std::from_chars` to a `size_t` in base 16, with `none` for `invalid_argument`, where the text
-- begins with no digit, and for `result_out_of_range`.
unfoldable pub from_chars : List ℕ → Option ℕ
from_chars [] = none
from_chars (c ∷ cs) = elim (digit_value c) [
  | none ↦ none
  | some d ↦ let value = digits_value cs d in if ltb value (2 ^ 64) then some value else none
]

-- The loop of `decode_chunked` from the position `pos`, with the output so far.
pub decode_from : ℕ → List ℕ → ℕ → List ℕ → Option (List ℕ)
decode_from zero body pos out = none
decode_from (suc fuel) body pos out = elim (ltb pos (length body)) [
  | false ↦ some out
  | true ↦ elim (find_crlf (drop pos body)) [
    | none ↦ some out
    | some k ↦ elim (from_chars (take k (drop pos body))) [
      | none ↦ some out
      | some len ↦ elim (len == 0) [
        | true ↦ some out
        | false ↦
            decode_from fuel body (u64 (pos + k + 2 + u64 (len + 2)))
              (out ++ take (min len (length body - (pos + k + 2))) (drop (pos + k + 2) body))
      ]
    ]
  ]
]

pub decode_chunked : ℕ → List ℕ → Option (List ℕ)
decode_chunked fuel body = decode_from fuel body 0 []
