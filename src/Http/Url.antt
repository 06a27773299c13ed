-- ===== src/Http/Url.antt =====
-- engine/src/http.cpp: `parse_url`. A text is the list of its characters; the texts of the errors are
-- left out. 47 is the slash, 58 the colon, 91 and 93 are the brackets.
pub mod Print
use benchmark_platform.Prelude.{
  ℕ, zero, suc, ◌+◌, ◌-◌, ◌*◌, ◌^◌, Bool, true, false, not, ◌&&◌, ◌||◌, Option, none, some, List,
  [], ◌∷◌, ◌++◌, map, ltb, leb, ◌==◌, if◌then◌else◌,
}
use benchmark_platform.Prelude.Decimal.{digits_from, starts_digit}

pub record Url : Type 0 where
  pub host : List ℕ
  pub port : ℕ
  pub path : List ℕ

pub data UrlError : Type 0 where
  https_unsupported not_http no_host bad_port : UrlError

pub data Parsed : Type 0 where
  parsed : Url → Parsed
  refused : UrlError → Parsed

-- What stands behind a prefix, if the text begins with it.
unfoldable pub strip_prefix : List ℕ → List ℕ → Option (List ℕ)
strip_prefix [] s = some s
strip_prefix (p ∷ ps) [] = none
strip_prefix (p ∷ ps) (c ∷ cs) = let more = strip_prefix ps cs in if p == c then more else none

abbrev pub http : List ℕ
http = 104 ∷ 116 ∷ 116 ∷ 112 ∷ 58 ∷ 47 ∷ 47 ∷ []

abbrev pub https : List ℕ
https = 104 ∷ 116 ∷ 116 ∷ 112 ∷ 115 ∷ 58 ∷ 47 ∷ 47 ∷ []

-- The text before the first slash, and from it on.
unfoldable pub split_slash : List ℕ → List ℕ × List ℕ
split_slash [] = ([], [])
split_slash (c ∷ cs) =
    let more = split_slash cs in if c == 47 then ([], c ∷ cs) else (c ∷ more.0, more.1)

-- The texts before and behind the last colon.
unfoldable pub split_colon : List ℕ → Option (List ℕ × List ℕ)
split_colon [] = none
split_colon (c ∷ cs) = elim (split_colon cs) [
  | some (before, behind) ↦ some (c ∷ before, behind)
  | none ↦ if c == 58 then some ([], cs) else none
]

unfoldable pub has_bracket : List ℕ → Bool
has_bracket [] = false
has_bracket (c ∷ cs) = c == 93 || has_bracket cs

-- The text without a closing bracket at its end.
unfoldable pub strip_last : List ℕ → Option (List ℕ)
strip_last [] = none
strip_last (c ∷ []) = if c == 93 then some [] else none
strip_last (c ∷ d ∷ cs) = elim (strip_last (d ∷ cs)) [ none ↦ none | some s ↦ some (c ∷ s) ]

unfoldable pub strip_brackets : List ℕ → List ℕ
strip_brackets [] = []
strip_brackets (c ∷ cs) = elim (strip_last cs) [
  | none ↦ c ∷ cs
  | some inner ↦ if c == 91 then inner else c ∷ cs
]

-- The port that a text is, all of it.
unfoldable pub port_of : List ℕ → Option ℕ
port_of s =
    let (v, rest) = digits_from s 0 in
    elim rest [
      | [] ↦ if starts_digit s && (ltb 0 v && leb v 65535) then some v else none
      | c ∷ cs ↦ none
    ]

-- The last part, with the host as it is written.
unfoldable pub with_host : (host : List ℕ) (port : ℕ) (path : List ℕ) → Parsed
with_host host port path = elim (strip_brackets host) [
  | [] ↦ Parsed.refused UrlError.no_host
  | c ∷ cs ↦ Parsed.parsed (record { host = c ∷ cs; port = port; path = path })
]

unfoldable pub parse_authority : (authority path : List ℕ) → Parsed
parse_authority [] path = Parsed.refused UrlError.no_host
parse_authority (c ∷ cs) path = elim (split_colon (c ∷ cs)) [
  | none ↦ with_host (c ∷ cs) 80 path
  | some (host, port_str) ↦
      if has_bracket port_str then with_host (c ∷ cs) 80 path else (elim (port_of port_str) [
        | none ↦ Parsed.refused UrlError.bad_port
        | some port ↦ with_host host port path
      ])
]

-- Without a slash the path is the default one.
abbrev pub path_or_default : List ℕ → List ℕ
path_or_default [] = 47 ∷ []
path_or_default (c ∷ cs) = c ∷ cs

unfoldable pub parse_url : List ℕ → Parsed
parse_url url = elim (strip_prefix https url) [
  | some rest ↦ Parsed.refused UrlError.https_unsupported
  | none ↦ elim (strip_prefix http url) [
    | none ↦ Parsed.refused UrlError.not_http
    | some rest ↦ parse_authority (split_slash rest).0 (path_or_default (split_slash rest).1)
  ]
]
