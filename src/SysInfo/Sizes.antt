-- ===== src/SysInfo/Sizes.antt =====
-- engine/src/sysinfo.cpp: the sizes of the caches. The directory is the list of its entries, in the
-- order in which the system gives them. A size of `long` that is too large to be multiplied is not
-- wrapped: the source is undefined there.
use benchmark_platform.Prelude.{
  ℕ, suc, ◌-◌, ◌*◌, ◌%◌, ◌^◌, Bool, true, false, ◌&&◌, ◌||◌, Option, none, some, List, [], ◌∷◌, map,
  ltb, leb, ◌==◌, if◌then◌else◌,
}
use benchmark_platform.Prelude.Decimal.{drop_space, stoi, digits_from, starts_digit}
use benchmark_platform.Prelude.Int.{ℤ, pos, negsuc, neg, ltb_int}
use benchmark_platform.Prelude.Text.{codes}
use benchmark_platform.Cli.{same_text}
use benchmark_platform.SysInfo.{trim, to_lower, int_eq, after_prefix}

-- `static_cast<int>(long)`
unfoldable pub to_int : ℤ → ℤ
to_int (pos n) = let m = n % 2 ^ 32 in if ltb m (2 ^ 31) then pos m else negsuc (2 ^ 32 - 1 - m)
to_int (negsuc n) = let m = n % 2 ^ 32 in if ltb m (2 ^ 31) then negsuc m else pos (2 ^ 32 - 1 - m)

abbrev pub scaled : ℤ → ℕ → ℤ
scaled (pos n) k = pos (n * k)
scaled (negsuc n) k = neg (suc n * k)

-- The number behind a sign, to `long`, and the rest of the text.
unfoldable pub signed_long : (negative : Bool) → List ℕ → Option (ℤ × List ℕ)
signed_long negative s =
    let (v, rest) = digits_from s 0 in
    if starts_digit s && leb v (if negative then 2 ^ 63 else 2 ^ 63 - 1)
    then some (if negative then neg v else pos v, rest)
    else none

unfoldable pub sign_long : List ℕ → Option (ℤ × List ℕ)
sign_long [] = none
sign_long (c ∷ cs) =
    if c == 45
    then signed_long true cs
    else if c == 43
    then signed_long false cs
    else signed_long false (c ∷ cs)

-- `std::stol(t, &idx)`, with the text from `idx` on; it skips what `isspace` takes.
unfoldable pub stol : List ℕ → Option (ℤ × List ℕ)
stol t = sign_long (drop_space t)

unfoldable pub scale_of : List ℕ → ℕ
scale_of suffix =
    if same_text suffix (codes "m") || same_text suffix (codes "mb")
    then 1024
    else if same_text suffix (codes "g") || same_text suffix (codes "gb")
    then 1024 * 1024
    else 1

unfoldable pub parse_cache_size_kb : List ℕ → ℤ
parse_cache_size_kb text = elim (stol (trim text)) [
  | none ↦ pos 0
  | some (v, suffix) ↦ to_int (scaled v (scale_of (map to_lower suffix)))
]

pub record CacheSizes : Type 0 where
  pub l1d_kb : ℤ
  pub l2_kb : ℤ
  pub l3_kb : ℤ

-- A directory entry, with the first lines of its files.
pub record CacheEntry : Type 0 where
  pub is_directory : Bool
  pub name : List ℕ
  pub level : List ℕ
  pub kind : List ℕ
  pub size : List ℕ

abbrev pub max_int : ℤ → ℤ → ℤ
max_int a b = if ltb_int a b then b else a

unfoldable pub keep_size : (level : ℤ) (kind : List ℕ) (kb : ℤ) → CacheSizes → CacheSizes
keep_size level kind kb c =
    if int_eq level (pos 1) && same_text kind (codes "data")
    then record c { l1d_kb = max_int c.l1d_kb kb }
    else if int_eq level (pos 2)
    then record c { l2_kb = max_int c.l2_kb kb }
    else if int_eq level (pos 3)
    then record c { l3_kb = max_int c.l3_kb kb }
    else c

abbrev pub is_index : CacheEntry → Bool
is_index e =
    e.is_directory
    && (elim (after_prefix (codes "index") e.name) [ none ↦ false | some rest ↦ true ])

unfoldable pub take_caches : List CacheEntry → CacheSizes → Option CacheSizes
take_caches [] c = some c
take_caches (e ∷ es) c = elim (is_index e) [
  | false ↦ take_caches es c
  | true ↦ elim (stoi (48 ∷ trim e.level)) [
    | none ↦ none
    | some level ↦
        take_caches es
          (keep_size level (map to_lower (trim e.kind)) (parse_cache_size_kb (trim e.size)) c)
  ]
]

-- `none` for a directory that is not there.
unfoldable pub read_cache_sizes : Option (List CacheEntry) → Option CacheSizes
read_cache_sizes none = some (record { l1d_kb = pos 0; l2_kb = pos 0; l3_kb = pos 0 })
read_cache_sizes (some entries) =
    take_caches entries (record { l1d_kb = pos 0; l2_kb = pos 0; l3_kb = pos 0 })
