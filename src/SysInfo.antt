-- ===== src/SysInfo.antt =====
-- engine/src/sysinfo.cpp: the readers of the machine's description. A file is the list of the lines
-- that `std::getline` gives, a line the list of its characters; `none` stands for an exception of
-- `std::stoi`.
pub mod Cores
pub mod Sizes
pub mod Machine
use benchmark_platform.Prelude.{
  ℕ, zero, suc, ◌+◌, ◌-◌, ◌*◌, ◌^◌, min, max, Bool, true, false, not, ◌&&◌, ◌||◌, Option, none,
  some, List, [], ◌∷◌, ◌++◌, map, ltb, leb, ◌==◌, if◌then◌else◌, length,
}
use mathlib.Core.Option
use benchmark_platform.Prelude.Decimal.{
  stoi, is_digit, digits_from, is_space, starts_digit, drop_space,
}
use benchmark_platform.Prelude.Int.{ℤ, pos, negsuc, neg}
use benchmark_platform.Prelude.Text.{codes}
use benchmark_platform.Prelude.Words.{u64}
use benchmark_platform.Cli.{same_text}

-- " \t\r\n"
abbrev pub is_blank : ℕ → Bool
is_blank c = c == 32 || c == 9 || c == 13 || c == 10

unfoldable pub trim_front : List ℕ → List ℕ
trim_front [] = []
trim_front (c ∷ cs) = let rest = trim_front cs in if is_blank c then rest else c ∷ cs

unfoldable pub trim_end : List ℕ → List ℕ
trim_end [] = []
trim_end (c ∷ cs) = elim (trim_end cs) [
  | [] ↦ if is_blank c then [] else c ∷ []
  | d ∷ ds ↦ c ∷ d ∷ ds
]

unfoldable pub trim : List ℕ → List ℕ
trim s = trim_end (trim_front s)

-- The texts before and behind the first colon.
unfoldable pub split_at_colon : List ℕ → Option (List ℕ × List ℕ)
split_at_colon [] = none
split_at_colon (c ∷ cs) =
    let later = Option.map (λ (p : List ℕ × List ℕ). (c ∷ p.0, p.1)) (split_at_colon cs) in
    if c == 58 then some ([], cs) else later

unfoldable pub split_kv : List ℕ → Option (List ℕ × List ℕ)
split_kv line = Option.map (λ (p : List ℕ × List ℕ). (trim p.0, trim p.1)) (split_at_colon line)

-- `std::tolower`
abbrev pub to_lower : ℕ → ℕ
to_lower c = if leb 65 c && leb c 90 then c + 32 else c

-- `while (fs >> f)`, with the word that is being read
unfoldable pub words_from : List ℕ → (word : List ℕ) → List (List ℕ)
words_from [] [] = []
words_from [] (w ∷ word) = (w ∷ word) ∷ []
words_from (c ∷ cs) [] =
    let skipped = words_from cs [] in
    let begun = words_from cs (c ∷ []) in if is_space c then skipped else begun
words_from (c ∷ cs) (w ∷ word) =
    let ended = words_from cs [] in
    let more = words_from cs (w ∷ word ++ c ∷ []) in if is_space c then (w ∷ word) ∷ ended else more

pub record CpuInfo : Type 0 where
  pub model : List ℕ
  pub physical_cores : ℕ
  pub logical_cpus : ℕ
  pub flags : List (List ℕ)

-- The variables of `parse_cpuinfo`. `cores` is the set, as a list without repetition.
pub record CpuScan : Type 0 where
  pub model : List ℕ
  pub logical_cpus : ℕ
  pub flags : List (List ℕ)
  pub cores : List (ℤ × ℕ)
  pub phys : ℤ
  pub core : ℤ

abbrev pub int_eq : ℤ → ℤ → Bool
int_eq (pos a) (pos b) = a == b
int_eq (pos a) (negsuc b) = false
int_eq (negsuc a) (pos b) = false
int_eq (negsuc a) (negsuc b) = a == b

abbrev pub same_core : ℤ × ℕ → ℤ × ℕ → Bool
same_core a b = int_eq a.0 b.0 && a.1 == b.1

unfoldable pub has_core : ℤ × ℕ → List (ℤ × ℕ) → Bool
has_core c [] = false
has_core c (d ∷ ds) = same_core d c || has_core c ds

-- `cores.emplace`
unfoldable pub emplace : ℤ × ℕ → List (ℤ × ℕ) → List (ℤ × ℕ)
emplace c cores = if has_core c cores then cores else c ∷ cores

unfoldable pub add_core : ℤ → ℤ → List (ℤ × ℕ) → List (ℤ × ℕ)
add_core phys (pos core) cores = emplace (phys, core) cores
add_core phys (negsuc n) cores = cores

unfoldable pub flush_block : CpuScan → CpuScan
flush_block s = record s { cores = add_core s.phys s.core s.cores; phys = pos 0; core = negsuc 0 }

abbrev pub is_nil {ℓ} : {A : Type ℓ} → List A → Bool
is_nil [] = true
is_nil (x ∷ xs) = false

unfoldable pub take_entry : (key val : List ℕ) → CpuScan → Option CpuScan
take_entry key val s =
    if same_text key (codes "processor")
    then some (record s { logical_cpus = suc s.logical_cpus })
    else if same_text key (codes "physical id")
    then Option.map (λ n. record s { phys = n }) (stoi val)
    else if same_text key (codes "core id")
    then Option.map (λ n. record s { core = n }) (stoi val)
    else if same_text key (codes "model name") && is_nil s.model
    then some (record s { model = val })
    else if same_text key (codes "flags") && is_nil s.flags
    then some (record s { flags = words_from val [] })
    else some s

unfoldable pub take_line : List ℕ → CpuScan → Option CpuScan
take_line line s =
    if is_nil (trim line)
    then some (flush_block s)
    else (elim (split_kv line) [ none ↦ some s | some (key, val) ↦ take_entry key val s ])

unfoldable pub take_lines : List (List ℕ) → CpuScan → Option CpuScan
take_lines [] s = some s
take_lines (line ∷ lines) s = elim (take_line line s) [
  | none ↦ none
  | some s' ↦ take_lines lines s'
]

abbrev pub unscanned : CpuScan
unscanned = record {
  model = [];
  logical_cpus = 0;
  flags = [];
  cores = [];
  phys = pos 0;
  core = negsuc 0;
}

unfoldable pub info_of : CpuScan → CpuInfo
info_of s = record {
  model = s.model;
  physical_cores = if is_nil s.cores then s.logical_cpus else length s.cores;
  logical_cpus = s.logical_cpus;
  flags = s.flags;
}

unfoldable pub parse_cpuinfo : List (List ℕ) → Option CpuInfo
parse_cpuinfo lines = Option.map (λ s. info_of (flush_block s)) (take_lines lines unscanned)

-- The number behind a sign: 0 where there is none, the greatest one where it does not fit.
unfoldable pub unsigned_from : (negative : Bool) → List ℕ → ℕ
unsigned_from negative s =
    let v = (digits_from s 0).0 in
    if leb (2 ^ 64) v then 2 ^ 64 - 1 else (if negative then u64 (2 ^ 64 - v) else v)

-- `vs >> kb`, which takes a sign and negates modulo 2^64.
unfoldable pub read_u64 : List ℕ → ℕ
read_u64 s = elim (drop_space s) [
  | [] ↦ 0
  | c ∷ cs ↦
      if c == 45
      then unsigned_from true cs
      else (if c == 43 then unsigned_from false cs else unsigned_from false (c ∷ cs))
]

unfoldable pub parse_meminfo_total_bytes : List (List ℕ) → ℕ
parse_meminfo_total_bytes [] = 0
parse_meminfo_total_bytes (line ∷ lines) =
    let later = parse_meminfo_total_bytes lines in
    elim (split_kv line) [
      | none ↦ later
      | some (key, val) ↦
          if same_text key (codes "MemTotal") then u64 (read_u64 val * 1024) else later
    ]

-- What follows a prefix.
unfoldable pub after_prefix : List ℕ → List ℕ → Option (List ℕ)
after_prefix [] s = some s
after_prefix (p ∷ ps) [] = none
after_prefix (p ∷ ps) (c ∷ cs) = if p == c then after_prefix ps cs else none

-- The text without its last character, if that is `c`.
unfoldable pub without_last : ℕ → List ℕ → Option (List ℕ)
without_last c [] = none
without_last c (d ∷ []) = if d == c then some [] else none
without_last c (d ∷ e ∷ cs) = Option.map (λ rest. d ∷ rest) (without_last c (e ∷ cs))

unfoldable pub unquote : List ℕ → List ℕ
unquote [] = []
unquote (c ∷ cs) = elim (without_last 34 cs) [
  | none ↦ c ∷ cs
  | some inner ↦ if c == 34 then inner else c ∷ cs
]

unfoldable pub parse_os_release_pretty_name : List (List ℕ) → List ℕ
parse_os_release_pretty_name [] = codes "unknown"
parse_os_release_pretty_name (line ∷ lines) = elim (after_prefix (codes "PRETTY_NAME=") line) [
  | none ↦ parse_os_release_pretty_name lines
  | some v ↦ unquote v
]

unfoldable pub contains_text : List ℕ → List ℕ → Bool
contains_text part [] = is_nil part
contains_text part (c ∷ cs) = elim (after_prefix part (c ∷ cs)) [
  | some rest ↦ true
  | none ↦ contains_text part cs
]

abbrev pub first_line : List (List ℕ) → List ℕ
first_line [] = []
first_line (line ∷ lines) = line

unfoldable pub detect_virtualization : List (List ℕ) → List ℕ
detect_virtualization lines =
    if contains_text (codes "microsoft") (map to_lower (first_line lines))
    then codes "wsl2"
    else codes "none"
