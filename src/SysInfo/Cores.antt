-- ===== src/SysInfo/Cores.antt =====
-- `parse_cpuinfo` on a file with a block of lines for each CPU.
use benchmark_platform.Prelude.{
  ℕ, suc, ◌+◌, ◌≡◌, refl, sym, ap, ◌∙◌, arith, Bool, true, false, not, ◌&&◌, ◌||◌, Option, some,
  List, [], ◌∷◌, All, length, if◌then◌else◌, Bool-cases, inl, inr,
}
use mathlib.Core.Option
use benchmark_platform.Prelude.Decimal.{stoi}
use benchmark_platform.Prelude.Int.{ℤ, pos, negsuc}
use benchmark_platform.Prelude.Text.{codes}
use benchmark_platform.SysInfo.{
  CpuInfo, CpuScan, is_nil, trim, split_kv, has_core, emplace, add_core, flush_block, take_entry,
  take_line, take_lines, unscanned, info_of, parse_cpuinfo, same_core, int_eq,
}

-- The lines of a CPU, with what they say.
pub record Block : Type 0 where
  pub processor : List ℕ
  pub physical_id : List ℕ
  pub core_id : List ℕ
  pub blank : List ℕ
  pub socket : ℤ
  pub core : ℕ

abbrev Says : List ℕ → (key val : List ℕ) → Type 0
Says line key val = (is_nil (trim line) ≡ false) × (split_kv line ≡ some (key, val))

pub record IsBlock (b : Block) : Type 0 where
  pub number : List ℕ
  pub socket_text : List ℕ
  pub core_text : List ℕ
  pub says_processor : Says b.processor (codes "processor") number
  pub says_socket : Says b.physical_id (codes "physical id") socket_text
  pub says_core : Says b.core_id (codes "core id") core_text
  pub reads_socket : stoi socket_text ≡ some b.socket
  pub reads_core : stoi core_text ≡ some (pos b.core)
  pub ends : is_nil (trim b.blank) ≡ true

abbrev pub lines_of : List Block → List (List ℕ)
lines_of [] = []
lines_of (b ∷ bs) = b.processor ∷ b.physical_id ∷ b.core_id ∷ b.blank ∷ lines_of bs

abbrev pub core_of : Block → ℤ × ℕ
core_of b = (b.socket, b.core)

abbrev after : Block → CpuScan → CpuScan
after b s = record s {
  logical_cpus = suc s.logical_cpus;
  cores = emplace (core_of b) s.cores;
  phys = pos 0;
  core = negsuc 0;
}

take_said :
    (line key val : List ℕ) (s : CpuScan)
    → Says line key val
    → take_line line s ≡ take_entry key val s
unfolding take_line
take_said line key val s (full, split) = rw (take_line, full, split) refl

take_blank :
    (line : List ℕ) (s : CpuScan)
    → is_nil (trim line) ≡ true
    → take_line line s ≡ some (flush_block s)
unfolding take_line
take_blank line s e = rw (take_line, e) refl

take_one :
    (line : List ℕ) (more : List (List ℕ)) (s s' : CpuScan)
    → take_line line s ≡ some s'
    → take_lines (line ∷ more) s ≡ take_lines more s'
unfolding take_lines
take_one line more s s' e = rw (take_lines, e) refl

take_block :
    (b : Block) (more : List (List ℕ)) (s : CpuScan)
    → IsBlock b
    → take_lines (b.processor ∷ b.physical_id ∷ b.core_id ∷ b.blank ∷ more) s
      ≡ take_lines more (after b s)
unfolding take_entry flush_block add_core
take_block b more s i =
    let counted : CpuScan = record s { logical_cpus = suc s.logical_cpus } in
    let placed : CpuScan = record counted { phys = b.socket } in
    let known : CpuScan = record placed { core = pos b.core } in
    let first : take_line b.processor s ≡ some counted =
      take_said b.processor (codes "processor") i.number s i.says_processor in
    let second : take_line b.physical_id counted ≡ some placed =
      take_said b.physical_id (codes "physical id") i.socket_text counted i.says_socket
      ∙ ap (Option.map (λ n. record counted { phys = n })) i.reads_socket in
    let third : take_line b.core_id placed ≡ some known =
      take_said b.core_id (codes "core id") i.core_text placed i.says_core
      ∙ ap (Option.map (λ n. record placed { core = n })) i.reads_core in
    let fourth : take_line b.blank known ≡ some (after b s) = take_blank b.blank known i.ends in
    take_one b.processor (b.physical_id ∷ b.core_id ∷ b.blank ∷ more) s counted first
    ∙ take_one b.physical_id (b.core_id ∷ b.blank ∷ more) counted placed second
    ∙ take_one b.core_id (b.blank ∷ more) placed known third
    ∙ take_one b.blank more known (after b s) fourth

abbrev after_all : List Block → CpuScan → CpuScan
after_all [] s = s
after_all (b ∷ bs) s = after_all bs (after b s)

take_blocks :
    (bs : List Block) (s : CpuScan)
    → All IsBlock bs
    → take_lines (lines_of bs) s ≡ some (after_all bs s)
unfolding take_lines
take_blocks [] s h = refl
take_blocks (b ∷ bs) s h = take_block b (lines_of bs) s h.0 ∙ take_blocks bs (after b s) h.1

-- Whether a core is the one of a block.
abbrev pub occurs : ℤ × ℕ → List Block → Bool
occurs c [] = false
occurs c (b ∷ bs) = same_core (core_of b) c || occurs c bs

-- No core comes twice.
abbrev pub distinct : List (ℤ × ℕ) → Bool
distinct [] = true
distinct (c ∷ cs) = not (has_core c cs) && distinct cs

int_eq_iff : (a b : ℤ) → int_eq a b ≡ true → a ≡ b
int_eq_iff (pos a) (pos b) h = ground arith
int_eq_iff (pos a) (negsuc b) h = cc
int_eq_iff (negsuc a) (pos b) h = cc
int_eq_iff (negsuc a) (negsuc b) h = ground arith

same_core_eq : (a b : ℤ × ℕ) → same_core a b ≡ true → a ≡ b
same_core_eq (p, m) (q, n) h =
    let e : p ≡ q = int_eq_iff p q (ground arith) in
    let f : m ≡ n = ground arith in ap (λ x. (x, m)) e ∙ ap (λ y. (q, y)) f

distinct-emplace :
    (c : ℤ × ℕ) (cs : List (ℤ × ℕ)) → distinct cs ≡ true → distinct (emplace c cs) ≡ true
unfolding emplace
distinct-emplace c cs h = elim (Bool-cases (has_core c cs)) [
  | inl old ↦ rw old h
  | inr new ↦ rw (new, new) h
]

or_false : (b : Bool) → (b || false) ≡ b
or_false true = refl
or_false false = refl

has_core-emplace :
    (x c : ℤ × ℕ) (cs : List (ℤ × ℕ)) → has_core x (emplace c cs) ≡ (same_core c x || has_core x cs)
unfolding emplace has_core
has_core-emplace x c cs = elim (Bool-cases (has_core c cs)) [
  | inr new ↦ rw new refl
  | inl old ↦ elim (Bool-cases (same_core c x)) [
    | inr other ↦ rw (old, other) refl
    | inl same ↦ rw (old, same) (ap (λ y. has_core y cs) (sym (same_core_eq c x same)) ∙ old)
  ]
]

distinct-after_all :
    (bs : List Block) (s : CpuScan)
    → distinct s.cores ≡ true
    → distinct (after_all bs s).cores ≡ true
distinct-after_all [] s h = h
distinct-after_all (b ∷ bs) s h = distinct-after_all bs (after b s) (distinct-emplace _ s.cores h)

has_core-after_all :
    (x : ℤ × ℕ) (bs : List Block) (s : CpuScan)
    → has_core x (after_all bs s).cores ≡ (occurs x bs || has_core x s.cores)
has_core-after_all x [] s = refl
has_core-after_all x (b ∷ bs) s =
    has_core-after_all x bs (after b s)
    ∙ ap (λ k. occurs x bs || k) (has_core-emplace x (core_of b) s.cores)
    ∙ swap_or (occurs x bs) (same_core (core_of b) x) (has_core x s.cores)
  where
    swap_or : (a b c : Bool) → (a || (b || c)) ≡ ((b || a) || c)
    swap_or a b c = ground arith

logical_after_all :
    (bs : List Block) (s : CpuScan) → (after_all bs s).logical_cpus ≡ length bs + s.logical_cpus
logical_after_all [] s = omega arith
logical_after_all (b ∷ bs) s = omega (arith, logical_after_all bs (after b s))

rest_after_all :
    (bs : List Block) (s : CpuScan) → s.core ≡ negsuc 0 → (after_all bs s).core ≡ negsuc 0
rest_after_all [] s e = e
rest_after_all (b ∷ bs) s e = rest_after_all bs (after b s) refl

flush_rest : (s : CpuScan) → s.core ≡ negsuc 0 → (flush_block s).cores ≡ s.cores
unfolding flush_block add_core
flush_rest s e = ap (λ z. add_core s.phys z s.cores) e

flush_logical : (s : CpuScan) → (flush_block s).logical_cpus ≡ s.logical_cpus
unfolding flush_block
flush_logical s = refl

same_core_self : (c : ℤ × ℕ) → same_core c c ≡ true
same_core_self (pos a, n) = ground arith
same_core_self (negsuc a, n) = ground arith

add_zero : (n : ℕ) → n + 0 ≡ n
add_zero n = omega arith

-- A set that is not empty is counted.
counted_cores :
    (x : ℤ × ℕ) (cs : List (ℤ × ℕ)) (n : ℕ)
    → has_core x cs ≡ true
    → (if is_nil cs then n else length cs) ≡ length cs
unfolding has_core
counted_cores x [] n h = cc
counted_cores x (c ∷ cs) n h = refl

has_core-nil : (x : ℤ × ℕ) → has_core x [] ≡ false
unfolding has_core
has_core-nil x = refl

-- The cores that a file names, each once.
pub record Counts (bs : List Block) (r : Option CpuInfo) : Type 0 where
  pub info : CpuInfo
  pub cores : List (ℤ × ℕ)
  pub returns : r ≡ some info
  pub logical : info.logical_cpus ≡ length bs
  pub physical : info.physical_cores ≡ length cores
  pub each_once : distinct cores ≡ true
  pub those_named : (x : ℤ × ℕ) → has_core x cores ≡ occurs x bs

-- For a file with a block of a processor, a socket and a core number and a blank line for each of
-- one or more CPUs, parse_cpuinfo returns, with as many logical CPUs as blocks, and as many
-- physical cores as the file names different pairs of a socket and a core.
pub parse_cpuinfo-Counts :
    (b : Block) (bs : List Block)
    → All IsBlock (b ∷ bs)
    → Counts (b ∷ bs) (parse_cpuinfo (lines_of (b ∷ bs)))
unfolding parse_cpuinfo info_of
parse_cpuinfo-Counts b bs h =
    let s : CpuScan = after_all (b ∷ bs) unscanned in
    let rest : (flush_block s).cores ≡ s.cores =
      flush_rest s (rest_after_all (b ∷ bs) unscanned refl) in
    let named : (x : ℤ × ℕ) → has_core x s.cores ≡ occurs x (b ∷ bs) = λ x.
      has_core-after_all x (b ∷ bs) unscanned
      ∙ ap (λ k. occurs x (b ∷ bs) || k) (has_core-nil x)
      ∙ or_false (occurs x (b ∷ bs)) in
    let here : has_core (core_of b) s.cores ≡ true =
      named (core_of b) ∙ ap (λ k. k || occurs (core_of b) bs) (same_core_self (core_of b)) in
    record {
      info = info_of (flush_block s);
      cores = s.cores;
      returns = ap (Option.map (λ t. info_of (flush_block t))) (take_blocks (b ∷ bs) unscanned h);
      logical = flush_logical s ∙ logical_after_all (b ∷ bs) unscanned ∙ add_zero (length (b ∷ bs));
      physical =
          ap (λ cs. if is_nil cs then (flush_block s).logical_cpus else length cs) rest
          ∙ counted_cores (core_of b) s.cores _ here;
      each_once = distinct-after_all (b ∷ bs) unscanned refl;
      those_named = named;
    }
