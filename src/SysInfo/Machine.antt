-- ===== src/SysInfo/Machine.antt =====
-- engine/src/sysinfo.cpp: `machine_id` and `collect_machine_info`. What the system answers is one
-- value; `none` for a call that fails, and an empty name counts as a failure.
pub mod Ident
use benchmark_platform.Prelude.{
  ℕ, zero, suc, ◌+◌, ◌/◌, ◌%◌, Bool, true, false, Option, none, some, List, [], ◌∷◌, ◌++◌, String,
  take, ltb, ◌==◌, if◌then◌else◌,
}
use benchmark_platform.Prelude.Int.{ℤ, pos, negsuc}
use benchmark_platform.Prelude.Text.{codes, text_of}
use benchmark_platform.Results.{MachineInfo}
use benchmark_platform.Sha256.{sha256_hex}
use benchmark_platform.SysInfo.{
  CpuInfo, parse_cpuinfo, parse_meminfo_total_bytes, parse_os_release_pretty_name,
  detect_virtualization, is_nil,
}
use benchmark_platform.SysInfo.Sizes.{CacheSizes, CacheEntry, read_cache_sizes}

-- The decimal digits of a number with at most `places` of them.
unfoldable pub decimal : (places : ℕ) → ℕ → List ℕ
decimal zero n = []
decimal (suc places) n =
    let front = decimal places (n / 10) in
    if ltb n 10 then (48 + n) ∷ [] else front ++ (48 + n % 10) ∷ []

-- `std::format("{}", n)`; a number of 64 bits has at most 20 digits.
abbrev pub format_int : ℤ → List ℕ
format_int (pos n) = decimal 20 n
format_int (negsuc n) = 45 ∷ decimal 20 (suc n)

-- 124 is the bar between two parts.
unfoldable pub machine_key : MachineInfo → List ℕ
machine_key m =
    codes m.cpu_model
    ++ (124 ∷ format_int m.physical_cores
        ++ (124 ∷ format_int m.logical_cpus
            ++ (124 ∷ format_int m.l3_kb
                ++ (124 ∷ decimal 20 m.memory_bytes ++ (124 ∷ codes m.hostname)))))

unfoldable pub machine_id : MachineInfo → List ℕ
machine_id m = take 32 (sha256_hex (machine_key m))

-- `compiler` to `engine_git_sha` are constants of the build.
pub record Machine : Type 0 where
  pub cpuinfo : List (List ℕ)
  pub hardware_concurrency : ℕ
  pub cache_dir : Option (List CacheEntry)
  pub meminfo : List (List ℕ)
  pub os_release : List (List ℕ)
  pub proc_version : List (List ℕ)
  pub kernel_release : Option (List ℕ)
  pub host : List ℕ
  pub compiler : String
  pub compiler_flags : String
  pub engine_version : String
  pub engine_git_sha : String

abbrev pub or_unknown : List ℕ → List ℕ
or_unknown [] = codes "unknown"
or_unknown (c ∷ cs) = c ∷ cs

abbrev pub release_of : Option (List ℕ) → List ℕ
release_of none = codes "unknown"
release_of (some release) = release

abbrev pub with_id : MachineInfo → MachineInfo
with_id m = record m { id = text_of (machine_id m) }

unfoldable pub describe : Machine → CpuInfo → CacheSizes → MachineInfo
describe sys cpu c =
    let logical = if ltb 0 cpu.logical_cpus then cpu.logical_cpus else sys.hardware_concurrency in
    with_id (record {
      id = "";
      hostname = text_of (or_unknown sys.host);
      cpu_model = text_of (or_unknown cpu.model);
      physical_cores = pos (if ltb 0 cpu.physical_cores then cpu.physical_cores else logical);
      logical_cpus = pos logical;
      l1d_kb = c.l1d_kb;
      l2_kb = c.l2_kb;
      l3_kb = c.l3_kb;
      memory_bytes = parse_meminfo_total_bytes sys.meminfo;
      os = text_of (parse_os_release_pretty_name sys.os_release);
      kernel = text_of (release_of sys.kernel_release);
      compiler = sys.compiler;
      compiler_flags = sys.compiler_flags;
      engine_version = sys.engine_version;
      engine_git_sha = sys.engine_git_sha;
      virtualized = text_of (detect_virtualization sys.proc_version);
    })

unfoldable pub describe_if : Machine → Option CpuInfo → Option CacheSizes → Option MachineInfo
describe_if sys (some cpu) (some c) = some (describe sys cpu c)
describe_if sys (some cpu) none = none
describe_if sys none c = none

unfoldable pub collect_machine_info : Machine → Option MachineInfo
collect_machine_info sys =
    describe_if sys (parse_cpuinfo sys.cpuinfo) (read_cache_sizes sys.cache_dir)
