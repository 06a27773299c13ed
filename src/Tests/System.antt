-- ===== src/Tests/System.antt =====
-- The description of a machine: the theorems at concrete inputs.
use benchmark_platform.Prelude.{◌≡◌, refl, none, some, List, [], ◌∷◌}
use benchmark_platform.Prelude.Decimal.{stoi, sign_from, signed_from, digits_from, drop_space}
use benchmark_platform.Prelude.Int.{pos}
use benchmark_platform.Prelude.Text.{codes}
use benchmark_platform.Results.{machine_to_json}
use benchmark_platform.SysInfo.{
  trim, trim_front, trim_end, split_kv, split_at_colon, parse_cpuinfo, take_lines, take_line,
  take_entry, flush_block, add_core, emplace, has_core, info_of, CpuInfo,
}
use benchmark_platform.SysInfo.Cores.{Block, IsBlock, lines_of, Counts, parse_cpuinfo-Counts}
use benchmark_platform.SysInfo.Sizes.{
  parse_cache_size_kb, stol, sign_long, signed_long, to_int, scale_of, CacheSizes, read_cache_sizes,
}
use benchmark_platform.SysInfo.Machine.{Machine, describe, describe_if, collect_machine_info}
use benchmark_platform.SysInfo.Machine.Ident.{check_machine-collected}
use benchmark_platform.Tests.Documents.{documents}
use benchmark_platform.Validate.{check_machine}

-- Sizes as the kernel writes them.
sizes_read :
    (parse_cache_size_kb (codes "48K") ≡ pos 48) × (parse_cache_size_kb (codes "2M") ≡ pos 2048)
unfolding parse_cache_size_kb stol sign_long signed_long digits_from drop_space trim trim_front
    trim_end to_int scale_of
sizes_read = (refl, refl)

-- Two CPUs of one core.
abbrev first_cpu : Block
first_cpu = record {
  processor = codes "processor\t: 0";
  physical_id = codes "physical id\t: 0";
  core_id = codes "core id\t\t: 3";
  blank = [];
  socket = pos 0;
  core = 3;
}

abbrev second_cpu : Block
second_cpu = record first_cpu { processor = codes "processor\t: 1" }

first_cpu-IsBlock : IsBlock first_cpu
unfolding trim trim_front trim_end split_kv split_at_colon stoi sign_from signed_from digits_from
    drop_space
first_cpu-IsBlock = record {
  number = codes "0";
  socket_text = codes "0";
  core_text = codes "3";
  says_processor = (refl, refl);
  says_socket = (refl, refl);
  says_core = (refl, refl);
  reads_socket = refl;
  reads_core = refl;
  ends = refl;
}

second_cpu-IsBlock : IsBlock second_cpu
unfolding trim trim_front trim_end split_kv split_at_colon stoi sign_from signed_from digits_from
    drop_space
second_cpu-IsBlock = record {
  number = codes "1";
  socket_text = codes "0";
  core_text = codes "3";
  says_processor = (refl, refl);
  says_socket = (refl, refl);
  says_core = (refl, refl);
  reads_socket = refl;
  reads_core = refl;
  ends = refl;
}

abbrev cpus : List Block
cpus = first_cpu ∷ second_cpu ∷ []

parse_cpuinfo-Counts_example : Counts cpus (parse_cpuinfo (lines_of cpus))
parse_cpuinfo-Counts_example =
    parse_cpuinfo-Counts first_cpu (second_cpu ∷ []) (first_cpu-IsBlock, (second_cpu-IsBlock, tt))

abbrev seen : CpuInfo
seen = record { model = []; physical_cores = 1; logical_cpus = 2; flags = [] }

cpuinfo_run : parse_cpuinfo (lines_of cpus) ≡ some seen
unfolding parse_cpuinfo take_lines take_line take_entry flush_block add_core emplace has_core
    info_of trim trim_front trim_end split_kv split_at_colon stoi sign_from signed_from digits_from
    drop_space
cpuinfo_run = refl

abbrev box : Machine
box = record {
  cpuinfo = lines_of cpus;
  hardware_concurrency = 2;
  cache_dir = none;
  meminfo = codes "MemTotal:       16 kB" ∷ [];
  os_release = [];
  proc_version = [];
  kernel_release = some (codes "6.1");
  host = codes "box";
  compiler = "g++ 13";
  compiler_flags = "";
  engine_version = "0.0.0";
  engine_git_sha = "unknown";
}

abbrev no_caches : CacheSizes
no_caches = record { l1d_kb = pos 0; l2_kb = pos 0; l3_kb = pos 0 }

box_run : collect_machine_info box ≡ some (describe box seen no_caches)
unfolding collect_machine_info describe_if read_cache_sizes
box_run = rw cpuinfo_run refl

check_machine-collected_example :
    check_machine documents (machine_to_json documents (describe box seen no_caches)) ≡ []
check_machine-collected_example =
    check_machine-collected documents box (describe box seen no_caches) box_run
