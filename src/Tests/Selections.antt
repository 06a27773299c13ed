-- ===== src/Tests/Selections.antt =====
-- `bench run`: which metrics a run is for, at concrete options.
use benchmark_platform.Prelude.{◌≡◌, refl, true, false, List, [], ◌∷◌}
use benchmark_platform.Prelude.Decimal.{digits_from, stoi, signed_from, sign_from, drop_space}
use benchmark_platform.Prelude.Int.{pos}
use benchmark_platform.Prelude.Result.{ok, err}
use benchmark_platform.Prelude.Text.{codes, text_of}
use benchmark_platform.Metric.{Metric, workload_of}
use benchmark_platform.Metric.Names.{parse_workload}
use benchmark_platform.Metric.Tables.{is_implemented, metrics_of}
use benchmark_platform.Plan.Specs.{metrics_to_run}
use benchmark_platform.Cli.{parse_size, read_decimal, shift_of, split_csv, split_from}
use benchmark_platform.Cli.Selection.{
  Options, Selection, BadOption, select, chosen, read_all, pick_workload, some_selected, size_of,
  gate_writes, any_write, is_disk_write, any_workload_writes, read_metrics, without_writes,
  numbers_of, number_of, some_pinned, trial_ms_for,
}
use benchmark_platform.Cli.Selection.Reads.{select-reads}

-- --all
abbrev everything : Options
everything = record {
  workloads_csv = [];
  metrics_csv = [];
  all = true;
  allow_writes = false;
  write_budget = codes "1G";
  trial_ms = 50;
  trial_ms_given = false;
  threads_csv = codes "1,2";
  working_sets_csv = codes "0,4K";
  cpus_csv = [];
  pin = false;
}

abbrev readable : List Metric
readable =
    Metric.cpu_int_ops ∷ Metric.cpu_fp_ops ∷ Metric.cpu_hash_ops ∷ Metric.mem_read_bw
    ∷ Metric.mem_write_bw ∷ Metric.mem_copy_bw ∷ Metric.mem_latency ∷ Metric.disk_seq_read_bw
    ∷ Metric.disk_rand_read_iops ∷ []

abbrev read_run : Selection
read_run = record {
  workloads = [];
  metrics = readable;
  write_budget_bytes = 1073741824;
  trial_ms = 500;
  thread_counts = pos 1 ∷ pos 2 ∷ [];
  working_sets = 0 ∷ 4096 ∷ [];
  cpus = [];
}

everything_run : select everything ≡ ok read_run
unfolding select chosen read_all split_csv split_from size_of parse_size read_decimal digits_from
    shift_of gate_writes any_write is_disk_write any_workload_writes read_metrics without_writes
    metrics_of numbers_of number_of stoi sign_from signed_from drop_space some_pinned trial_ms_for
    workload_of some_selected
everything_run = refl

-- --workload disk_seq is refused.
disk_run :
    select (record everything { all = false; workloads_csv = codes "disk_seq" })
    ≡ err BadOption.workload_writes
unfolding select chosen read_all split_csv split_from size_of parse_size read_decimal digits_from
    shift_of gate_writes any_write is_disk_write any_workload_writes metrics_of pick_workload
    text_of parse_workload is_implemented some_selected
disk_run = refl

select-reads_example :
    (s' : Selection) × (select (record everything { allow_writes = true }) ≡ ok s')
    × (readable ≡ without_writes (metrics_to_run s'.metrics s'.workloads))
    × (any_write readable ≡ false)
unfolding metrics_to_run
select-reads_example = select-reads everything read_run refl everything_run
