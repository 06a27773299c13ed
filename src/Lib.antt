-- ===== src/Lib.antt =====
-- The measuring engine of the benchmark platform (engine/): a program that runs a workload on
-- pinned threads, trial by trial, and reports one value for each trial of each metric.
--
-- The parts, and the files that model them:
-- - Metric (engine/src/metric.cpp, engine/include/bench/metric.hpp): the enumerations and the
--   tables `unit_of`, `workload_of`, `work_unit_of`, `value_rule_of`. Metric/Names has
--   `to_string` and the parsers; Metric/Tables has `workload_registry`, `metrics_of` and
--   `riders_of` (engine/src/runner.cpp); Metric/Value has `value_from_units` over
--   `Prelude/Double`, an interface of double arithmetic that keeps only in which powers of two a
--   positive value lies, and which whole numbers below 2^53 a value is; Metric/Value/Exact has the
--   exact values.
-- - MemLatency (engine/src/workloads/mem_latency.cpp): the Sattolo shuffle, `setup` and the
--   chase. The generator `std::mt19937_64` is the parameter `Prelude/Random`. MemLatency/Cycle
--   has the permutations of one cycle, MemLatency/Shuffle the shuffle, MemLatency/Chase the
--   workload.
-- - MemBw (engine/src/workloads/mem_bw.cpp): `sum_words`, the two ways to fill and to copy,
--   `setup` and `run_batch`. MemBw/Sum, MemBw/Fill and MemBw/Copy treat the kernels, MemBw/Setup
--   the invariant, MemBw/Batch and MemBw/Halves the batches.
-- - CpuHash (engine/src/workloads/cpu_hash.cpp, engine/include/bench/workloads/cpu_hash.hpp): the
--   hash, `setup` and `run_batch`; CpuHash/Mixer treats a round, CpuHash/Walk the batches.
-- - Barrier (engine/include/bench/sync.hpp): `SpinBarrier` with any number of threads that come
--   to it again and again, as a step relation in which a step is one access of a shared atomic.
--   Barrier/Invariant states what every reachable state satisfies; Barrier/Counts, Barrier/Fresh
--   and Barrier/Moves treat its steps; Barrier/Safety has what the barrier promises.
-- - Sha256 (engine/src/sha256.cpp): the digest and its text. Sha256/Spec describes the digest as
--   FIPS 180-4 does; Sha256/Blocks, Sha256/Tail and Sha256/Padding compare the two, Sha256/Hex
--   treats the text.
-- - CpuInt (engine/src/workloads/cpu_int.cpp): the integer workload; CpuInt/Lanes treats its
--   lanes one by one.
-- - Http (engine/src/http.cpp): `decode_chunked` with Http/Chunks, `send_all` and `recv_all` in
--   Http/Transfer over a script of the answers of the kernel, and `parse_url` in Http/Url with
--   Http/Url/Print.
-- - Cli (engine/src/main.cpp): `parse_size` and `split_csv`, with Cli/Size and Cli/Csv;
--   Cli/Selection has the callback of `bench run` up to the signal handler, and Cli/Selection/Reads
--   treats the gate of the write metrics.
-- - Results (engine/include/bench/result.hpp, engine/src/result.cpp): the report of a run and its
--   writers, over `Prelude/Json`, an interface of `nlohmann::json`; Results/Read has the strict
--   readers, Results/Members and Results/RoundTrip treat them.
-- - SysInfo (engine/src/sysinfo.cpp): the readers of /proc; SysInfo/Sizes has the caches,
--   SysInfo/Machine `machine_id` and `collect_machine_info`. SysInfo/Cores and SysInfo/Machine/Ident
--   treat them.
-- - Validate (engine/src/validate.cpp): `validate_run`, with its regular expressions in
--   Validate/Patterns; Validate/Fields, Validate/Rows, Validate/Good and Validate/Accepts treat it
--   from the checks of a member up.
-- - Clock (engine/src/timing.cpp): `clock_selftest` over a script of the readings of the clock,
--   with Clock/Samples for what the samples give and Clock/Window for when the test ends.
-- - Disk (engine/src/workloads/disk_io.cpp): `full_pread` and `full_pwrite` over a script of the
--   answers of the kernel, with Disk/Transfers and Disk/Writes. Disk/Seq has `DiskSeqWorkload`,
--   with Disk/Regions for the set-up, Disk/Frame and Disk/Batch for a batch; Disk/Rand has
--   `DiskRandWorkload`, with Disk/Histogram for its latencies and Disk/Offsets for its transfers.
--   Disk/TestFile has `ensure_test_file`, with Disk/TestFile/Stream for the words of the file,
--   Disk/TestFile/Blocks for a block, Disk/TestFile/Fill for the loop and Disk/TestFile/Makes for the
--   whole; Disk/Paths has the paths, `prepare_config` and `open_for`, with Disk/Paths/Refuses.
-- - Cache (engine/src/cache.cpp): `flush_lines` with Cache/Lines; Cache/Memory has `alloc_buffer`
--   and `Buffer`, with Cache/Window and Cache/Ownership; Cache/Cold has `ColdPrep`.
-- - Plan (engine/src/runner.cpp): `default_cpu_list` and the working sets, in Plan/Sizes; the
--   checks of the arguments and the list of configurations, in Plan/Specs, with Plan/Checks and
--   Plan/Layout.
-- - Latencies (the same file): `merge_latencies`, with the rank that is computed in floating point
--   as a parameter.
-- - Session (the same file): `ConfigSession`, its state and `run_one_trial`, where what the threads
--   do in a trial is one value. Session/Report describes a session by its trials alone;
--   Session/Timed and Session/Refines compare the two.
-- - Run (the same file): `run_benchmarks`, over a script of what it reads of the world: Run has
--   `should_stop`, the trials and the attempts of a configuration, treated in Run/Loop and
--   Run/Attempts; Run/Coordinator has `emit` and the two orders of a run, treated in
--   Run/Sequential and Run/Interleaved.
-- - Upload (engine/src/main.cpp): the split of a run's results into requests, in `post_envelope`.
-- - Tests: the theorems at concrete inputs, and runs.
--
-- `run_benchmarks` checks its arguments, takes the metrics that `metrics_of` gives for a workload,
-- and lays out a configuration for each metric, number of threads and working set. A session of a
-- configuration sets a workload up in each worker (for the disk and memory workloads with the
-- buffers of Cache), leads the workers through `SpinBarrier`s from trial to trial, each after the
-- cold preparation, adds up what `run_batch` reports, and turns the sum into a value with
-- `value_from_units`, or a histogram into one with `merge_latencies`. The callback of
-- `bench run` makes its arguments; the report is written as JSON, checked by `validate_run` and
-- sent in parts by `post_envelope`.
--
-- Numbers are natural numbers. An unsigned word of the source is a number below the power of two,
-- and wraps where the source's does; where a product or a sum is written without a wrap, the
-- bound that keeps it small is a condition of the theorem. A buffer is the list of its words.
--
-- Fuel stands for the rounds of six kinds of loops. `full_blocks` gets one more than the length
-- of the text, and needs one for 64 bytes. The loops over four words in MemBw get the number of
-- words; with less fuel the loops over single words that follow would do the rest. `every_second`
-- gets the number of CPUs, and needs half of it. `decode_from` gets a number of rounds from its
-- caller, and `none` says that they were not enough. `run_interleaved` gets a number of rounds and
-- needs one more than the trials of its longest session; `stream_from` gets the size of the buffer
-- and needs a round for each line. The other loops go over a script, which ends with `none`, or with
-- `io_pending` or `pending`, if it is too short.
--
-- Not modelled: the loop of a worker thread, the texts and the kernel files of cache control, the floating-point workload, the statistics, the other
-- subcommands of the command line (engine/src); the reads of the
-- system and of the clock; the requests and responses of HTTP beyond the loops of a transfer;
-- the text of JSON; the Go service (api/).
pub mod Prelude
pub mod Barrier
pub mod Cache
pub mod Cli
pub mod Clock
pub mod CpuHash
pub mod CpuInt
pub mod Disk
pub mod Http
pub mod Latencies
pub mod MemBw
pub mod MemLatency
pub mod Metric
pub mod Plan
pub mod Results
pub mod Run
pub mod Session
pub mod Sha256
pub mod SysInfo
pub mod Upload
pub mod Validate
pub mod Tests
