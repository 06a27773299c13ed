-- ===== src/Results/Members.antt =====
-- Reading a member of an object that was written, and the names in it.
use benchmark_platform.Prelude.{ℕ, ◌<◌, ◌^◌, ◌≡◌, refl, ap, String, true, Option, some, List}
use benchmark_platform.Prelude.Int.{ℤ, pos}
use benchmark_platform.Prelude.Json.{JsonLib, IsInt, lookup, distinct}
use benchmark_platform.Prelude.Result.{ok}
use benchmark_platform.Metric.{Workload, Metric, MetricUnit, unit_of}
use benchmark_platform.Metric.Names.{
  parse_workload, parse_metric, workload_to_string, metric_to_string, unit_to_string, parse_iff,
}
use benchmark_platform.Results.{MachineInfo, ResultRow, SummaryRow}
use benchmark_platform.Results.Read.{known, same_unit, schema_one, unit_eq, get_required, value_or}

pub known_workload :
    (key : String) (w : Workload) → known parse_workload key (workload_to_string w) ≡ ok w
unfolding known
known_workload key w = rw (known, ((parse_iff (workload_to_string w)).0 w).1 refl) refl

pub known_metric : (key : String) (m : Metric) → known parse_metric key (metric_to_string m) ≡ ok m
unfolding known
known_metric key m = rw (known, ((parse_iff (metric_to_string m)).1 m).1 refl) refl

pub unit_eq_self : (u : MetricUnit) → unit_eq u u ≡ true
unit_eq_self MetricUnit.ops_per_s = refl
unit_eq_self _ = refl

pub same_unit-unit_of : (m : Metric) → same_unit m (unit_to_string (unit_of m)) ≡ ok tt
unfolding same_unit
same_unit-unit_of m =
    rw (same_unit, ((parse_iff (unit_to_string (unit_of m))).2 (unit_of m)).1 refl, unit_eq_self)
      refl

pub schema_one-one : (z : ℤ) → z ≡ pos 1 → schema_one z ≡ ok tt
unfolding schema_one
schema_one-one z e = ap schema_one e

-- The numbers fit the types of the members.
abbrev pub FitsMachine : MachineInfo → Type 0
FitsMachine m =
    IsInt m.physical_cores
    × IsInt m.logical_cpus
    × IsInt m.l1d_kb
    × IsInt m.l2_kb
    × IsInt m.l3_kb
    × (m.memory_bytes < 2 ^ 64)

abbrev pub FitsResult : {D J : Type 0} → ResultRow D J → Type 0
FitsResult r =
    IsInt r.thread_count × IsInt r.trial × (r.working_set_bytes < 2 ^ 64) × (r.duration_ns < 2 ^ 64)

abbrev pub FitsSummary : {D : Type 0} → SummaryRow D → Type 0
FitsSummary s =
    IsInt s.thread_count
    × IsInt s.n
    × IsInt s.late_trials
    × IsInt s.canary_attempts
    × (s.working_set_bytes < 2 ^ 64)

module _ {D : Type 0} (lib : JsonLib D) where
  open lib use {Json, object, array, string, integer, unsigned, double}

  pub required_at :
      {T : Type 0} (get : Json → Option T) (key : String) (m : List (String × Json)) (v : Json)
      (a : T)
      → distinct m ≡ true
      → lookup key m ≡ some v
      → get v ≡ some a
      → get_required lib get key (object m) ≡ ok a
  unfolding get_required
  required_at get key m v a d l g = rw (get_required, lib.find-object key m d, l, g) refl

  pub value_at :
      {T : Type 0} (get : Json → Option T) (other : T) (key : String) (m : List (String × Json))
      (v : Json) (a : T)
      → distinct m ≡ true
      → lookup key m ≡ some v
      → get v ≡ some a
      → value_or lib get other key (object m) ≡ ok a
  unfolding value_or
  value_at get other key m v a d l g = rw (value_or, lib.find-object key m d, l, g) refl

  pub string_at :
      (key : String) (m : List (String × Json)) (s : String)
      → distinct m ≡ true
      → lookup key m ≡ some (string s)
      → get_required lib lib.get_string key (object m) ≡ ok s
  string_at key m s d l =
      required_at lib.get_string key m (string s) s d l (lib.get_string-string s)

  pub int_at :
      (key : String) (m : List (String × Json)) (z : ℤ)
      → distinct m ≡ true
      → lookup key m ≡ some (integer z)
      → IsInt z
      → get_required lib lib.get_int key (object m) ≡ ok z
  int_at key m z d l i = required_at lib.get_int key m (integer z) z d l (lib.get_int-integer z i)

  pub u64_at :
      (key : String) (m : List (String × Json)) (n : ℕ)
      → distinct m ≡ true
      → lookup key m ≡ some (unsigned n)
      → n < 2 ^ 64
      → get_required lib lib.get_u64 key (object m) ≡ ok n
  u64_at key m n d l i = required_at lib.get_u64 key m (unsigned n) n d l (lib.get_u64-unsigned n i)

  pub double_at :
      (key : String) (m : List (String × Json)) (x : D)
      → distinct m ≡ true
      → lookup key m ≡ some (double x)
      → get_required lib lib.get_double key (object m) ≡ ok x
  double_at key m x d l =
      required_at lib.get_double key m (double x) x d l (lib.get_double-double x)

  pub double_or_at :
      (key : String) (m : List (String × Json)) (x : D)
      → distinct m ≡ true
      → lookup key m ≡ some (double x)
      → value_or lib lib.get_double lib.zero_double key (object m) ≡ ok x
  double_or_at key m x d l =
      value_at lib.get_double lib.zero_double key m (double x) x d l (lib.get_double-double x)

  pub int_or_at :
      (other : ℤ) (key : String) (m : List (String × Json)) (z : ℤ)
      → distinct m ≡ true
      → lookup key m ≡ some (integer z)
      → IsInt z
      → value_or lib lib.get_int other key (object m) ≡ ok z
  int_or_at other key m z d l i =
      value_at lib.get_int other key m (integer z) z d l (lib.get_int-integer z i)
