-- ===== src/Metric/Value.antt =====
-- `value_from_units` of engine/src/metric.cpp.
pub mod Exact
use benchmark_platform.Prelude.{
  ℕ, ◌<◌, ◌^◌, ◌≡◌, ◌≢◌, ◌⊎◌, refl, arith, false, ◌||◌, ◌==◌, ltb, if◌then◌else◌,
}
use benchmark_platform.Prelude.Double.{Double}
use benchmark_platform.Metric.{Metric, ValueRule, value_rule_of}

test_passes :
    (units ns threads : ℕ)
    → 0 < units
    → 0 < ns
    → 0 < threads
    → (units == 0 || ns == 0 || ltb threads 1) ≡ false
test_passes units ns threads pu pn pt = ground arith

module _ (d : Double) where
  open d use {D, from_ℕ, mul, div, Within, from_ℕ-Within, mul-Within, div-Within, Within-mono}

  -- The `switch`: `latency_p99_us` falls through to the final `return 0.0`.
  by_rule : ValueRule → D → D → ℕ → D
  by_rule ValueRule.units_per_s u ns threads = div u (div ns (from_ℕ 1_000_000_000))
  by_rule ValueRule.giga_units_per_s u ns threads = div u ns
  by_rule ValueRule.mega_units_per_s u ns threads = mul (div u ns) (from_ℕ 1000)
  by_rule ValueRule.ns_per_unit u ns threads = div ns (div u (from_ℕ threads))
  by_rule ValueRule.latency_p99_us u ns threads = from_ℕ 0

  -- `threads` is an `int`: a negative one is below 1 like 0.
  unfoldable pub value_from_units : Metric → ℕ → ℕ → ℕ → D
  unfolding by_rule
  value_from_units m units elapsed_ns threads =
      if units == 0 || elapsed_ns == 0 || ltb threads 1
      then from_ℕ 0
      else by_rule (value_rule_of m) (from_ℕ units) (from_ℕ elapsed_ns) threads

  by_rule-Within :
      (r : ValueRule) (u ns : D) (threads : ℕ)
      → r ≢ ValueRule.latency_p99_us
      → Within 64 u
      → Within 64 ns
      → 0 < threads
      → threads < 2 ^ 64
      → Within 192 (by_rule r u ns threads)
  unfolding by_rule
  by_rule-Within ValueRule.units_per_s u ns t h hu hn p q =
      div-Within 64 128 u _ hu
        (div-Within 64 64 ns _ hn (from_ℕ-Within 1_000_000_000 (omega arith) (omega arith))
          (omega arith))
        (omega arith)
  by_rule-Within ValueRule.giga_units_per_s u ns t h hu hn p q =
      Within-mono 128 192 _ (div-Within 64 64 u ns hu hn (omega arith)) (omega arith) (omega arith)
  by_rule-Within ValueRule.mega_units_per_s u ns t h hu hn p q =
      mul-Within 128 64 _ _ (div-Within 64 64 u ns hu hn (omega arith))
        (from_ℕ-Within 1000 (omega arith) (omega arith)) (omega arith)
  by_rule-Within ValueRule.ns_per_unit u ns t h hu hn p q =
      div-Within 64 128 ns _ hn (div-Within 64 64 u _ hu (from_ℕ-Within t p q) (omega arith))
        (omega arith)
  by_rule-Within ValueRule.latency_p99_us u ns t h hu hn p q = absurd (h refl)

  -- A trial's value is finite: for counts and times of 64 bits, with at least one unit, one
  -- nanosecond and one thread, it is a positive number from 2^-192 to 2^192, if the metric is no
  -- percentile.
  pub value_from_units-Within :
      (m : Metric) (units elapsed_ns threads : ℕ)
      → units < 2 ^ 64
      → elapsed_ns < 2 ^ 64
      → threads < 2 ^ 64
      → 0 < units
      → 0 < elapsed_ns
      → 0 < threads
      → value_rule_of m ≢ ValueRule.latency_p99_us
      → Within 192 (value_from_units m units elapsed_ns threads)
  unfolding value_from_units
  value_from_units-Within m units ns threads hu hn ht pu pn pt counted =
      rw (test_passes units ns threads pu pn pt) (
        by_rule-Within (value_rule_of m) _ _ threads counted (from_ℕ-Within units pu hu)
          (from_ℕ-Within ns pn hn) pt ht)

  -- The value is 0 if there is no unit, no nanosecond or no thread, and for a percentile.
  pub value_from_units-zero :
      (m : Metric) (units elapsed_ns threads : ℕ)
      → (units ≡ 0)
        ⊎ (elapsed_ns ≡ 0)
        ⊎ (threads ≡ 0)
        ⊎ (value_rule_of m ≡ ValueRule.latency_p99_us)
      → value_from_units m units elapsed_ns threads ≡ from_ℕ 0
  unfolding value_from_units
  value_from_units-zero m units ns threads h = ground arith
