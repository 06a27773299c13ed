-- ===== src/Metric/Value/Exact.antt =====
-- `value_from_units`, against what the unit of a metric says.
use benchmark_platform.Prelude.{
  ℕ, ◌*◌, ◌<◌, ◌≤◌, ◌^◌, ◌≡◌, ◌⊎◌, sym, subst, arith, true, false, inl, inr, mul_mono, ◌||◌, ◌==◌,
  ltb,
}
use benchmark_platform.Prelude.Double.{Double}
use benchmark_platform.Metric.{Metric, MetricUnit, ValueRule, unit_of, value_rule_of}
use benchmark_platform.Metric.Value.{by_rule, value_from_units}

-- So many units in a number of nanoseconds by a number of threads are worth `value` in the unit of a
-- metric: operations in each second; gigabytes or, a thousand times as many, megabytes in each
-- second, for bytes in each nanosecond; nanoseconds for each of the loads that every thread makes.
-- Nothing done, in no time or by no thread is worth 0, and a percentile is no matter of counts.
pub data Worth : MetricUnit → (units ns threads value : ℕ) → Type 0 where
  operations :
      (units ns threads value seconds : ℕ)
      → 0 < seconds
      → units ≡ value * seconds
      → ns ≡ seconds * 10 ^ 9
      → Worth MetricUnit.ops_per_s units ns threads value
  transfers :
      (units ns threads value seconds : ℕ)
      → 0 < seconds
      → units ≡ value * seconds
      → ns ≡ seconds * 10 ^ 9
      → Worth MetricUnit.iops units ns threads value
  gigabytes :
      (units ns threads value : ℕ)
      → units ≡ value * ns
      → Worth MetricUnit.gb_per_s units ns threads value
  megabytes :
      (units ns threads value bytes_per_ns : ℕ)
      → units ≡ bytes_per_ns * ns
      → value ≡ bytes_per_ns * 1000
      → Worth MetricUnit.mb_per_s units ns threads value
  latency :
      (units ns threads value loads : ℕ)
      → 0 < loads
      → units ≡ loads * threads
      → ns ≡ value * loads
      → Worth MetricUnit.ns units ns threads value
  percentile : (units ns threads : ℕ) → Worth MetricUnit.us units ns threads 0

rule_for : MetricUnit → ValueRule
rule_for MetricUnit.ops_per_s = ValueRule.units_per_s
rule_for MetricUnit.iops = ValueRule.units_per_s
rule_for MetricUnit.gb_per_s = ValueRule.giga_units_per_s
rule_for MetricUnit.mb_per_s = ValueRule.mega_units_per_s
rule_for MetricUnit.ns = ValueRule.ns_per_unit
rule_for MetricUnit.us = ValueRule.latency_p99_us

value_rule_of-unit_of : (m : Metric) → value_rule_of m ≡ rule_for (unit_of m)
unfolding value_rule_of unit_of rule_for
value_rule_of-unit_of m = ground arith

loads_small :
    (loads threads units : ℕ)
    → units < 2 ^ 53
    → 0 < threads
    → units ≡ loads * threads
    → loads < 2 ^ 53
loads_small loads threads units h some e =
    let one : 1 * loads ≤ threads * loads = mul_mono 1 threads loads some in
    let turn : threads * loads ≡ loads * threads = grind arith in omega (arith, one, turn)

module _ (d : Double) where
  open d use {D, from_ℕ, Whole, from_ℕ-Whole, mul-Whole, div-Whole}

  per_second :
      (units ns value seconds : ℕ)
      → units < 2 ^ 53
      → ns < 2 ^ 53
      → value < 2 ^ 53
      → 0 < seconds
      → units ≡ value * seconds
      → ns ≡ seconds * 10 ^ 9
      → Whole value (by_rule d ValueRule.units_per_s (from_ℕ units) (from_ℕ ns) 1)
  unfolding by_rule
  per_second units ns value seconds hu hn hv some eu en =
      div-Whole value seconds _ _ (subst (λ n. Whole n (from_ℕ units)) eu (from_ℕ-Whole units hu))
        (div-Whole seconds (10 ^ 9) _ _ (subst (λ n. Whole n (from_ℕ ns)) en (from_ℕ-Whole ns hn))
          (from_ℕ-Whole (10 ^ 9) (omega arith)) (omega arith) (omega arith))
        some hv

  from_ℕ_as : (n k : ℕ) → n < 2 ^ 53 → n ≡ k → Whole k (from_ℕ n)
  from_ℕ_as n k h e = subst (λ j. Whole j (from_ℕ n)) e (from_ℕ-Whole n h)

  by_rule-Worth :
      (unit : MetricUnit) (units ns threads value : ℕ)
      → units < 2 ^ 53
      → ns < 2 ^ 53
      → threads < 2 ^ 53
      → value < 2 ^ 53
      → 0 < ns
      → 0 < threads
      → Worth unit units ns threads value
      → Whole value (by_rule d (rule_for unit) (from_ℕ units) (from_ℕ ns) threads)
  unfolding by_rule rule_for
  by_rule-Worth _ units ns threads value hu hn ht hv pn pt
        (Worth.operations _ _ _ _ seconds some eu en) =
      per_second units ns value seconds hu hn hv some eu en
  by_rule-Worth _ units ns threads value hu hn ht hv pn pt
        (Worth.transfers _ _ _ _ seconds some eu en) =
      per_second units ns value seconds hu hn hv some eu en
  by_rule-Worth _ units ns threads value hu hn ht hv pn pt (Worth.gigabytes _ _ _ _ eu) =
      div-Whole value ns _ _ (from_ℕ_as units (value * ns) hu eu) (from_ℕ-Whole ns hn) pn hv
  by_rule-Worth _ units ns threads value hu hn ht hv pn pt (Worth.megabytes _ _ _ _ rate eu ev) =
      subst (λ v. Whole v (by_rule d ValueRule.mega_units_per_s (from_ℕ units) (from_ℕ ns) threads))
        (sym ev)
        (mul-Whole rate 1000 _ _
          (div-Whole rate ns _ _ (from_ℕ_as units (rate * ns) hu eu) (from_ℕ-Whole ns hn) pn
            (omega arith))
          (from_ℕ-Whole 1000 (omega arith)) (omega arith))
  by_rule-Worth _ units ns threads value hu hn ht hv pn pt
        (Worth.latency _ _ _ _ loads some eu en) =
      div-Whole value loads _ _ (from_ℕ_as ns (value * loads) hn en)
        (div-Whole loads threads _ _ (from_ℕ_as units (loads * threads) hu eu)
          (from_ℕ-Whole threads ht) pt (loads_small loads threads units hu pt eu))
        some hv
  by_rule-Worth _ units ns threads _ hu hn ht hv pn pt (Worth.percentile _ _ _) =
      from_ℕ-Whole 0 (omega arith)

  -- What a trial is worth in the unit of the metric: nothing where nothing was done, in no time or
  -- by no thread.
  abbrev pub Earns : Metric → (units ns threads value : ℕ) → Type 0
  Earns m units ns threads value =
      (((units ≡ 0) ⊎ ((ns ≡ 0) ⊎ (threads ≡ 0))) × (value ≡ 0))
      ⊎ ((0 < units) × (0 < ns) × (0 < threads) × Worth (unit_of m) units ns threads value)

  idle :
      (units ns threads : ℕ)
      → (units ≡ 0) ⊎ ((ns ≡ 0) ⊎ (threads ≡ 0))
      → (units == 0 || ns == 0 || ltb threads 1) ≡ true
  idle units ns threads h = ground arith

  busy :
      (units ns threads : ℕ)
      → 0 < units
      → 0 < ns
      → 0 < threads
      → (units == 0 || ns == 0 || ltb threads 1) ≡ false
  busy units ns threads pu pn pt = ground arith

  -- The value of a trial is exact where it is a whole number in the unit of the metric, for
  -- numbers below 2^53: operations or transfers in each second over whole seconds; gigabytes in
  -- each second for bytes in each nanosecond, and a thousand times as many megabytes; nanoseconds
  -- for each of the loads that every thread makes; and 0 for a percentile, or where nothing was
  -- done, in no time or by no thread.
  pub value_from_units-Earns :
      (m : Metric) (units ns threads value : ℕ)
      → units < 2 ^ 53
      → ns < 2 ^ 53
      → threads < 2 ^ 53
      → value < 2 ^ 53
      → Earns m units ns threads value
      → Whole value (value_from_units d m units ns threads)
  unfolding value_from_units
  value_from_units-Earns m units ns threads value hu hn ht hv (inl (none_done, z)) =
      rw (idle units ns threads none_done, z) (from_ℕ-Whole 0 (omega arith))
  value_from_units-Earns m units ns threads value hu hn ht hv (inr (pu, pn, pt, worth)) =
      rw (busy units ns threads pu pn pt, value_rule_of-unit_of m)
        (by_rule-Worth (unit_of m) units ns threads value hu hn ht hv pn pt worth)
