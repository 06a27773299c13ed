-- ===== src/Clock.antt =====
-- engine/src/timing.cpp: `clock_selftest`. The readings of the clock are a script, in nanoseconds; a
-- script that ends while the loop still runs gives `none`. The mean is `total` over `samples`, a
-- double, and is left out.
pub mod Samples
pub mod Window
use benchmark_platform.Prelude.{
  ℕ, zero, suc, ◌+◌, ◌-◌, ◌*◌, ◌%◌, ◌^◌, min, max, Bool, true, false, ◌&&◌, Option, none, some,
  List, [], ◌∷◌, ltb, leb, ◌==◌, if◌then◌else◌,
}
use benchmark_platform.Prelude.Words.{u64}
use benchmark_platform.Session.{ns_between}

-- What the loop carries. `taken` is also `samples` of the result.
pub record Sampled : Type 0 where
  pub prev : ℕ
  pub total : ℕ
  pub taken : ℕ
  pub max_call_ns : ℕ
  pub min_call_ns : ℕ
  pub monotonic : Bool

unfoldable pub take_sample : (now : ℕ) → Sampled → Sampled
take_sample now s =
    let d = ns_between s.prev now in
    record {
      prev = now;
      total = u64 (s.total + d);
      taken = suc s.taken;
      max_call_ns = max s.max_call_ns d;
      min_call_ns = if s.taken == 0 then d else min s.min_call_ns d;
      monotonic = if ltb now s.prev then false else s.monotonic;
    }

-- Whether a sample is the last for the deadline, which is `none` if the window is not capped.
unfoldable pub past_deadline : Option ℕ → (i now : ℕ) → Bool
past_deadline none i now = false
past_deadline (some deadline) i now = i % 1024 == 1023 && leb deadline now

-- The loop, with `left` samples to come and `i` taken.
unfoldable pub sample_from : Option ℕ → (left i : ℕ) → List ℕ → Sampled → Option Sampled
sample_from deadline zero i script s = some s
sample_from deadline (suc left) i [] s = none
sample_from deadline (suc left) i (now ∷ script) s =
    let next = take_sample now s in
    let more = sample_from deadline left (suc i) script next in
    if past_deadline deadline i now then some next else more

abbrev pub fresh : (begin : ℕ) → Sampled
fresh begin = record {
  prev = begin;
  total = 0;
  taken = 0;
  max_call_ns = 0;
  min_call_ns = 0;
  monotonic = true;
}

-- `begin` is the second reading; `max_window` is in nanoseconds, 0 for none.
unfoldable pub clock_selftest : (samples max_window begin : ℕ) → List ℕ → Option Sampled
clock_selftest samples max_window begin script =
    sample_from (if ltb 0 max_window then some (begin + max_window) else none) (max 2 samples) 0
      script (fresh begin)
