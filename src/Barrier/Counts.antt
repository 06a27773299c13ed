-- ===== src/Barrier/Counts.antt =====
-- What the counts over the threads say when one thread moves.
use benchmark_platform.Prelude.{ℕ, ◌+◌, ◌≤◌, ◌<◌, ◌≡◌, refl, ap, arith, ◌==◌, true, false, ==_iff}
use benchmark_platform.Prelude.Threads.{put, tally, tally_one}
use benchmark_platform.Barrier.{Thread}
use benchmark_platform.Barrier.Invariant.{arrived, ending, has_refilled, has_completed}

pub arrived-le : (p : ℕ) (t : Thread) → arrived p t ≤ 1
arrived-le p t = ground arith

pub refilled-le : (t : Thread) → has_refilled t ≤ ending t
refilled-le t = ground arith

pub completed-le : (t : Thread) → has_completed t ≤ ending t
completed-le t = ground arith

pub put_self : (i : ℕ) (u : Thread) (t : ℕ → Thread) → put i u t i ≡ u
put_self i u t = let e : (i == i) ≡ true = (==_iff i i).1 refl in rw e refl

pub put_other : (i j : ℕ) (u : Thread) (t : ℕ → Thread) → (j == i) ≡ false → put i u t j ≡ t j
put_other i j u t ne = rw ne refl

-- A weight summed over the threads, before and after thread `i` has moved.
pub tally-put :
    (n i : ℕ) (w : Thread → ℕ) (t : ℕ → Thread) (u : Thread)
    → i < n
    → tally n (λ j. w (put i u t j)) + w (t i) ≡ tally n (λ j. w (t j)) + w u
tally-put n i w t u h =
    let here : w (put i u t i) ≡ w u = ap w (put_self i u t) in
    let change : tally n (λ j. w (put i u t j)) + w (t i)
        ≡ tally n (λ j. w (t j)) + w (put i u t i) =
      tally_one n i (λ j. w (put i u t j)) (λ j. w (t j)) h (λ j ne. ap w (put_other i j u t ne)) in
    omega (arith, change, here)
