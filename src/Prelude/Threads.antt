-- ===== src/Prelude/Threads.antt =====
-- Families indexed by thread number: the first `n` of them are the threads that exist.
use Prim.Native.Nat.{ℕ, zero, suc, ◌+◌, ◌≤◌, ◌<◌}
use mathlib.Core.Path.{◌≡◌, refl}
use native.Mathlib.Omega.{arith}
use mathlib.Core.Bool.{true, false}
use mathlib.Core.Logic.{inl, inr}
use benchmark_platform.Prelude.Tests.{◌==◌, if◌then◌else◌, Bool-cases, ==_iff}

-- The family with the member `i` replaced.
abbrev pub put {ℓ} : {A : Type ℓ} → ℕ → A → (ℕ → A) → ℕ → A
put i a f j = if j == i then a else f j

-- The sum over the first `n` members.
pub tally : ℕ → (ℕ → ℕ) → ℕ
tally zero w = 0
tally (suc n) w = w n + tally n w

pub tally_ext : (n : ℕ) (v w : ℕ → ℕ) → ((j : ℕ) → j < n → v j ≡ w j) → tally n v ≡ tally n w
unfolding tally
tally_ext zero v w h = refl
tally_ext (suc n) v w h =
    omega (arith, h n (omega arith), tally_ext n v w (λ j p. h j (omega arith)))

-- Two families that differ in the member `i` alone have sums that differ as this member does.
pub tally_one :
    (n i : ℕ) (v w : ℕ → ℕ)
    → i < n
    → ((j : ℕ) → (j == i) ≡ false → v j ≡ w j)
    → tally n v + w i ≡ tally n w + v i
unfolding tally
tally_one zero i v w h e = elim h [ ]
tally_one (suc n) i v w h e = elim (Bool-cases (n == i)) [
  | inl last ↦
      let same : n ≡ i = (==_iff n i).0 last in
      let below : tally n v ≡ tally n w = tally_ext n v w (λ j p. e j (ground arith)) in
      ground arith
  | inr other ↦ omega (arith, e n other, tally_one n i v w (ground arith) e)
]

-- Each member is at most the sum.
pub le-tally : (n i : ℕ) (w : ℕ → ℕ) → i < n → w i ≤ tally n w
unfolding tally
le-tally zero i w h = elim h [ ]
le-tally (suc n) i w h = elim (Bool-cases (n == i)) [
  | inl last ↦ ground arith
  | inr other ↦ omega (arith, le-tally n i w (ground arith))
]

pub tally_le : (n : ℕ) (w : ℕ → ℕ) → ((j : ℕ) → w j ≤ 1) → tally n w ≤ n
unfolding tally
tally_le zero w le = omega arith
tally_le (suc n) w le = omega (arith, le n, tally_le n w le)

-- A sum of `n` zeros and ones that is `n` has only ones.
pub tally_full : (n : ℕ) (w : ℕ → ℕ) (i : ℕ) → ((j : ℕ) → w j ≤ 1) → tally n w ≡ n → i < n → w i ≡ 1
unfolding tally
tally_full zero w i le e h = elim h [ ]
tally_full (suc n) w i le e h = ground (arith, le n, tally_le n w le, tally_full n w i le)

pub tally_zero : (n : ℕ) (w : ℕ → ℕ) → ((j : ℕ) → j < n → w j ≡ 0) → tally n w ≡ 0
unfolding tally
tally_zero zero w h = refl
tally_zero (suc n) w h = omega (arith, h n (omega arith), tally_zero n w (λ j p. h j (omega arith)))

pub tally_mono : (n : ℕ) (v w : ℕ → ℕ) → ((j : ℕ) → v j ≤ w j) → tally n v ≤ tally n w
unfolding tally
tally_mono zero v w h = omega arith
tally_mono (suc n) v w h = omega (arith, h n, tally_mono n v w h)

-- Two members are at most the sum.
pub tally_two : (n i j : ℕ) (w : ℕ → ℕ) → i < n → j < n → (j == i) ≡ false → w i + w j ≤ tally n w
tally_two n i j w hi hj ne =
    let v : ℕ → ℕ = λ k. if k == i then 0 else w k in
    let without : tally n v + w i ≡ tally n w + v i = tally_one n i v w hi (λ k p. rw p refl) in
    let gone : v i ≡ 0 = (let e : (i == i) ≡ true = (==_iff i i).1 refl in rw e refl) in
    let same : v j ≡ w j = rw ne refl in omega (arith, without, gone, same, le-tally n j v hj)

-- A sum that is not zero has a member that is not.
pub tally_some : (n : ℕ) (w : ℕ → ℕ) → 0 < tally n w → (i : ℕ) × i < n × 0 < w i
unfolding tally
tally_some zero w h = absurd (omega arith)
tally_some (suc n) w h = elim (Bool-cases (w n == 0)) [
  | inl z ↦
      let at : (i : ℕ) × i < n × 0 < w i = tally_some n w (ground arith) in
      (at.0, omega (arith, at.1), at.2)
  | inr nz ↦ (n, omega arith, ground arith)
]

-- A sum of `n` zeros and ones below `n` has a zero.
pub tally_hole :
    (n : ℕ) (w : ℕ → ℕ) → ((j : ℕ) → w j ≤ 1) → tally n w < n → (i : ℕ) × i < n × w i ≡ 0
unfolding tally
tally_hole zero w le h = absurd (omega arith)
tally_hole (suc n) w le h = elim (Bool-cases (w n == 0)) [
  | inl z ↦ (n, omega arith, ground arith)
  | inr nz ↦
      let at : (i : ℕ) × i < n × w i ≡ 0 = tally_hole n w le (ground (arith, le n)) in
      (at.0, omega (arith, at.1), at.2)
]
