-- ===== src/MemLatency/Shuffle.antt =====
-- `sattolo_shuffle`, and the cycle of all lines.
use benchmark_platform.Prelude.{
  ℕ, zero, suc, ◌-◌, ◌%◌, ◌<◌, ◌≤◌, List, [], ◌∷◌, ◌==◌, ==_iff, length, get_or, set, get_or-set,
  length-set, length-append, get_or-append_lt, get_or-append_self, ◌≡◌, refl, sym, ap, ◌∙◌, arith,
  Bool-cases, inl, inr,
}
use mathlib.Core.Path.{ap₂}
use benchmark_platform.Prelude.Random.{Generator}
use benchmark_platform.MemLatency.{swap, sattolo_rounds, sattolo_shuffle, identity_order}
use benchmark_platform.MemLatency.Cycle.{
  count, Closed, trace, iterate, Closed-trace, Closed-iterate, weave, exchange, Below, head_or,
  weave-Closed, weave-Below, weave-count_ne, weave-count_self, weave-length, head_or-weave,
}

get_or-swap :
    (a : List ℕ) (i j x : ℕ)
    → i < length a
    → j < i
    → get_or (swap a i j) x 0 ≡ get_or a (exchange j i x) 0
unfolding swap
get_or-swap a i j x hi hj = ground (
  arith,
  get_or-set (set a i (get_or a j 0)) j x (get_or a i 0) 0
      (omega (arith, length-set a i (get_or a j 0))),
  get_or-set a i x (get_or a j 0) 0 hi,
)

length-swap : (a : List ℕ) (i j : ℕ) → length (swap a i j) ≡ length a
unfolding swap
length-swap a i j = length-set _ j _ ∙ length-set a i _

pub length-identity_order : (n : ℕ) → length (identity_order n) ≡ n
unfolding identity_order
length-identity_order zero = refl
length-identity_order (suc n) =
    omega (arith, length-identity_order n, length-append {0} (identity_order n) (n ∷ []))

pub get_or-identity_order : (n x : ℕ) → x < n → get_or (identity_order n) x 0 ≡ x
unfolding identity_order
get_or-identity_order zero x h = elim h [ ]
get_or-identity_order (suc n) x h = elim (Bool-cases (x == n)) [
  | inl e ↦
      cc (length-identity_order n, (==_iff x n).0 e, get_or-append_self (identity_order n) n [] 0)
  | inr ne ↦
      get_or-append_lt (identity_order n) (n ∷ []) x 0 (ground (arith, length-identity_order n))
      ∙ get_or-identity_order n x (ground arith)
]

Closed-ext :
    (f h : ℕ → ℕ) (n z : ℕ) (r : List ℕ)
    → ((x : ℕ) → x < n → h x ≡ f x)
    → Below n r
    → Closed f z r
    → Closed h z r
Closed-ext f h n z [] e b c = tt
Closed-ext f h n z (x ∷ r) e b c = (e x b.0 ∙ c.0, Closed-ext f h n z r e b.1 c.1)

module _ (g : Generator) where
  open g use {State, seed, next}

  -- Where the entry that ends up at `x` stood before the rounds.
  source : ℕ → State → ℕ → ℕ
  source zero s x = x
  source (suc i) s x = let (r, s') = next s in exchange (r % suc i) (suc i) (source i s' x)

  get_or-sattolo_rounds :
      (i : ℕ) (s : State) (a : List ℕ) (x : ℕ)
      → i < length a
      → get_or (sattolo_rounds g i s a) x 0 ≡ get_or a (source i s x) 0
  unfolding sattolo_rounds source
  get_or-sattolo_rounds zero s a x h = refl
  get_or-sattolo_rounds (suc i) s a x h =
      let (r, s') = next s in
      get_or-sattolo_rounds i s' (swap a (suc i) (r % suc i)) x
        (omega (arith, length-swap a (suc i) (r % suc i)))
      ∙ get_or-swap a (suc i) (r % suc i) (source i s' x) h (omega arith)

  source_above : (i : ℕ) (s : State) (x : ℕ) → i < x → source i s x ≡ x
  unfolding source
  source_above zero s x h = refl
  source_above (suc i) s x h = let (r, s') = next s in ground (arith, source_above i s' x)

  source-le : (i : ℕ) (s : State) (x : ℕ) → x ≤ i → source i s x ≤ i
  unfolding source
  source-le zero s x h = h
  source-le (suc i) s x h =
      let (r, s') = next s in ground (arith, source_above i s' (suc i), source-le i s' x)

  -- The order in which the chase from line 0 visits the lines.
  lap : ℕ → State → List ℕ
  lap zero s = 0 ∷ []
  lap (suc i) s = let (r, s') = next s in weave (r % suc i) (suc i) 0 (lap i s')

  head_or-lap : (i : ℕ) (s : State) → head_or 0 (lap i s) ≡ 0
  unfolding lap
  head_or-lap zero s = refl
  head_or-lap (suc i) s = let (r, s') = next s in head_or-weave _ _ 0 (lap i s') ∙ head_or-lap i s'

  lap-Below : (i : ℕ) (s : State) → Below (suc i) (lap i s)
  unfolding lap
  lap-Below zero s = omega arith
  lap-Below (suc i) s = weave-Below _ _ 0 _ (lap-Below i (next s).1)

  lap-Closed : (i : ℕ) (s : State) → Closed (source i s) 0 (lap i s)
  unfolding lap source
  lap-Closed zero s = (refl, tt)
  lap-Closed (suc i) s =
      let (r, s') = next s in
      weave-Closed (source i s') _ (r % suc i) (suc i) 0 (lap i s') (λ x. refl)
        (source_above i s' (suc i) (omega arith)) (omega arith) (omega arith) (lap-Below i s')
        (lap-Closed i s')

  count-lap : (i : ℕ) (s : State) (v : ℕ) → v ≤ i → count v (lap i s) ≡ 1
  unfolding lap
  count-lap zero s v h = ground arith
  count-lap (suc i) s v h =
      let (r, s') = next s in
      let j = r % suc i in
      elim (Bool-cases (suc i == v)) [
        | inl e ↦ ground (
          arith,
          weave-count_self j (suc i) 0 (lap i s') (lap-Below i s'),
          head_or-lap i s',
          count-lap i s' j (omega arith),
        )
        | inr ne ↦ weave-count_ne j (suc i) 0 v (lap i s') ne ∙ count-lap i s' v (ground arith)
      ]

  length-lap : (i : ℕ) (s : State) → length (lap i s) ≡ suc i
  unfolding lap
  length-lap zero s = refl
  length-lap (suc i) s =
      let (r, s') = next s in
      let j = r % suc i in
      ground (
        arith,
        weave-length j (suc i) 0 (lap i s'),
        head_or-lap i s',
        count-lap i s' j (omega arith),
        length-lap i s',
      )

  -- The shuffled order as a function from a line to the line behind it.
  abbrev pub successor : ℕ → ℕ → ℕ → ℕ
  successor n k x = get_or (sattolo_shuffle g (identity_order n) k) x 0

  successor-source : (i k x : ℕ) → x < suc i → successor (suc i) k x ≡ source i (seed k) x
  unfolding sattolo_shuffle
  successor-source i k x h =
      let a = identity_order (suc i) in
      let last : length a - 1 ≡ i = omega (arith, length-identity_order (suc i)) in
      rw last (
        get_or-sattolo_rounds i (seed k) a x (omega (arith, length-identity_order (suc i)))
        ∙ get_or-identity_order (suc i) (source i (seed k) x)
            (omega (arith, source-le i (seed k) x (omega arith))))

  -- From line 0 the shuffled order of n lines visits each line exactly once, and is back at line
  -- 0 after n steps, for every generator and seed.
  pub sattolo_shuffle-cycle :
      (n k v : ℕ)
      → v < n
      → (count v (trace (successor n k) n 0) ≡ 1) × (iterate (successor n k) n 0 ≡ 0)
  sattolo_shuffle-cycle zero k v h = elim h [ ]
  sattolo_shuffle-cycle (suc i) k v h =
      let f = successor (suc i) k in
      let r = lap i (seed k) in
      let c =
        Closed-ext _ f (suc i) 0 r (successor-source i k) (lap-Below i (seed k))
          (lap-Closed i (seed k)) in
      let walk : trace f (suc i) 0 ≡ r =
        ap₂ (trace f) (sym (length-lap i (seed k))) (sym (head_or-lap i (seed k)))
        ∙ Closed-trace f 0 r c in
      (
        ap (count v) walk ∙ count-lap i (seed k) v (omega arith),
        ap₂ (iterate f) (sym (length-lap i (seed k))) (sym (head_or-lap i (seed k)))
            ∙ Closed-iterate f 0 r c,
      )

  pub successor-lt : (n k x : ℕ) → x < n → successor n k x < n
  successor-lt zero k x h = elim h [ ]
  successor-lt (suc i) k x h =
      let at : successor (suc i) k x ≡ source i (seed k) x = successor-source i k x h in
      omega (arith, at, source-le i (seed k) x (omega arith))
