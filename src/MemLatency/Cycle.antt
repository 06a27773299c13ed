-- ===== src/MemLatency/Cycle.antt =====
-- A closed walk through the lines, and how a transposition weaves one more line into it.
use benchmark_platform.Prelude.{
  ℕ, zero, suc, ◌+◌, ◌*◌, ◌<◌, Bool, true, false, Bool-cases, inl, inr, List, [], ◌∷◌, ◌==◌,
  if◌then◌else◌, length, ◌≡◌, refl, arith, ap,
}

abbrev pub count : ℕ → List ℕ → ℕ
count v [] = 0
count v (x ∷ xs) = (if x == v then 1 else 0) + count v xs

abbrev pub head_or : ℕ → List ℕ → ℕ
head_or z [] = z
head_or z (x ∷ xs) = x

-- `f` takes each line of the walk to the one behind it, and the last one to `z`.
abbrev pub Closed : (ℕ → ℕ) → ℕ → List ℕ → Type 0
Closed f z [] = Unit
Closed f z (x ∷ r) = (f x ≡ head_or z r) × Closed f z r

-- The walk of `f` from `x`, `n` lines long, and where it stands after `n` steps.
abbrev pub trace : (ℕ → ℕ) → ℕ → ℕ → List ℕ
trace f zero x = []
trace f (suc n) x = x ∷ trace f n (f x)

abbrev pub iterate : (ℕ → ℕ) → ℕ → ℕ → ℕ
iterate f zero x = x
iterate f (suc n) x = iterate f n (f x)

pub Closed-trace :
    (f : ℕ → ℕ) (z : ℕ) (r : List ℕ) → Closed f z r → trace f (length r) (head_or z r) ≡ r
Closed-trace f z [] c = refl
Closed-trace f z (x ∷ r) c = ap (λ l. x ∷ l) (rw c.0 (Closed-trace f z r c.1))

pub Closed-iterate :
    (f : ℕ → ℕ) (z : ℕ) (r : List ℕ) → Closed f z r → iterate f (length r) (head_or z r) ≡ z
Closed-iterate f z [] c = refl
Closed-iterate f z (x ∷ r) c = rw (c.0, iterate) (Closed-iterate f z r c.1)

-- Line `m` comes between a line and its successor `j`.
pub weave : (j m z : ℕ) → List ℕ → List ℕ
weave j m z [] = []
weave j m z (x ∷ r) = let rest = weave j m z r in x ∷ (if head_or z r == j then m ∷ rest else rest)

-- the transposition of `j` and `m`
abbrev pub exchange : ℕ → ℕ → ℕ → ℕ
exchange j m x = if x == j then m else if x == m then j else x

abbrev pub Below : ℕ → List ℕ → Type 0
Below m [] = Unit
Below m (x ∷ xs) = (x < m) × Below m xs

pub head_or-weave : (j m z : ℕ) (r : List ℕ) → head_or z (weave j m z r) ≡ head_or z r
unfolding weave
head_or-weave j m z [] = refl
head_or-weave j m z (x ∷ r) = refl

head_or-lt : (m z : ℕ) (r : List ℕ) → z < m → Below m r → head_or z r < m
head_or-lt m z [] lt b = lt
head_or-lt m z (x ∷ r) lt b = b.0

pub weave-Below : (j m z : ℕ) (r : List ℕ) → Below m r → Below (suc m) (weave j m z r)
unfolding weave
weave-Below j m z [] b = tt
weave-Below j m z (x ∷ r) b = ground (arith, weave-Below j m z r b.1)

-- A line with the successor `j` goes to `m`; any other keeps its successor.
exchange_hit :
    (f h : ℕ → ℕ) (j m x y : ℕ)
    → h x ≡ exchange j m (f x)
    → f x ≡ y
    → y < m
    → (y == j) ≡ true
    → h x ≡ m
exchange_hit f h j m x y e fx lt t = ground arith

exchange_miss :
    (f h : ℕ → ℕ) (j m x y : ℕ)
    → h x ≡ exchange j m (f x)
    → f x ≡ y
    → y < m
    → (y == j) ≡ false
    → h x ≡ y
exchange_miss f h j m x y e fx lt t = ground arith

exchange_new :
    (f h : ℕ → ℕ) (j m y : ℕ)
    → h m ≡ exchange j m (f m)
    → f m ≡ m
    → j < m
    → (y == j) ≡ true
    → h m ≡ y
exchange_new f h j m y e fm lt t = ground arith

pub weave-Closed :
    (f h : ℕ → ℕ) (j m z : ℕ) (r : List ℕ)
    → ((x : ℕ) → h x ≡ exchange j m (f x))
    → f m ≡ m
    → z < m
    → j < m
    → Below m r
    → Closed f z r
    → Closed h z (weave j m z r)
unfolding weave
weave-Closed f h j m z [] e fm lt jm b c = tt
weave-Closed f h j m z (x ∷ r) e fm lt jm b c =
    let hd : head_or z (weave j m z r) ≡ head_or z r = head_or-weave j m z r in
    let lo : head_or z r < m = head_or-lt m z r lt b.1 in
    let rest : Closed h z (weave j m z r) = weave-Closed f h j m z r e fm lt jm b.1 c.1 in
    elim (Bool-cases (head_or z r == j)) [
      | inl t ↦ rw t (
        exchange_hit f h j m x (head_or z r) (e x) c.0 lo t,
        (rw hd (exchange_new f h j m (head_or z r) (e m) fm jm t), rest),
      )
      | inr t ↦ rw t (rw hd (exchange_miss f h j m x (head_or z r) (e x) c.0 lo t), rest)
    ]

abbrev pub bit : Bool → ℕ
bit true = 1
bit false = 0

count-weave_step :
    (v m x : ℕ) (b : Bool) (r : List ℕ)
    → count v (x ∷ (if b then m ∷ r else r)) ≡ bit (x == v) + (bit b * bit (m == v) + count v r)
count-weave_step v m x b r = ground arith

-- The woven line occurs once for each place where `j` is a successor; the others stay.
pub weave-count_ne :
    (j m z v : ℕ) (r : List ℕ) → (m == v) ≡ false → count v (weave j m z r) ≡ count v r
unfolding weave
weave-count_ne j m z v [] h = refl
weave-count_ne j m z v (x ∷ r) h =
    ground
      (arith, count-weave_step v m x (head_or z r == j) (weave j m z r), weave-count_ne j m z v r h)

pub weave-count_self :
    (j m z : ℕ) (r : List ℕ)
    → Below m r
    → count m (weave j m z r) + bit (head_or z r == j) ≡ count j r + bit (z == j)
unfolding weave
weave-count_self j m z [] b = omega arith
weave-count_self j m z (x ∷ r) b =
    ground (
      arith,
      count-weave_step m m x (head_or z r == j) (weave j m z r),
      weave-count_self j m z r b.1,
    )

pub weave-length :
    (j m z : ℕ) (r : List ℕ)
    → length (weave j m z r) + bit (head_or z r == j) ≡ length r + count j r + bit (z == j)
unfolding weave
weave-length j m z [] = ground arith
weave-length j m z (x ∷ r) = ground (arith, weave-length j m z r)
