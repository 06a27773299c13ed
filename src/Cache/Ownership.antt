-- ===== src/Cache/Ownership.antt =====
-- `Buffer`: who owns which piece of memory, over any sequence of moves, allocations and destructions.
use benchmark_platform.Prelude.{
  ℕ, ◌+◌, ◌<◌, ◌≡◌, refl, sym, ap, subst, ◌∙◌, arith, Bool, true, false, ◌&&◌, none, some, List, [],
  ◌∷◌, ◌++◌, ◌==◌, ==_iff, if◌then◌else◌, Bool-cases, Option-cases, inl, inr, All,
}
use benchmark_platform.Prelude.Threads.{put, tally, tally_one}
use benchmark_platform.Cache.Memory.{Buffer, Piece, release, moved_from}

abbrev pub same_piece : Piece → Piece → Bool
same_piece (a, m) (b, n) = a == b && m == n

abbrev pub times : Piece → List Piece → ℕ
times p [] = 0
times p (q ∷ qs) = (if same_piece q p then 1 else 0) + times p qs

-- The pieces that a buffer would give back.
abbrev pub pieces_of : Buffer → List Piece
pieces_of b = elim b.address [ none ↦ [] | some a ↦ (a, b.mapped) ∷ [] ]

-- The buffers of a program, and the pieces that it has got and given back so far.
pub record Store : Type 0 where
  pub buffers : ℕ → Buffer
  pub acquired : List Piece
  pub released : List Piece

-- `b_i = alloc_buffer(…)`, which gave the buffer; `b_i = std::move(b_j)`; the destructor of `b_i`.
pub data Op : Type 0 where
  allocate : ℕ → Buffer → Op
  assign : ℕ → ℕ → Op
  destroy : ℕ → Op

-- `operator=(Buffer&&)`, of the buffer `i` from `b`
pub take_over : (i : ℕ) → Buffer → Store → Store
take_over i b s = record s {
  buffers = put i b s.buffers;
  released = (release (s.buffers i)).1 ++ s.released;
}

unfoldable pub step : Op → Store → Store
unfolding take_over
step (allocate i b) s = record (take_over i b s) { acquired = pieces_of b ++ s.acquired }
step (assign i j) s =
    let moved = take_over i (s.buffers j) s in
    if i == j then s else record moved { buffers = put j (moved_from (s.buffers j)) moved.buffers }
step (destroy i) s = record s {
  buffers = put i (release (s.buffers i)).0 s.buffers;
  released = (release (s.buffers i)).1 ++ s.released;
}

unfoldable pub run : List Op → Store → Store
run [] s = s
run (op ∷ ops) s = run ops (step op s)

-- The program has `n` buffers.
abbrev pub Named : (n : ℕ) → Op → Type 0
Named n (allocate i b) = i < n
Named n (assign i j) = (i < n) × (j < n)
Named n (destroy i) = i < n

abbrev pub held : (n : ℕ) → Piece → (ℕ → Buffer) → ℕ
held n p buffers = tally n (λ i. times p (pieces_of (buffers i)))

times-append : (p : Piece) (xs ys : List Piece) → times p (xs ++ ys) ≡ times p xs + times p ys
times-append p [] ys = omega arith
times-append p (x ∷ xs) ys = omega (arith, times-append p xs ys)

release_gives : (b : Buffer) → (release b).1 ≡ pieces_of b
unfolding release
release_gives b = elim (Option-cases b.address) [
  | inl e ↦ rw (release, e) refl
  | inr (a, e) ↦ rw (release, e) refl
]

release_keeps : (b : Buffer) → pieces_of (release b).0 ≡ []
unfolding release
release_keeps b = elim (Option-cases b.address) [
  | inl e ↦
      let same : (release b).0 ≡ b = simp (release, e) in ap pieces_of same ∙ rw (pieces_of, e) refl
  | inr (a, e) ↦ rw (release, e) refl
]

put_self : {A : Type 0} (i : ℕ) (a : A) (f : ℕ → A) → put i a f i ≡ a
put_self i a f = let e : (i == i) ≡ true = (==_iff i i).1 refl in rw e refl

put_ne : {A : Type 0} (i j : ℕ) (a : A) (f : ℕ → A) → (j == i) ≡ false → put i a f j ≡ f j
put_ne i j a f e = rw e refl

held-put :
    (n i : ℕ) (p : Piece) (b : Buffer) (buffers : ℕ → Buffer)
    → i < n
    → held n p (put i b buffers) + times p (pieces_of (buffers i))
      ≡ held n p buffers + times p (pieces_of b)
held-put n i p b buffers h =
    tally_one n i (λ j. times p (pieces_of (put i b buffers j)))
      (λ j. times p (pieces_of (buffers j))) h
      (λ j e. ap (λ b. times p (pieces_of b)) (put_ne i j b buffers e))
    ∙ ap (λ k. held n p buffers + times p (pieces_of k)) (put_self i b buffers)

abbrev pub Conserves : (n : ℕ) → Piece → Store → Type 0
Conserves n p s = times p s.acquired ≡ times p s.released + held n p s.buffers

step-Conserves :
    (n : ℕ) (p : Piece) (op : Op) (s : Store)
    → Named n op
    → Conserves n p s
    → Conserves n p (step op s)
unfolding step take_over moved_from
step-Conserves n p (allocate i b) s h c = omega (
  arith,
  times-append p (pieces_of b) s.acquired,
  times-append p (release (s.buffers i)).1 s.released,
  ap (times p) (release_gives (s.buffers i)),
  held-put n i p b s.buffers h,
)
step-Conserves n p (destroy i) s h c = omega (
  arith,
  times-append p (release (s.buffers i)).1 s.released,
  ap (times p) (release_gives (s.buffers i)),
  ap (times p) (release_keeps (s.buffers i)),
  held-put n i p (release (s.buffers i)).0 s.buffers h,
)
step-Conserves n p (assign i j) s h c = elim (Bool-cases (i == j)) [
  | inl self ↦ rw (step, self) c
  | inr apart ↦
      let b1 : ℕ → Buffer = put i (s.buffers j) s.buffers in
      let b2 : ℕ → Buffer = put j (moved_from (s.buffers j)) b1 in
      let s2 : Store = record {
        buffers = b2;
        acquired = s.acquired;
        released = (release (s.buffers i)).1 ++ s.released;
      } in
      let e : step (assign i j) s ≡ s2 = rw (step, apart) refl in
      let other : (j == i) ≡ false = ground arith in
      let source : times p (pieces_of (b1 j)) ≡ times p (pieces_of (s.buffers j)) =
        ap (λ b. times p (pieces_of b)) (put_ne i j (s.buffers j) s.buffers other) in
      let none_left : times p (pieces_of (moved_from (s.buffers j))) ≡ 0 = refl in
      let two : Conserves n p s2 = omega (
        arith,
        times-append p (release (s.buffers i)).1 s.released,
        ap (times p) (release_gives (s.buffers i)),
        source,
        none_left,
        held-put n i p (s.buffers j) s.buffers h.0,
        held-put n j p (moved_from (s.buffers j)) b1 h.1,
      ) in
      subst (Conserves n p) (sym e) two
]

-- Over any moves, allocations and destructions of the buffers of a program, each piece of memory
-- has been given back as often as it was acquired, but for the buffers that still hold it, if
-- that was so at the start.
pub run-Conserves :
    (n : ℕ) (p : Piece) (ops : List Op) (s : Store)
    → All (Named n) ops
    → Conserves n p s
    → Conserves n p (run ops s)
unfolding run
run-Conserves n p [] s h c = c
run-Conserves n p (op ∷ ops) s h c =
    run-Conserves n p ops (step op s) h.1 (step-Conserves n p op s h.0 c)
