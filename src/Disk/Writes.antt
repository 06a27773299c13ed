-- ===== src/Disk/Writes.antt =====
-- `full_pwrite`: what a file holds after it, whatever the kernel answers.
use benchmark_platform.Prelude.{
  ℕ, ◌+◌, ◌-◌, ◌≤◌, ◌≡◌, min, refl, sym, ap, ap₂, subst, ◌∙◌, arith, List, [], ◌∷◌, ◌++◌, ltb, ◌==◌,
  length, take, drop, All, Bool-cases, inl, inr, take_more, take-append-drop, drop-drop,
  length-append, length-take, length-drop, append_assoc, take-append_eq, drop-append_add,
}
use benchmark_platform.Disk.{Answer, Status, write_at, pwrite_from, full_pwrite}
use benchmark_platform.Disk.Transfers.{Passes}

-- The file after the first `done` bytes of `buf` are written at `off`.
abbrev pub written : (file : List ℕ) (off : ℕ) (buf : List ℕ) (done : ℕ) → List ℕ
written file off buf done = take off file ++ (take done buf ++ drop (off + done) file)

pub length-take_le : (n : ℕ) (xs : List ℕ) → n ≤ length xs → length (take n xs) ≡ n
length-take_le n xs h = omega (arith, length-take n xs)

written_more :
    (file : List ℕ) (off : ℕ) (buf : List ℕ) (done n : ℕ)
    → off + length buf ≤ length file
    → done + n ≤ length buf
    → write_at (written file off buf done) (off + done) (take n (drop done buf))
      ≡ written file off buf (done + n)
written_more file off buf done n fits within =
    let a : List ℕ = take off file in
    let b : List ℕ = take done buf in
    let c : List ℕ = take n (drop done buf) in
    let la : length a ≡ off = length-take_le off file (omega arith) in
    let lb : length b ≡ done = length-take_le done buf (omega arith) in
    let lc : length c ≡ n =
      length-take_le n (drop done buf) (omega (arith, length-drop done buf)) in
    let lab : length (a ++ b) ≡ off + done = omega (arith, length-append a b, la, lb) in
    let whole : written file off buf done ≡ (a ++ b) ++ drop (off + done) file =
      sym (append_assoc a b (drop (off + done) file)) in
    let front : take (off + done) (written file off buf done) ≡ a ++ b =
      ap (take (off + done)) whole ∙ take-append_eq (off + done) (a ++ b) _ lab in
    let at : off + done + n ≡ off + (done + n) = omega arith in
    let back : drop (off + done + length c) (written file off buf done)
        ≡ drop (off + (done + n)) file =
      ap₂ drop (ap (λ k. off + done + k) lc) whole
      ∙ drop-append_add (off + done) n (a ++ b) (drop (off + done) file) lab
      ∙ drop-drop n (off + done) file
      ∙ ap (λ k. drop k file) at in
    ap₂ (λ x y. x ++ (c ++ y)) front back
    ∙ append_assoc a b (c ++ drop (off + (done + n)) file)
    ∙ ap (λ x. a ++ x) (sym (append_assoc b c (drop (off + (done + n)) file)))
    ∙ ap (λ x. a ++ (x ++ drop (off + (done + n)) file)) (take_more done n buf)

written_none : (file : List ℕ) (off : ℕ) (buf : List ℕ) → written file off buf 0 ≡ file
written_none file off buf =
    let z : off + 0 ≡ off = omega arith in
    ap (λ k. take off file ++ drop k file) z ∙ take-append-drop off file

-- How much of a buffer of `len` bytes is written: all of it when the call returns normally.
abbrev pub Progress : (len done : ℕ) → Status → Type 0
Progress len done Status.io_done = done ≡ len
Progress len done _ = done ≤ len

abbrev pub Writes : (file : List ℕ) (off : ℕ) (buf : List ℕ) → Status × List ℕ → Type 0
Writes file off buf (status, after) =
    (done : ℕ) × Progress (length buf) done status × (after ≡ written file off buf done)

pwrite_from-Writes :
    (script : List Answer) (file : List ℕ) (off : ℕ) (buf : List ℕ) (done : ℕ)
    → off + length buf ≤ length file
    → done ≤ length buf
    → Writes file off buf (pwrite_from script buf off done (written file off buf done))
unfolding pwrite_from
pwrite_from-Writes [] file off buf done fits le = elim (Bool-cases (ltb done (length buf))) [
  | inl more ↦ rw (pwrite_from, more) (done, le, refl)
  | inr end ↦ rw (pwrite_from, end) (done, ground arith, refl)
]
pwrite_from-Writes (Answer.io_failed ∷ script) file off buf done fits le =
    elim (Bool-cases (ltb done (length buf))) [
      | inl more ↦ rw (pwrite_from, more) (done, le, refl)
      | inr end ↦ rw (pwrite_from, end) (done, ground arith, refl)
    ]
pwrite_from-Writes (Answer.up_to k ∷ script) file off buf done fits le =
    let n : ℕ = min k (length buf - done) in
    elim (Bool-cases (ltb done (length buf))) [
      | inr end ↦ rw (pwrite_from, end) (done, ground arith, refl)
      | inl more ↦ elim (Bool-cases (n == 0)) [
        | inl z ↦ rw (pwrite_from, more, z) (done, le, refl)
        | inr nz ↦
            let within : done + n ≤ length buf = ground arith in
            rw (pwrite_from, more, nz)
              (subst (λ f. Writes file off buf (pwrite_from script buf off (done + n) f))
                (sym (written_more file off buf done n fits within))
                (pwrite_from-Writes script file off buf (done + n) fits within))
      ]
    ]

-- Whatever the kernel answers to a write within the file, the file then has a first part of the
-- buffer at the offset, the whole of it if the call returns normally, and is as it was elsewhere.
pub full_pwrite-Writes :
    (script : List Answer) (file : List ℕ) (off : ℕ) (buf : List ℕ)
    → off + length buf ≤ length file
    → Writes file off buf (full_pwrite script buf off file)
unfolding full_pwrite
full_pwrite-Writes script file off buf fits =
    subst (λ f. Writes file off buf (pwrite_from script buf off 0 f)) (written_none file off buf)
      (pwrite_from-Writes script file off buf 0 fits (omega arith))

pwrite_from-total :
    (script : List Answer) (buf : List ℕ) (off done : ℕ) (file : List ℕ)
    → All Passes script
    → length buf ≤ done + length script
    → (pwrite_from script buf off done file).0 ≡ Status.io_done
unfolding pwrite_from
pwrite_from-total [] buf off done file h enough = ground arith
pwrite_from-total (Answer.io_failed ∷ script) buf off done file h enough = absurd h.0
pwrite_from-total (Answer.up_to k ∷ script) buf off done file h enough =
    let n : ℕ = min k (length buf - done) in
    ground (
      arith,
      pwrite_from-total script buf off (done + n)
          (write_at file (off + done) (take n (drop done buf))) h.1,
    )

pub full_pwrite-total :
    (script : List Answer) (file : List ℕ) (off : ℕ) (buf : List ℕ)
    → All Passes script
    → length buf ≤ length script
    → (full_pwrite script buf off file).0 ≡ Status.io_done
unfolding full_pwrite
full_pwrite-total script file off buf h enough =
    pwrite_from-total script buf off 0 file h (omega arith)

pub length-written :
    (file : List ℕ) (off : ℕ) (buf : List ℕ) (done : ℕ)
    → off + done ≤ length file
    → done ≤ length buf
    → length (written file off buf done) ≡ length file
length-written file off buf done fits le = omega (
  arith,
  length-append (take off file) (take done buf ++ drop (off + done) file),
  length-append (take done buf) (drop (off + done) file),
  length-take_le off file (omega arith),
  length-take_le done buf le,
  length-drop (off + done) file,
)
