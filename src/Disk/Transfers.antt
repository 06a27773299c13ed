-- ===== src/Disk/Transfers.antt =====
-- `full_pread` and `full_pwrite`: all of the bytes, or an exception.
use benchmark_platform.Prelude.{
  ℕ, ◌+◌, ◌-◌, ◌<◌, ◌≤◌, ◌≡◌, ◌≢◌, min, refl, sym, ap, ◌∙◌, arith, List, [], ◌∷◌, ◌++◌, ltb, ◌==◌,
  length, take, drop, All, Bool-cases, inl, inr, take_more, drop-drop, length-append, length-take,
  length-drop, ap₂,
}
use benchmark_platform.Disk.{Answer, Status, pread_from, full_pread}

-- An answer that lets at least one byte through.
abbrev pub Passes : Answer → Type 0
Passes (Answer.up_to k) = 0 < k
Passes Answer.io_failed = ⊥

-- What a read that returns normally has in the buffer.
abbrev Ends : (file : List ℕ) (len off : ℕ) → Status × List ℕ → Type 0
Ends file len off (Status.io_done, buf) = (buf ≡ take len (drop off file)) × (length buf ≡ len)
Ends file len off _ = Unit

-- What a read says: all of the bytes; that the kernel has failed, has let nothing through or that
-- the file is too short; or that there are fewer answers than bytes.
abbrev pub Reads : List Answer → (file : List ℕ) (len off : ℕ) → Status × List ℕ → Type 0
Reads script file len off (Status.io_done, buf) =
    (buf ≡ take len (drop off file)) × (length buf ≡ len)
Reads script file len off (Status.io_thrown, buf) =
    ¬ (All Passes script × (off + len ≤ length file))
Reads script file len off (Status.io_pending, buf) = length script < len

Ends-Reads :
    (script : List Answer) (file : List ℕ) (len off : ℕ) (r : Status × List ℕ)
    → Ends file len off r
    → (All Passes script → off + len ≤ length file → r.0 ≢ Status.io_thrown)
    → (r.0 ≡ Status.io_pending → length script < len)
    → Reads script file len off r
Ends-Reads script file len off (Status.io_done, buf) ends passes short = ends
Ends-Reads script file len off (Status.io_thrown, buf) ends passes short = λ h. passes h.0 h.1 refl
Ends-Reads script file len off (Status.io_pending, buf) ends passes short = short refl

length-next :
    (file buf : List ℕ) (at done n : ℕ)
    → length buf ≡ done
    → n ≤ length file - at
    → length (buf ++ take n (drop at file)) ≡ done + n
length-next file buf at done n l within = omega (
  arith,
  length-append buf (take n (drop at file)),
  length-take n (drop at file),
  length-drop at file,
)

pread_from-Ends :
    (script : List Answer) (file : List ℕ) (len off done : ℕ) (buf : List ℕ)
    → done ≤ len
    → buf ≡ take done (drop off file)
    → length buf ≡ done
    → Ends file len off (pread_from script file len off done buf)
unfolding pread_from
pread_from-Ends [] file len off done buf le e l = elim (Bool-cases (ltb done len)) [
  | inl more ↦ rw (pread_from, more) tt
  | inr end ↦
      let same : done ≡ len = ground arith in
      rw (pread_from, end) (e ∙ ap (λ n. take n (drop off file)) same, l ∙ same)
]
pread_from-Ends (Answer.io_failed ∷ script) file len off done buf le e l =
    elim (Bool-cases (ltb done len)) [
      | inr end ↦
          let same : done ≡ len = ground arith in
          rw (pread_from, end) (e ∙ ap (λ n. take n (drop off file)) same, l ∙ same)
      | inl more ↦ rw (pread_from, more) tt
    ]
pread_from-Ends (Answer.up_to k ∷ script) file len off done buf le e l =
    let n : ℕ = min k (min (len - done) (length file - (off + done))) in
    elim (Bool-cases (ltb done len)) [
      | inr end ↦
          let same : done ≡ len = ground arith in
          rw (pread_from, end) (e ∙ ap (λ n. take n (drop off file)) same, l ∙ same)
      | inl more ↦ elim (Bool-cases (n == 0)) [
        | inl z ↦ rw (pread_from, more, z) tt
        | inr nz ↦
            let within : done + n ≤ len = ground arith in
            let next : buf ++ take n (drop (off + done) file) ≡ take (done + n) (drop off file) =
              ap₂ ◌++◌ e (ap (take n) (sym (drop-drop done off file)))
              ∙ take_more done n (drop off file) in
            let more_bytes : length (buf ++ take n (drop (off + done) file)) ≡ done + n =
              length-next file buf (off + done) done n l (omega arith) in
            rw (pread_from, more, nz)
              (pread_from-Ends script file len off (done + n) _ within next more_bytes)
      ]
    ]

-- With a script as long as the transfer, of answers that each let a byte through, within the file.
pread_from-total :
    (script : List Answer) (file : List ℕ) (len off done : ℕ) (buf : List ℕ)
    → All Passes script
    → off + len ≤ length file
    → len ≤ done + length script
    → (pread_from script file len off done buf).0 ≡ Status.io_done
unfolding pread_from
pread_from-total [] file len off done buf h fits enough = ground arith
pread_from-total (Answer.io_failed ∷ script) file len off done buf h fits enough = absurd h.0
pread_from-total (Answer.up_to k ∷ script) file len off done buf h fits enough =
    let n : ℕ = min k (min (len - done) (length file - (off + done))) in
    ground (
      arith,
      pread_from-total script file len off (done + n) (buf ++ take n (drop (off + done) file)) h.1
          fits,
    )

pread_from-not_thrown :
    (script : List Answer) (file : List ℕ) (len off done : ℕ) (buf : List ℕ)
    → All Passes script
    → off + len ≤ length file
    → (pread_from script file len off done buf).0 ≢ Status.io_thrown
unfolding pread_from
pread_from-not_thrown [] file len off done buf h fits = ground arith
pread_from-not_thrown (Answer.io_failed ∷ script) file len off done buf h fits = absurd h.0
pread_from-not_thrown (Answer.up_to k ∷ script) file len off done buf h fits =
    let n : ℕ = min k (min (len - done) (length file - (off + done))) in
    ground (
      arith,
      pread_from-not_thrown script file len off (done + n) (buf ++ take n (drop (off + done) file))
          h.1 fits,
    )

pread_from-short :
    (script : List Answer) (file : List ℕ) (len off done : ℕ) (buf : List ℕ)
    → (pread_from script file len off done buf).0 ≡ Status.io_pending
    → done + length script < len
unfolding pread_from
pread_from-short [] file len off done buf e = ground arith
pread_from-short (Answer.io_failed ∷ script) file len off done buf e = ground arith
pread_from-short (Answer.up_to k ∷ script) file len off done buf e =
    let n : ℕ = min k (min (len - done) (length file - (off + done))) in
    ground (
      arith,
      pread_from-short script file len off (done + n) (buf ++ take n (drop (off + done) file)),
    )

-- Whatever the kernel answers: if full_pread returns normally, the buffer has the bytes of the
-- file that were asked for, all of them; if it throws, the kernel has failed or let nothing
-- through in some answer, or the file is too short; and it is not done only if there are fewer
-- answers than bytes.
pub full_pread-Reads :
    (script : List Answer) (file : List ℕ) (len off : ℕ)
    → Reads script file len off (full_pread script file len off)
unfolding full_pread
full_pread-Reads script file len off =
    Ends-Reads script file len off (pread_from script file len off 0 [])
      (pread_from-Ends script file len off 0 [] (omega arith) refl refl)
      (pread_from-not_thrown script file len off 0 [])
      (λ e. omega (arith, pread_from-short script file len off 0 [] e))

-- A read within the file returns, if the kernel never fails, passes a byte at least each time, and
-- answers once for each byte.
pub full_pread-total :
    (script : List Answer) (file : List ℕ) (len off : ℕ)
    → All Passes script
    → off + len ≤ length file
    → len ≤ length script
    → (full_pread script file len off).0 ≡ Status.io_done
unfolding full_pread
full_pread-total script file len off h fits enough =
    pread_from-total script file len off 0 [] h fits (omega arith)
