-- ===== src/Disk/Frame.antt =====
-- `DiskSeqWorkload::run_batch`: what a batch may touch, whatever the kernel answers.
use benchmark_platform.Prelude.{
  ℕ, ◌+◌, ◌-◌, ◌<◌, ◌≤◌, ◌≡◌, refl, sym, ap, subst, ◌∙◌, arith, List, ◌++◌, length, take, drop,
  Bool-cases, inl, inr, get_or, get_or-append_lt, get_or-append_le, get_or-take, get_or-drop,
}
use benchmark_platform.Disk.{Answer, Status, full_pwrite}
use benchmark_platform.Disk.Writes.{
  written, Progress, Writes, full_pwrite-Writes, length-written, length-take_le,
}
use benchmark_platform.Disk.Seq.{DiskSeq, transfer}
use benchmark_platform.Disk.Regions.{Fits}

-- The two files have one length, and the same bytes before `off` and from `off + len` on.
pub record Frames (off len : ℕ) (file file' : List ℕ) : Type 0 where
  pub same_length : length file' ≡ length file
  pub before : (i : ℕ) → i < off → get_or file' i 0 ≡ get_or file i 0
  pub after : (i : ℕ) → off + len ≤ i → get_or file' i 0 ≡ get_or file i 0

get_or-written_before :
    (file : List ℕ) (off : ℕ) (buf : List ℕ) (done i : ℕ)
    → off ≤ length file
    → i < off
    → get_or (written file off buf done) i 0 ≡ get_or file i 0
get_or-written_before file off buf done i fits lt =
    get_or-append_lt (take off file) (take done buf ++ drop (off + done) file) i 0
      (omega (arith, length-take_le off file fits))
    ∙ get_or-take off file i 0 lt

get_or-written_after :
    (file : List ℕ) (off : ℕ) (buf : List ℕ) (done i : ℕ)
    → off + done ≤ length file
    → done ≤ length buf
    → off + done ≤ i
    → get_or (written file off buf done) i 0 ≡ get_or file i 0
get_or-written_after file off buf done i fits le ge =
    let a : length (take off file) ≡ off = length-take_le off file (omega arith) in
    let b : length (take done buf) ≡ done = length-take_le done buf le in
    get_or-append_le (take off file) (take done buf ++ drop (off + done) file) i 0 (omega arith)
    ∙ get_or-append_le (take done buf) (drop (off + done) file) (i - length (take off file)) 0
        (omega arith)
    ∙ get_or-drop (off + done) file (i - length (take off file) - length (take done buf)) 0
    ∙ ap (λ k. get_or file k 0) (omega arith)

pub Progress-le : (len done : ℕ) (status : Status) → Progress len done status → done ≤ len
Progress-le len done Status.io_done p = omega arith
Progress-le len done Status.io_thrown p = p
Progress-le len done Status.io_pending p = p

pub Frames-refl : (off len : ℕ) (file : List ℕ) → Frames off len file file
Frames-refl off len file = record { same_length = refl; before = λ i h. refl; after = λ i h. refl }

pub Frames-trans :
    (off len : ℕ) (a b c : List ℕ) → Frames off len a b → Frames off len b c → Frames off len a c
Frames-trans off len a b c p q = record {
  same_length = q.same_length ∙ p.same_length;
  before = λ i h. q.before i h ∙ p.before i h;
  after = λ i h. q.after i h ∙ p.after i h;
}

written-Frames :
    (w : DiskSeq) (file : List ℕ) (done : ℕ)
    → Fits w (length file)
    → done ≤ length w.buf
    → Frames w.region_off w.region_len file (written file (w.region_off + w.pos) w.buf done)
written-Frames w file done fit le = record {
  same_length =
      length-written file (w.region_off + w.pos) w.buf done
        (omega (arith, fit.whole, fit.room, fit.inside)) le;
  before = λ i h.
      get_or-written_before file (w.region_off + w.pos) w.buf done i
        (omega (arith, fit.whole, fit.room, fit.inside)) (omega arith);
  after = λ i h.
      get_or-written_after file (w.region_off + w.pos) w.buf done i
        (omega (arith, fit.whole, fit.room, fit.inside)) le
        (omega (arith, fit.whole, fit.room, fit.inside));
}

pub transfer-Frames :
    (script : List Answer) (w : DiskSeq) (file : List ℕ)
    → Fits w (length file)
    → Frames w.region_off w.region_len file (transfer script w file).1
unfolding transfer
transfer-Frames script w file fit = elim (Bool-cases w.writing) [
  | inr reads ↦
      let e : (transfer script w file).1 ≡ file = rw (transfer, reads) refl in
      subst (Frames w.region_off w.region_len file) (sym e)
        (Frames-refl w.region_off w.region_len file)
  | inl writes ↦
      let off : ℕ = w.region_off + w.pos in
      let r : Writes file off w.buf (full_pwrite script w.buf off file) =
        full_pwrite-Writes script file off w.buf (omega (arith, fit.whole, fit.room, fit.inside)) in
      let e : transfer script w file ≡ full_pwrite script w.buf off file =
        rw (transfer, writes) refl in
      subst (Frames w.region_off w.region_len file) (sym (ap (λ t. t.1) e ∙ r.2))
        (written-Frames w file r.0 fit (Progress-le (length w.buf) r.0 _ r.1))
]
