-- ===== src/Disk/Histogram.antt =====
-- `DiskRandWorkload`: the histogram that a trial leaves for the runner.
use benchmark_platform.Prelude.{
  ℕ, suc, ◌+◌, ◌-◌, ◌<◌, ◌≤◌, ◌^◌, ◌≡◌, refl, sym, ap, subst, ◌∙◌, arith, List, [], ◌∷◌, ◌++◌, ltb,
  ◌==◌, if◌then◌else◌, length, get_or, set, replicate, drop, get_or-set, get_or-append_lt,
  get_or-append_le, get_or-drop, get_or-replicate_lt, length-set, length-append, length-replicate,
  length-drop, Bool-cases, inl, inr,
}
use benchmark_platform.Prelude.Words.{u32}
use benchmark_platform.Disk.Rand.{
  Half, Histograms, bucket_of, record_ns, clear_half, before_trial, record_all,
}

module _ (buckets : ℕ) where
  -- No bucket from `used` on has a call.
  pub record IsHistogram (h : Half) : Type 0 where
    pub size : length h.hist ≡ suc buckets
    pub beyond : (b : ℕ) → h.used ≤ b → get_or h.hist b 0 ≡ 0
    pub bounded : h.used ≤ suc buckets

  -- The number of calls of a list whose time falls into the bucket `b`.
  abbrev pub calls_in : (b : ℕ) → List ℕ → ℕ
  calls_in b [] = 0
  calls_in b (ns ∷ more) = (if b == bucket_of buckets ns then 1 else 0) + calls_in b more

  bucket_of_le : (ns : ℕ) → bucket_of buckets ns ≤ buckets
  bucket_of_le ns = ground arith

  record_ns-at :
      (ns : ℕ) (h : Half) (b : ℕ)
      → IsHistogram h
      → get_or h.hist b 0 + 1 < 2 ^ 32
      → get_or (record_ns buckets ns h).hist b 0
        ≡ get_or h.hist b 0 + (if b == bucket_of buckets ns then 1 else 0)
  unfolding record_ns
  record_ns-at ns h b ok small = ground (
    arith,
    get_or-set h.hist (bucket_of buckets ns) b (u32 (get_or h.hist (bucket_of buckets ns) 0 + 1)) 0
        (omega (arith, ok.size, bucket_of_le ns)),
  )

  record_ns-IsHistogram : (ns : ℕ) (h : Half) → IsHistogram h → IsHistogram (record_ns buckets ns h)
  unfolding record_ns
  record_ns-IsHistogram ns h ok = record {
    size = length-set h.hist _ _ ∙ ok.size;
    beyond = λ b le. ground (
      arith,
      get_or-set h.hist (bucket_of buckets ns) b (u32 (get_or h.hist (bucket_of buckets ns) 0 + 1))
          0 (omega (arith, ok.size, bucket_of_le ns)),
      ok.beyond b,
    );
    bounded = omega (arith, ok.bounded, bucket_of_le ns);
  }

  record_all-at :
      (nss : List ℕ) (h : Half) (b : ℕ)
      → IsHistogram h
      → get_or h.hist b 0 + length nss < 2 ^ 32
      → get_or (record_all buckets nss h).hist b 0 ≡ get_or h.hist b 0 + calls_in b nss
  unfolding record_all
  record_all-at [] h b ok small = omega arith
  record_all-at (ns ∷ more) h b ok small =
      let one : (if b == bucket_of buckets ns then 1 else 0) ≤ 1 = ground arith in
      let at : get_or (record_ns buckets ns h).hist b 0
          ≡ get_or h.hist b 0 + (if b == bucket_of buckets ns then 1 else 0) =
        record_ns-at ns h b ok (omega arith) in
      omega (
        arith,
        at,
        record_all-at more (record_ns buckets ns h) b (record_ns-IsHistogram ns h ok)
            (omega (arith, at, one)),
      )

  record_all-IsHistogram :
      (nss : List ℕ) (h : Half) → IsHistogram h → IsHistogram (record_all buckets nss h)
  unfolding record_all
  record_all-IsHistogram [] h ok = ok
  record_all-IsHistogram (ns ∷ more) h ok =
      record_all-IsHistogram more (record_ns buckets ns h) (record_ns-IsHistogram ns h ok)

  cleared : Half → List ℕ
  cleared h = replicate h.used 0 ++ drop h.used h.hist

  length-cleared : (h : Half) → IsHistogram h → length (cleared h) ≡ suc buckets
  unfolding cleared
  length-cleared h ok = omega (
    arith,
    length-append (replicate h.used 0) (drop h.used h.hist),
    length-drop h.used h.hist,
    length-replicate {A = ℕ} h.used 0,
    ok.size,
    ok.bounded,
  )

  get_or-cleared : (h : Half) (b : ℕ) → IsHistogram h → get_or (cleared h) b 0 ≡ 0
  unfolding cleared
  get_or-cleared h b ok = elim (Bool-cases (ltb b h.used)) [
    | inl below ↦
        let lt : b < h.used = ground arith in
        let zeros : List ℕ = replicate h.used 0 in
        let n : length zeros ≡ h.used = length-replicate {A = ℕ} h.used 0 in
        get_or-append_lt zeros (drop h.used h.hist) b 0 (omega arith)
        ∙ get_or-replicate_lt h.used 0 b 0 lt
    | inr beyond ↦
        let le : h.used ≤ b = ground arith in
        let zeros : List ℕ = replicate h.used 0 in
        let n : length zeros ≡ h.used = length-replicate {A = ℕ} h.used 0 in
        let at : h.used + (b - length zeros) ≡ b = omega arith in
        get_or-append_le zeros (drop h.used h.hist) b 0 (omega arith)
        ∙ get_or-drop h.used h.hist (b - length zeros) 0
        ∙ ap (λ k. get_or h.hist k 0) at
        ∙ ok.beyond b le
  ]

  -- A half with all its buckets 0.
  record IsEmpty (h : Half) : Type 0 where
    zeros : (b : ℕ) → get_or h.hist b 0 ≡ 0
    histogram : IsHistogram h

  clear_half-IsEmpty : (h : Half) → IsHistogram h → IsEmpty (clear_half buckets h)
  unfolding clear_half cleared
  clear_half-IsEmpty h ok = elim (Bool-cases (ltb 0 h.used)) [
    | inr unused ↦
        let e : clear_half buckets h ≡ h = rw (clear_half, unused) refl in
        subst IsEmpty (sym e) (record { zeros = λ b. ok.beyond b (ground arith); histogram = ok })
    | inl some_used ↦
        let hist : List ℕ = set (cleared h) buckets 0 in
        let e : clear_half buckets h ≡ record { hist = hist; used = 0 } =
          rw (clear_half, some_used) refl in
        let zeros : (b : ℕ) → get_or hist b 0 ≡ 0 = λ b. ground (
          arith,
          get_or-set (cleared h) buckets b 0 0 (omega (arith, length-cleared h ok)),
          get_or-cleared h b ok,
        ) in
        subst IsEmpty (sym e) (record {
          zeros = zeros;
          histogram = record {
            size = length-set (cleared h) buckets 0 ∙ length-cleared h ok;
            beyond = λ b le. zeros b;
            bounded = omega arith;
          };
        })
  ]

  -- In a trial of fewer than 2^32 calls, each bucket of the histogram has the number of the calls
  -- that fall into it, the bound that the runner reads up to covers them, and the histogram of
  -- the trial before, which the runner may still be reading, is as it was; the histogram of two
  -- trials ago was well-formed.
  pub before_trial-record_all :
      (h : Histograms) (nss : List ℕ) (b : ℕ)
      → IsHistogram h.other
      → length nss < 2 ^ 32
      → (get_or (record_all buckets nss (before_trial buckets h).current).hist b 0 ≡ calls_in b nss)
        × IsHistogram (record_all buckets nss (before_trial buckets h).current)
        × ((before_trial buckets h).other ≡ h.current)
  unfolding before_trial
  before_trial-record_all h nss b ok small =
      let e : IsEmpty (clear_half buckets h.other) = clear_half-IsEmpty h.other ok in
      (
        record_all-at nss (clear_half buckets h.other) b e.histogram (omega (arith, e.zeros b))
            ∙ ap (λ k. k + calls_in b nss) (e.zeros b)
            ∙ omega arith,
        record_all-IsHistogram nss (clear_half buckets h.other) e.histogram,
        refl,
      )
