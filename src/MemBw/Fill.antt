-- ===== src/MemBw/Fill.antt =====
-- The two ways to fill the buffer.
use benchmark_platform.Prelude.{
  ℕ, zero, suc, ◌+◌, ◌-◌, ◌≤◌, List, length, get_or, set, leb, ltb, if◌then◌else◌, ◌≡◌, refl, ◌∙◌,
  ap, arith, Bool-cases, inl, inr, get_or-set, length-set, leb→le,
}
use benchmark_platform.MemBw.{fill_from, fill_words, stream_fill, fill_chunks, fill_words_nt}

pub length-fill_from :
    (i count : ℕ) (p : List ℕ) (v : ℕ) → length (fill_from i count p v) ≡ length p
unfolding fill_from
length-fill_from i zero p v = refl
length-fill_from i (suc count) p v = length-fill_from (suc i) count (set p i v) v ∙ length-set p i v

pub get_or-fill_from :
    (i count : ℕ) (p : List ℕ) (v j : ℕ)
    → i + count ≤ length p
    → get_or (fill_from i count p v) j 0
      ≡ (if leb i j then if ltb j (i + count) then v else get_or p j 0 else get_or p j 0)
unfolding fill_from
get_or-fill_from i zero p v j h = ground arith
get_or-fill_from i (suc count) p v j h =
    ground (
      arith,
      get_or-fill_from (suc i) count (set p i v) v j,
      get_or-set p i j v 0,
      length-set p i v,
    )

four_fill :
    (p : List ℕ) (words i v : ℕ)
    → i + 4 ≤ words
    → fill_from (i + 4) (words - (i + 4)) (stream_fill p i v) v ≡ fill_from i (words - i) p v
unfolding fill_from
four_fill p words i v h =
    let left : words - i ≡ suc (suc (suc (suc (words - (i + 4))))) = omega arith in
    let next : i + 4 ≡ suc (suc (suc (suc i))) = omega arith in rw (left, next) refl

fill_chunks_lem :
    (fuel : ℕ) (p : List ℕ) (words i v : ℕ)
    → fill_from
        (fill_chunks fuel p words i v).1
        (words - (fill_chunks fuel p words i v).1)
        (fill_chunks fuel p words i v).0
        v
      ≡ fill_from i (words - i) p v
unfolding fill_chunks
fill_chunks_lem zero p words i v = refl
fill_chunks_lem (suc fuel) p words i v = elim (Bool-cases (leb (i + 4) words)) [
  | inl more ↦
      rw (more, fill_chunks)
        (fill_chunks_lem fuel (stream_fill p i v) words (i + 4) v
          ∙ four_fill p words i v (leb→le (i + 4) words more))
  | inr done ↦ rw (done, fill_chunks) refl
]

-- The streaming stores fill the buffer as the plain loop does.
pub fill_words_nt_lem : (p : List ℕ) (words v : ℕ) → fill_words_nt p words v ≡ fill_words p words v
unfolding fill_words_nt fill_words
fill_words_nt_lem p words v =
    let all : words - 0 ≡ words = omega arith in
    fill_chunks_lem words p words 0 v ∙ ap (λ k. fill_from 0 k p v) all
