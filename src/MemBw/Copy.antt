-- ===== src/MemBw/Copy.antt =====
-- The two ways to copy the first half of the buffer to the second.
use benchmark_platform.Prelude.{
  ℕ, zero, suc, ◌+◌, ◌-◌, ◌<◌, ◌≤◌, List, ◌++◌, length, get_or, set, take, drop, leb, ltb,
  if◌then◌else◌, ◌≡◌, refl, ◌∙◌, ap, sym, arith, Bool-cases, inl, inr, get_or-set, length-set,
  leb→le, length-take, length-drop, length-append, get_or-append_lt, get_or-append_le, get_or-take,
  get_or-drop, list_ext,
}
use benchmark_platform.MemBw.{copy_from, stream_copy, copy_chunks, copy_words_nt, memcpy_words}

-- A store above an index leaves what is there.
get_or-set_above :
    (p : List ℕ) (a k v : ℕ) → k < a → a < length p → get_or (set p a v) k 0 ≡ get_or p k 0
get_or-set_above p a k v h fits = ground (arith, get_or-set p a k v 0)

four_copy :
    (p : List ℕ) (words i : ℕ)
    → i + 4 ≤ words
    → words + words ≤ length p
    → copy_from (i + 4) (words - (i + 4)) (stream_copy p words i) words
      ≡ copy_from i (words - i) p words
unfolding copy_from
four_copy p words i h fits =
    let left : words - i ≡ suc (suc (suc (suc (words - (i + 4))))) = omega arith in
    let next : i + 4 ≡ suc (suc (suc (suc i))) = omega arith in
    let p1 = set p (words + i) (get_or p i 0) in
    let p2 = set p1 (words + suc i) (get_or p (suc i) 0) in
    let p3 = set p2 (words + suc (suc i)) (get_or p (suc (suc i)) 0) in
    let l1 : length p1 ≡ length p = length-set p (words + i) (get_or p i 0) in
    let l2 : length p2 ≡ length p = length-set p1 (words + suc i) (get_or p (suc i) 0) ∙ l1 in
    let e1 : get_or p1 (suc i) 0 ≡ get_or p (suc i) 0 =
      get_or-set_above p (words + i) (suc i) (get_or p i 0) (omega arith) (omega arith) in
    let e2 : get_or p2 (suc (suc i)) 0 ≡ get_or p (suc (suc i)) 0 =
      get_or-set_above p1 (words + suc i) (suc (suc i)) (get_or p (suc i) 0) (omega arith)
        (omega arith)
      ∙ get_or-set_above p (words + i) (suc (suc i)) (get_or p i 0) (omega arith) (omega arith) in
    let e3 : get_or p3 (suc (suc (suc i))) 0 ≡ get_or p (suc (suc (suc i))) 0 =
      get_or-set_above p2 (words + suc (suc i)) (suc (suc (suc i))) (get_or p (suc (suc i)) 0)
        (omega arith) (omega arith)
      ∙ get_or-set_above p1 (words + suc i) (suc (suc (suc i))) (get_or p (suc i) 0) (omega arith)
          (omega arith)
      ∙ get_or-set_above p (words + i) (suc (suc (suc i))) (get_or p i 0) (omega arith)
          (omega arith) in
    rw (left, next, copy_from, e1, e2, e3) refl

-- The copy leaves the first half, and the second becomes the first.
copy_from_lem :
    (i count : ℕ) (p : List ℕ) (words j : ℕ)
    → i + count ≤ words
    → words + words ≤ length p
    → get_or (copy_from i count p words) j 0 ≡ (
        if leb (words + i) j
        then if ltb j (words + i + count) then get_or p (j - words) 0 else get_or p j 0
        else get_or p j 0)
unfolding copy_from
copy_from_lem i zero p words j h fits = ground arith
copy_from_lem i (suc count) p words j h fits = ground (
  arith,
  copy_from_lem (suc i) count (set p (words + i) (get_or p i 0)) words j,
  get_or-set p (words + i) j (get_or p i 0) 0,
  get_or-set p (words + i) (j - words) (get_or p i 0) 0,
  length-set p (words + i) (get_or p i 0),
)

pub length-copy_from :
    (i count : ℕ) (p : List ℕ) (words : ℕ) → length (copy_from i count p words) ≡ length p
unfolding copy_from
length-copy_from i zero p words = refl
length-copy_from i (suc count) p words =
    length-copy_from (suc i) count (set p (words + i) (get_or p i 0)) words
    ∙ length-set p (words + i) (get_or p i 0)

length-stream_copy : (p : List ℕ) (words i : ℕ) → length (stream_copy p words i) ≡ length p
length-stream_copy p words i =
    length-set _ (words + suc (suc (suc i))) _
    ∙ length-set _ (words + suc (suc i)) _
    ∙ length-set _ (words + suc i) _
    ∙ length-set p (words + i) _

copy_chunks_lem :
    (fuel : ℕ) (p : List ℕ) (words i : ℕ)
    → words + words ≤ length p
    → copy_from
        (copy_chunks fuel p words i).1
        (words - (copy_chunks fuel p words i).1)
        (copy_chunks fuel p words i).0
        words
      ≡ copy_from i (words - i) p words
unfolding copy_chunks
copy_chunks_lem zero p words i fits = refl
copy_chunks_lem (suc fuel) p words i fits = elim (Bool-cases (leb (i + 4) words)) [
  | inl more ↦
      rw (more, copy_chunks)
        (copy_chunks_lem fuel (stream_copy p words i) words (i + 4)
            (omega (arith, length-stream_copy p words i))
          ∙ four_copy p words i (leb→le (i + 4) words more) fits)
  | inr done ↦ rw (done, copy_chunks) refl
]

pub get_or-memcpy_words :
    (p : List ℕ) (words j : ℕ)
    → words + words ≤ length p
    → j < length p
    → get_or (memcpy_words p words) j 0 ≡ (
        if leb words j
        then if ltb j (words + words) then get_or p (j - words) 0 else get_or p j 0
        else get_or p j 0)
get_or-memcpy_words p words j fits h =
    let rest = take words p ++ drop (words + words) p in
    ground (
      arith,
      length-take words p,
      get_or-append_lt (take words p) rest j 0,
      get_or-append_le (take words p) rest j 0,
      get_or-append_lt (take words p) (drop (words + words) p) (j - words) 0,
      get_or-append_le (take words p) (drop (words + words) p) (j - words) 0,
      get_or-take words p j 0,
      get_or-take words p (j - words) 0,
      get_or-drop (words + words) p (j - words - words) 0,
    )

pub length-memcpy_words :
    (p : List ℕ) (words : ℕ) → words + words ≤ length p → length (memcpy_words p words) ≡ length p
length-memcpy_words p words fits =
    let rest = take words p ++ drop (words + words) p in
    omega (
      arith,
      length-append {0} (take words p) rest,
      length-append {0} (take words p) (drop (words + words) p),
      length-take words p,
      length-drop (words + words) p,
    )

-- Where the buffer holds both halves, the streaming copy leaves in it what memcpy does.
pub copy_words_nt_lem :
    (p : List ℕ) (words : ℕ)
    → words + words ≤ length p
    → copy_words_nt p words ≡ memcpy_words p words
unfolding copy_words_nt
copy_words_nt_lem p words fits =
    let all : words - 0 ≡ words = omega arith in
    copy_chunks_lem words p words 0 fits
    ∙ ap (λ k. copy_from 0 k p words) all
    ∙ list_ext (copy_from 0 words p words) (memcpy_words p words) 0
        (length-copy_from 0 words p words ∙ sym (length-memcpy_words p words fits))
        (λ j h.
          let lt : j < length p = omega (arith, length-copy_from 0 words p words) in
          ground (arith, copy_from_lem 0 words p words j, get_or-memcpy_words p words j fits lt))
