-- ===== src/Sha256/Blocks.antt =====
-- The loop over the full blocks of a text.
use benchmark_platform.Prelude.{
  ℕ, zero, suc, ◌+◌, ◌*◌, ◌<◌, ◌≤◌, List, ◌++◌, length, take, drop, length-drop, drop-drop,
  take-append_le, drop-append_le, ◌≡◌, sym, ap, ◌∙◌, arith, le→leb, gt→leb,
}
use mathlib.Core.Path.{ap₂}
use benchmark_platform.Sha256.{Words8, compress, full_blocks}
use benchmark_platform.Sha256.Spec.{compress_blocks}

pub full_blocks_lem :
    (fuel : ℕ) (text : List ℕ) (v : Words8) (off q r : ℕ)
    → length text ≡ off + (q * 64 + r)
    → r < 64
    → q < fuel
    → full_blocks fuel text v off ≡ (compress_blocks q v (drop off text), off + q * 64)
unfolding full_blocks compress_blocks
full_blocks_lem zero text v off q r e lt f = elim f [ ]
full_blocks_lem (suc fuel) text v off zero r e lt f =
    let at : off ≡ off + 0 * 64 = omega arith in
    rw (gt→leb (off + 64) (length text) (omega arith), full_blocks) (ap (λ k. (v, k)) at)
full_blocks_lem (suc fuel) text v off (suc q) r e lt f =
    let at : off + 64 + q * 64 ≡ off + suc q * 64 = omega arith in
    rw (le→leb (off + 64) (length text) (omega arith), full_blocks)
      (full_blocks_lem fuel text _ (off + 64) q r (omega arith) lt (omega arith)
        ∙ ap₂ (λ l k. (compress_blocks q (compress v (take 64 (drop off text))) l, k))
            (sym (drop-drop 64 off text)) at)

pub compress_blocks-append :
    (q k : ℕ) (v : Words8) (xs ys : List ℕ)
    → q * 64 ≤ length xs
    → compress_blocks (q + k) v (xs ++ ys)
      ≡ compress_blocks k (compress_blocks q v xs) (drop (q * 64) xs ++ ys)
unfolding compress_blocks
compress_blocks-append zero k v xs ys h =
    let e : 0 + k ≡ k = omega arith in ap (λ n. compress_blocks n v (xs ++ ys)) e
compress_blocks-append (suc q) k v xs ys h =
    let e : suc q + k ≡ suc (q + k) = omega arith in
    let f : 64 + q * 64 ≡ suc q * 64 = omega arith in
    rw (e, compress_blocks)
      (rw (take-append_le 64 xs ys (omega arith), drop-append_le 64 xs ys (omega arith))
        (compress_blocks-append q k _ (drop 64 xs) ys (omega (arith, length-drop 64 xs))
          ∙ ap (λ l. compress_blocks k (compress_blocks (suc q) v xs) (l ++ ys))
              (drop-drop (q * 64) 64 xs ∙ ap (λ n. drop n xs) f)))
