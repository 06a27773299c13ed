-- ===== src/Prelude/Text.antt =====
-- Texts as lists of characters, and back. A byte of a `std::string` is a character below 256.
use Prim.Native.Char.{Char, char, code, nul, IsLt}
use Prim.Native.Nat.{ℕ, ◌<◌, compare, Ordering}
use Prim.Native.String.{String}
use mathlib.Core.List.{List, [], ◌∷◌}
use mathlib.Core.Path.{◌≡◌, refl, ap₂}
use native.Mathlib.Omega.{arith}
use benchmark_platform.Prelude.Lists.{All}

abbrev pub codes : String → List ℕ
codes String.[] = []
codes (String.◌∷◌ c s) = code c ∷ codes s

-- What a character asks of its number, by three comparisons.
abbrev Above : Ordering → Ordering → Type 0
Above Ordering.lt o = IsLt o
Above Ordering.eq _ = ⊥
Above Ordering.gt _ = ⊥

abbrev Scalar : Ordering → Ordering → Ordering → Type 0
Scalar Ordering.lt _ _ = Unit
Scalar Ordering.eq o p = Above o p
Scalar Ordering.gt o p = Above o p

char_from : (o : Ordering) (n : ℕ) → (Scalar o (compare 57343 n) (compare n 1114112) → Char) → Char
char_from Ordering.lt n k = k tt
char_from Ordering.eq n k = nul
char_from Ordering.gt n k = nul

unfoldable pub text_of : List ℕ → String
unfolding char_from
text_of [] = String.[]
text_of (c ∷ cs) = String.◌∷◌ (char_from (compare c 55296) c (λ p. char c p)) (text_of cs)

code-char_from :
    (o : Ordering) (n : ℕ) (k : Scalar o (compare 57343 n) (compare n 1114112) → Char)
    → o ≡ Ordering.lt
    → ((p : Scalar o (compare 57343 n) (compare n 1114112)) → code (k p) ≡ n)
    → code (char_from o n k) ≡ n
unfolding char_from
code-char_from Ordering.lt n k e h = h tt
code-char_from Ordering.eq n k e h = absurd (cc)
code-char_from Ordering.gt n k e h = absurd (cc)

compare-lt : (a b : ℕ) → a < b → compare a b ≡ Ordering.lt
compare-lt a b h = ground arith

-- Below the surrogates every number is that of a character.
pub codes-text_of : (cs : List ℕ) → All (λ c. c < 55296) cs → codes (text_of cs) ≡ cs
unfolding text_of
codes-text_of [] h = refl
codes-text_of (c ∷ cs) h =
    ap₂ ◌∷◌
      (code-char_from (compare c 55296) c (λ p. char c p) (compare-lt c 55296 h.0) (λ p. refl))
      (codes-text_of cs h.1)
