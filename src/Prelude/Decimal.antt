-- ===== src/Prelude/Decimal.antt =====
-- `std::from_chars` in base 10 and `std::stoi`: the digits at the front of a text, and the number that they stand for.
use native.Mathlib.Nat.{pow-succ'}
use Prim.Native.Nat.{ℕ, suc, ◌+◌, ◌-◌, ◌*◌, ◌^◌}
use mathlib.Core.Path.{◌≡◌, sym, ap, ◌∙◌}
use mathlib.Core.Bool.{Bool, true, false, ◌&&◌, ◌||◌}
use mathlib.Core.Option.{Option, none, some}
use benchmark_platform.Prelude.Int.{ℤ, pos, neg}
use mathlib.Core.List.{List, [], ◌∷◌, ◌++◌}
use native.Mathlib.Omega.{arith}
use benchmark_platform.Prelude.Tests.{leb, ◌==◌, if◌then◌else◌}
use benchmark_platform.Prelude.Lists.{length, All}

abbrev pub is_digit : ℕ → Bool
is_digit c = leb 48 c && leb c 57

-- The digits at the front of a text, with the value `acc` of those before; then the rest.
unfoldable pub digits_from : List ℕ → (acc : ℕ) → ℕ × List ℕ
digits_from [] acc = (acc, [])
digits_from (c ∷ cs) acc =
    let more = digits_from cs (acc * 10 + (c - 48)) in if is_digit c then more else (acc, c ∷ cs)

-- `std::isspace`
abbrev pub is_space : ℕ → Bool
is_space c = c == 32 || leb 9 c && leb c 13

unfoldable pub drop_space : List ℕ → List ℕ
drop_space [] = []
drop_space (c ∷ cs) = let rest = drop_space cs in if is_space c then rest else c ∷ cs

abbrev pub starts_digit : List ℕ → Bool
starts_digit [] = false
starts_digit (c ∷ cs) = is_digit c

-- The number behind a sign, to `int`: `none` for no digit, and for a value out of range.
unfoldable pub signed_from : (negative : Bool) → List ℕ → Option ℤ
signed_from negative s =
    let v = (digits_from s 0).0 in
    if starts_digit s && leb v (if negative then 2 ^ 31 else 2 ^ 31 - 1)
    then some (if negative then neg v else pos v)
    else none

unfoldable pub sign_from : List ℕ → Option ℤ
sign_from [] = none
sign_from (c ∷ cs) =
    if c == 45
    then signed_from true cs
    else if c == 43
    then signed_from false cs
    else signed_from false (c ∷ cs)

-- `std::stoi`, with `none` for what it throws. What stands behind the number is not looked at.
unfoldable pub stoi : List ℕ → Option ℤ
stoi s = sign_from (drop_space s)

-- The number that decimal digits stand for, by their places.
abbrev pub number : List ℕ → ℕ
number [] = 0
number (c ∷ cs) = (c - 48) * 10 ^ length cs + number cs

place : (a x t n : ℕ) → (a * 10 + x) * t + n ≡ a * (10 * t) + (x * t + n)
place a x t n = grind arith

pub digits_from_lem :
    (ds rest : List ℕ) (acc : ℕ)
    → All (λ c. is_digit c ≡ true) ds
    → starts_digit rest ≡ false
    → digits_from (ds ++ rest) acc ≡ (acc * 10 ^ length ds + number ds, rest)
unfolding digits_from
digits_from_lem [] [] acc h e = ap (λ v. (v, [])) (grind arith)
digits_from_lem [] (c ∷ rest) acc h e = rw (digits_from, e) (ap (λ v. (v, c ∷ rest)) (grind arith))
digits_from_lem (c ∷ ds) rest acc h e =
    let n : ℕ = length ds in
    let p : 10 ^ suc n ≡ 10 * 10 ^ n = pow-succ' 10 n in
    let v : (acc * 10 + (c - 48)) * 10 ^ n + number ds
        ≡ acc * 10 ^ suc n + ((c - 48) * 10 ^ n + number ds) =
      place acc (c - 48) (10 ^ n) (number ds)
      ∙ ap (λ t. acc * t + ((c - 48) * 10 ^ n + number ds)) (sym p) in
    rw (h.0) (digits_from_lem ds rest (acc * 10 + (c - 48)) h.1 e ∙ ap (λ v. (v, rest)) v)
