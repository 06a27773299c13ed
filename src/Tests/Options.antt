-- ===== src/Tests/Options.antt =====
-- Texts that are read, and the clock: the theorems at concrete inputs.
use benchmark_platform.Prelude.{◌≡◌, ◌↔◌, refl, arith, true, some, [], ◌∷◌, ◌++◌, max}
use benchmark_platform.Prelude.Decimal.{number, digits_from}
use benchmark_platform.Cli.{read_decimal, shift_of, parse_size}
use benchmark_platform.Cli.Size.{Reads, parse_size_iff}
use benchmark_platform.Http.Url.{Parsed, parse_url}
use benchmark_platform.Http.Url.Print.{IsHost, written_url, parse_url-written}
use benchmark_platform.Clock.{clock_selftest}
use benchmark_platform.Clock.Window.{Result, clock_selftest-Result}

-- "64", with "k"
parse_size_iff_example :
    (parse_size (54 ∷ (52 ∷ []) ++ (107 ∷ [])) ≡ some 65536)
    ↔ Reads (number (54 ∷ 52 ∷ [])) (107 ∷ []) 65536
parse_size_iff_example = parse_size_iff 54 (52 ∷ []) (107 ∷ []) 65536 (refl, (refl, tt)) refl

-- 2^54, as "18014398509481984", with "K": the product wraps to 0.
wrapped_size :
    parse_size
      (49 ∷ 56 ∷ 48 ∷ 49 ∷ 52 ∷ 51 ∷ 57 ∷ 56 ∷ 53 ∷ 48 ∷ 57 ∷ 52 ∷ 56 ∷ 49 ∷ 57 ∷ 56 ∷ 52 ∷ 75 ∷ [])
    ≡ some 0
unfolding parse_size read_decimal digits_from shift_of
wrapped_size = refl

-- The host "::1", the port 80 and the path "/x".
parse_url-written_example :
    parse_url (written_url true (58 ∷ 58 ∷ 49 ∷ []) (56 ∷ 48 ∷ []) (120 ∷ []))
    ≡ Parsed.parsed
        (record { host = 58 ∷ 58 ∷ 49 ∷ []; port = number (56 ∷ 48 ∷ []); path = 47 ∷ 120 ∷ [] })
parse_url-written_example =
    parse_url-written true (58 ∷ 58 ∷ 49 ∷ []) 56 (48 ∷ []) (120 ∷ [])
      (IsHost.bracketed 58 (58 ∷ 49 ∷ []) (refl, (refl, (refl, tt)))) (refl, (refl, tt))
      (omega arith) (omega arith)

clock_selftest-Result_example :
    Result (max 2 3) 0 100 (110 ∷ 125 ∷ 130 ∷ []) (clock_selftest 3 0 100 (110 ∷ 125 ∷ 130 ∷ []))
clock_selftest-Result_example =
    clock_selftest-Result 3 0 100 (110 ∷ 125 ∷ 130 ∷ [])
      (omega arith, omega arith, (omega arith, omega arith, (omega arith, omega arith, tt)))
      (omega arith)
