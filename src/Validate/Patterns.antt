-- ===== src/Validate/Patterns.antt =====
-- The regular expressions of engine/src/validate.cpp. A pattern of single characters is the list of
-- their classes.
use benchmark_platform.Prelude.{
  ℕ, zero, suc, Bool, true, false, ◌&&◌, ◌||◌, List, [], ◌∷◌, ◌++◌, leb, ◌==◌, if◌then◌else◌,
  replicate, drop, take,
}
use benchmark_platform.Prelude.Decimal.{is_digit}

abbrev pub Class : Type 0
Class = ℕ → Bool

-- `[0-9a-f]`
abbrev pub is_hex : Class
is_hex c = leb 48 c && leb c 57 || leb 97 c && leb c 102

-- `[1-8]`
abbrev pub is_version : Class
is_version c = leb 49 c && leb c 56

-- `[89ab]`
abbrev pub is_variant : Class
is_variant c = c == 56 || c == 57 || c == 97 || c == 98

-- The text is one character of each class.
unfoldable pub fits : List Class → List ℕ → Bool
fits [] [] = true
fits [] (c ∷ cs) = false
fits (p ∷ ps) [] = false
fits (p ∷ ps) (c ∷ cs) = p c && fits ps cs

-- `-`
abbrev pub dash : Class
dash c = c == 45

-- "^[0-9a-f]{8}-[0-9a-f]{4}-[1-8][0-9a-f]{3}-[89ab][0-9a-f]{3}-[0-9a-f]{12}$"
abbrev pub uuid : List Class
uuid =
    replicate 8 is_hex
    ++ dash ∷ replicate 4 is_hex
    ++ dash ∷ is_version ∷ replicate 3 is_hex
    ++ dash ∷ is_variant ∷ replicate 3 is_hex
    ++ dash ∷ replicate 12 is_hex

unfoldable pub is_uuid : List ℕ → Bool
is_uuid = fits uuid

-- "^[0-9a-f]{32}$"
unfoldable pub is_machine_id : List ℕ → Bool
is_machine_id = fits (replicate 32 is_hex)

abbrev only : ℕ → Class
only d c = c == d

-- `\d{4}-\d{2}-\d{2}T\d{2}:\d{2}:\d{2}`
abbrev moment : List Class
moment =
    replicate 4 is_digit
    ++ dash
      ∷ is_digit
      ∷ is_digit
      ∷ dash
      ∷ is_digit
      ∷ is_digit
      ∷ only 84
      ∷ is_digit
      ∷ is_digit
      ∷ only 58
      ∷ is_digit
      ∷ is_digit
      ∷ only 58
      ∷ is_digit
      ∷ is_digit
      ∷ []

-- `\d{1,left}Z`, where `some` says that a digit has been read
digits_z : (left : ℕ) (some : Bool) → List ℕ → Bool
digits_z left some [] = false
digits_z zero some (c ∷ cs) = some && fits (only 90 ∷ []) (c ∷ cs)
digits_z (suc left) some (c ∷ cs) =
    let more = digits_z left true cs in
    if is_digit c then more else some && fits (only 90 ∷ []) (c ∷ cs)

-- `(\.\d{1,9})?Z`
fraction : List ℕ → Bool
fraction [] = false
fraction (c ∷ cs) = if c == 46 then digits_z 9 false cs else fits (only 90 ∷ []) (c ∷ cs)

-- "^\d{4}-\d{2}-\d{2}T\d{2}:\d{2}:\d{2}(\.\d{1,9})?Z$"
unfoldable pub is_timestamp : List ℕ → Bool
unfolding digits_z fraction
is_timestamp s = fits moment (take 19 s) && fraction (drop 19 s)
