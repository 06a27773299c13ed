-- ===== src/Prelude/Json.antt =====
-- `nlohmann::json`, and the comparisons of `double` that its readers use: what the library documents
-- of the values that the engine makes and of the questions that it asks of them. Of `get` a `none`
-- stands for the exception of a value of another type.
use text.Mathlib.Text.{◌==◌ as str_eq}
use benchmark_platform.Prelude.{
  ℕ, ◌<◌, ◌^◌, ◌≡◌, String, Bool, true, false, not, ◌&&◌, Option, none, some, List, [], ◌∷◌, map,
  if◌then◌else◌,
}
use benchmark_platform.Prelude.Int.{ℤ, pos, negsuc}

-- The values of `int`.
abbrev pub IsInt : ℤ → Type 0
IsInt (pos n) = n < 2 ^ 31
IsInt (negsuc n) = n < 2 ^ 31

-- The first value under a key.
abbrev pub lookup {ℓ} : {A : Type ℓ} → String → List (String × A) → Option A
lookup k [] = none
lookup k ((j, v) ∷ m) = if str_eq j k then some v else lookup k m

abbrev has_key {ℓ} : {A : Type ℓ} → String → List (String × A) → Bool
has_key k [] = false
has_key k ((j, v) ∷ m) = if str_eq j k then true else has_key k m

-- No key comes twice.
abbrev pub distinct {ℓ} : {A : Type ℓ} → List (String × A) → Bool
distinct [] = true
distinct ((k, v) ∷ m) = not (has_key k m) && distinct m

pub record JsonLib (D : Type 0) : Type 1 where
  pub Json : Type 0
  -- A value of the engine's, converted.
  pub object : List (String × Json) → Json
  pub array : List Json → Json
  pub string : String → Json
  pub integer : ℤ → Json
  pub unsigned : ℕ → Json
  pub double : D → Json
  -- `is_object` to `is_boolean`
  pub is_object : Json → Bool
  pub is_array : Json → Bool
  pub is_string : Json → Bool
  pub is_number_integer : Json → Bool
  pub is_number : Json → Bool
  pub is_boolean : Json → Bool
  -- `find`, `contains` and `operator[]`; the elements that a `for` goes over.
  pub find : String → Json → Option Json
  pub elements : Json → List Json
  -- `get<std::string>`, `get<int>`, `get<std::uint64_t>`, `get<double>`, `get<long long>`,
  -- `get<std::vector<std::string>>`
  pub get_string : Json → Option String
  pub get_int : Json → Option ℤ
  pub get_u64 : Json → Option ℕ
  pub get_double : Json → Option D
  pub get_long : Json → Option ℤ
  pub get_strings : Json → Option (List String)
  pub is_finite : D → Bool
  pub less : D → D → Bool
  pub zero_double : D
  pub is_object-object : (m : List (String × Json)) → is_object (object m) ≡ true
  pub find-object :
      (k : String) (m : List (String × Json)) → distinct m ≡ true → find k (object m) ≡ lookup k m
  pub is_array-array : (js : List Json) → is_array (array js) ≡ true
  pub elements-array : (js : List Json) → elements (array js) ≡ js
  pub is_string-string : (s : String) → is_string (string s) ≡ true
  pub get_string-string : (s : String) → get_string (string s) ≡ some s
  pub get_strings-array : (ss : List String) → get_strings (array (map string ss)) ≡ some ss
  pub is_number_integer-integer : (z : ℤ) → is_number_integer (integer z) ≡ true
  pub is_number_integer-unsigned : (n : ℕ) → is_number_integer (unsigned n) ≡ true
  pub get_int-integer : (z : ℤ) → IsInt z → get_int (integer z) ≡ some z
  pub get_long-integer : (z : ℤ) → IsInt z → get_long (integer z) ≡ some z
  pub get_u64-unsigned : (n : ℕ) → n < 2 ^ 64 → get_u64 (unsigned n) ≡ some n
  pub is_number-double : (x : D) → is_number (double x) ≡ true
  pub get_double-double : (x : D) → get_double (double x) ≡ some x
