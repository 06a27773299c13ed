-- ===== src/Tests/Documents.antt =====
-- JSON documents as a data type, with natural numbers for doubles: that what the engine relies on can
-- be met.
use benchmark_platform.Prelude.{
  ℕ, ◌≡◌, refl, ap, String, Bool, true, false, Option, none, some, List, [], ◌∷◌, map, ltb,
}
use benchmark_platform.Prelude.Int.{ℤ, pos}
use benchmark_platform.Prelude.Json.{JsonLib, lookup}

mutual
  pub data Document : Type 0 where
    object : Members → Document
    array : Documents → Document
    string : String → Document
    integer : ℤ → Document
    unsigned : ℕ → Document
    double : ℕ → Document
    boolean : Bool → Document

  pub data Documents : Type 0 where
    none_left : Documents
    next : Document → Documents → Documents

  pub data Members : Type 0 where
    no_member : Members
    member : String → Document → Members → Members

abbrev pub pack : List Document → Documents
pack [] = none_left
pack (d ∷ ds) = next d (pack ds)

abbrev pub unpack : Documents → List Document
unpack none_left = []
unpack (next d ds) = d ∷ unpack ds

abbrev pub pack_members : List (String × Document) → Members
pack_members [] = no_member
pack_members ((k, d) ∷ ms) = member k d (pack_members ms)

abbrev pub unpack_members : Members → List (String × Document)
unpack_members no_member = []
unpack_members (member k d ms) = (k, d) ∷ unpack_members ms

pub unpack-pack : (ds : List Document) → unpack (pack ds) ≡ ds
unpack-pack [] = refl
unpack-pack (d ∷ ds) = ap (λ l. d ∷ l) (unpack-pack ds)

pub unpack_members-pack_members :
    (ms : List (String × Document)) → unpack_members (pack_members ms) ≡ ms
unpack_members-pack_members [] = refl
unpack_members-pack_members ((k, d) ∷ ms) = ap (λ l. (k, d) ∷ l) (unpack_members-pack_members ms)

abbrev find_in : String → Document → Option Document
find_in k (object ms) = lookup k (unpack_members ms)
find_in k _ = none

abbrev string_in : Document → Option String
string_in (string s) = some s
string_in _ = none

abbrev strings_in : Documents → Option (List String)
strings_in none_left = some []
strings_in (next d ds) = elim (string_in d) [
  | none ↦ none
  | some s ↦ elim (strings_in ds) [ none ↦ none | some ss ↦ some (s ∷ ss) ]
]

pub strings_in-pack : (ss : List String) → strings_in (pack (map string ss)) ≡ some ss
strings_in-pack [] = refl
strings_in-pack (s ∷ ss) = rw (strings_in-pack ss) refl

abbrev is_object_in : Document → Bool
is_object_in (object ms) = true
is_object_in _ = false

abbrev is_array_in : Document → Bool
is_array_in (array ds) = true
is_array_in _ = false

abbrev is_string_in : Document → Bool
is_string_in (string s) = true
is_string_in _ = false

abbrev is_integer_in : Document → Bool
is_integer_in (integer z) = true
is_integer_in (unsigned n) = true
is_integer_in _ = false

abbrev is_number_in : Document → Bool
is_number_in (integer z) = true
is_number_in (unsigned n) = true
is_number_in (double x) = true
is_number_in _ = false

abbrev is_boolean_in : Document → Bool
is_boolean_in (boolean b) = true
is_boolean_in _ = false

abbrev elements_in : Document → List Document
elements_in (array ds) = unpack ds
elements_in _ = []

abbrev int_in : Document → Option ℤ
int_in (integer z) = some z
int_in (unsigned n) = some (pos n)
int_in _ = none

abbrev unsigned_in : Document → Option ℕ
unsigned_in (integer (pos n)) = some n
unsigned_in (unsigned n) = some n
unsigned_in _ = none

abbrev double_in : Document → Option ℕ
double_in (integer (pos n)) = some n
double_in (unsigned n) = some n
double_in (double x) = some x
double_in _ = none

abbrev all_strings_in : Document → Option (List String)
all_strings_in (array ds) = strings_in ds
all_strings_in _ = none

abbrev pub documents : JsonLib ℕ
documents = record {
  Json = Document;
  object = λ ms. Document.object (pack_members ms);
  array = λ ds. Document.array (pack ds);
  string = Document.string;
  integer = Document.integer;
  unsigned = Document.unsigned;
  double = Document.double;
  is_object = is_object_in;
  is_array = is_array_in;
  is_string = is_string_in;
  is_number_integer = is_integer_in;
  is_number = is_number_in;
  is_boolean = is_boolean_in;
  find = find_in;
  elements = elements_in;
  get_string = string_in;
  get_int = int_in;
  get_u64 = unsigned_in;
  get_double = double_in;
  get_long = int_in;
  get_strings = all_strings_in;
  is_finite = λ x. true;
  less = ltb;
  zero_double = 0;
  is_object-object = λ ms. refl;
  find-object = λ k ms d. ap (lookup k) (unpack_members-pack_members ms);
  is_array-array = λ ds. refl;
  elements-array = unpack-pack;
  is_string-string = λ s. refl;
  get_string-string = λ s. refl;
  get_strings-array = strings_in-pack;
  is_number_integer-integer = λ z. refl;
  is_number_integer-unsigned = λ n. refl;
  get_int-integer = λ z i. refl;
  get_long-integer = λ z i. refl;
  get_u64-unsigned = λ n b. refl;
  is_number-double = λ x. refl;
  get_double-double = λ x. refl;
}
