-- ===== src/Validate/Fields.antt =====
-- The checks of one member each, at an object with that member.
use benchmark_platform.Prelude.{
  ℕ, ◌≡◌, ◌↔◌, refl, ap, ◌∙◌, String, Bool, true, false, not, Option, none, some, List, [], ◌∷◌,
  ◌++◌, if◌then◌else◌,
}
use benchmark_platform.Prelude.Int.{ℤ, pos, ltb_int}
use benchmark_platform.Prelude.Json.{JsonLib, IsInt, lookup, distinct}
use benchmark_platform.Metric.{Metric}
use benchmark_platform.Metric.Names.{parse_metric}
use benchmark_platform.Validate.{
  Place, Problem, problem_if, out_of_range, malformed, mismatch, require, field_of, check_string,
  check_int, check_double, metric_of, check_metric, check_name, check_order, wrong_order, contains,
  num, check_late,
}

pub problem_if_nil : (b : Bool) (p : Problem) → (problem_if b p ≡ []) ↔ (b ≡ false)
problem_if_nil true p = (λ e. cc, λ e. cc)
problem_if_nil false p = (λ e. refl, λ e. refl)

pub problem_unless_nil : (b : Bool) (p : Problem) → (problem_if (not b) p ≡ []) ↔ (b ≡ true)
problem_unless_nil true p = (λ e. refl, λ e. refl)
problem_unless_nil false p = (λ e. cc, λ e. cc)

pub append_eq_nil {ℓ} : {A : Type ℓ} (xs ys : List A) → (xs ++ ys ≡ []) ↔ ((xs ≡ []) × (ys ≡ []))
append_eq_nil [] ys = (λ e. (refl, e), λ e. e.1)
append_eq_nil (x ∷ xs) ys = (λ e. absurd (cc), λ e. absurd (cc))

module _ {D : Type 0} (lib : JsonLib D) (m : List (String × lib.Json)) where
  open lib use {Json, object, array, string, integer, unsigned, double, less}

  pub require_at :
      (pred : Json → Bool) (w : Place) (key : String) (v : Json)
      → distinct m ≡ true
      → lookup key m ≡ some v
      → pred v ≡ true
      → require lib pred w (object m) key ≡ []
  unfolding require
  require_at pred w key v d l p = rw (require, lib.find-object key m d, l, p) refl

  pub require_string :
      (w : Place) (key s : String)
      → distinct m ≡ true
      → lookup key m ≡ some (string s)
      → require lib lib.is_string w (object m) key ≡ []
  require_string w key s d l =
      require_at lib.is_string w key (string s) d l (lib.is_string-string s)

  pub require_int :
      (w : Place) (key : String) (z : ℤ)
      → distinct m ≡ true
      → lookup key m ≡ some (integer z)
      → require lib lib.is_number_integer w (object m) key ≡ []
  require_int w key z d l =
      require_at lib.is_number_integer w key (integer z) d l (lib.is_number_integer-integer z)

  pub require_unsigned :
      (w : Place) (key : String) (n : ℕ)
      → distinct m ≡ true
      → lookup key m ≡ some (unsigned n)
      → require lib lib.is_number_integer w (object m) key ≡ []
  require_unsigned w key n d l =
      require_at lib.is_number_integer w key (unsigned n) d l (lib.is_number_integer-unsigned n)

  pub require_double :
      (w : Place) (key : String) (x : D)
      → distinct m ≡ true
      → lookup key m ≡ some (double x)
      → require lib lib.is_number w (object m) key ≡ []
  require_double w key x d l =
      require_at lib.is_number w key (double x) d l (lib.is_number-double x)

  pub require_array :
      (w : Place) (key : String) (js : List Json)
      → distinct m ≡ true
      → lookup key m ≡ some (array js)
      → require lib lib.is_array w (object m) key ≡ []
  require_array w key js d l = require_at lib.is_array w key (array js) d l (lib.is_array-array js)

  pub field_at :
      {T : Type 0} (pred : Json → Bool) (get : Json → Option T) (key : String) (v : Json)
      → distinct m ≡ true
      → lookup key m ≡ some v
      → pred v ≡ true
      → field_of lib pred get key (object m) ≡ get v
  unfolding field_of
  field_at pred get key v d l p = rw (field_of, lib.find-object key m d, l, p) refl

  pub string_field :
      (key : String) (s : String)
      → distinct m ≡ true
      → lookup key m ≡ some (string s)
      → field_of lib lib.is_string lib.get_string key (object m) ≡ some s
  string_field key s d l =
      field_at lib.is_string lib.get_string key (string s) d l (lib.is_string-string s)
      ∙ lib.get_string-string s

  pub int_field :
      (key : String) (z : ℤ)
      → distinct m ≡ true
      → lookup key m ≡ some (integer z)
      → IsInt z
      → field_of lib lib.is_number_integer lib.get_long key (object m) ≡ some z
  int_field key z d l i =
      field_at lib.is_number_integer lib.get_long key (integer z) d l
        (lib.is_number_integer-integer z)
      ∙ lib.get_long-integer z i

  pub double_field :
      (key : String) (x : D)
      → distinct m ≡ true
      → lookup key m ≡ some (double x)
      → field_of lib lib.is_number lib.get_double key (object m) ≡ some x
  double_field key x d l =
      field_at lib.is_number lib.get_double key (double x) d l (lib.is_number-double x)
      ∙ lib.get_double-double x

  pub contains_at :
      (key : String) (o : Option Json)
      → distinct m ≡ true
      → lookup key m ≡ o
      → contains lib key (object m) ≡ (elim o [ none ↦ false | some v ↦ true ])
  unfolding contains
  contains_at key o d l =
      ap (λ k. elim k [ none ↦ false | some v ↦ true ]) (lib.find-object key m d ∙ l)

  -- The two are there, and are compared.
  pub check_order_at :
      (w : Place) (below above : String) (x y : D)
      → distinct m ≡ true
      → lookup below m ≡ some (double x)
      → lookup above m ≡ some (double y)
      → check_order lib w (object m) below above ≡ problem_if (less y x) (wrong_order w below above)
  unfolding check_order num
  check_order_at w below above x y d a b =
      rw
        (
          contains_at below (some (double x)) d a,
          contains_at above (some (double y)) d b,
          num,
          double_field below x d a,
          double_field above y d b,
        )
        refl

  pub check_late_at :
      (w : Place) (late n : ℤ)
      → distinct m ≡ true
      → lookup "late_trials" m ≡ some (integer late)
      → lookup "n" m ≡ some (integer n)
      → IsInt late
      → IsInt n
      → check_late lib w (object m) ≡ (
          if ltb_int late (pos 0)
          then out_of_range w "late_trials" ∷ []
          else problem_if (ltb_int n late) (wrong_order w "late_trials" "n"))
  unfolding check_late
  check_late_at w late n d a b i j =
      rw (check_late, int_field "late_trials" late d a i, int_field "n" n d b j) refl

  pub check_string_at :
      (good : String → Bool) (w : Place) (key s : String)
      → distinct m ≡ true
      → lookup key m ≡ some (string s)
      → check_string lib good w (object m) key ≡ problem_if (not (good s)) (malformed w key)
  unfolding check_string
  check_string_at good w key s d l = rw (check_string, string_field key s d l) refl

  pub check_int_at :
      (bad : ℤ → Bool) (w : Place) (key : String) (z : ℤ)
      → distinct m ≡ true
      → lookup key m ≡ some (integer z)
      → IsInt z
      → check_int lib bad w (object m) key ≡ problem_if (bad z) (out_of_range w key)
  unfolding check_int
  check_int_at bad w key z d l i = rw (check_int, int_field key z d l i) refl

  pub check_double_at :
      (bad : D → Bool) (w : Place) (key : String) (x : D)
      → distinct m ≡ true
      → lookup key m ≡ some (double x)
      → check_double lib bad w (object m) key ≡ problem_if (bad x) (out_of_range w key)
  unfolding check_double
  check_double_at bad w key x d l = rw (check_double, double_field key x d l) refl

  module _ (metric_name : String) (metric : Metric) (d : distinct m ≡ true)
      (at : lookup "metric" m ≡ some (string metric_name))
      (parsed : parse_metric metric_name ≡ some metric) where
    pub metric_of_at : metric_of lib (object m) ≡ some metric
    unfolding metric_of
    metric_of_at = rw (metric_of, string_field "metric" metric_name d at, parsed) refl

    pub check_metric_at : (w : Place) → check_metric lib w (object m) ≡ []
    unfolding check_metric
    check_metric_at w = rw (check_metric, string_field "metric" metric_name d at, parsed) refl

    pub check_name_at :
        {E : Type 0} (parse : String → Option E) (same : E → E → Bool) (expected : Metric → E)
        (w : Place) (key s : String) (e : E)
        → lookup key m ≡ some (string s)
        → parse s ≡ some e
        → check_name lib parse same expected w (object m) key
          ≡ problem_if (not (same e (expected metric))) (mismatch w key)
    unfolding check_name
    check_name_at parse same expected w key s e l p =
        rw (check_name, string_field key s d l, p, metric_of_at) refl
