-- ===== src/Plan/Layout.antt =====
-- Which configuration stands where in the layout of a run.
use benchmark_platform.Prelude.{
  ℕ, zero, suc, ◌+◌, ◌*◌, ◌≡◌, refl, ap, ap₂, ◌∙◌, arith, true, some, List, [], ◌∷◌, ◌++◌, map,
  length, length-append, length-map, get_elem?,
}
use mathlib.Core.Option
use benchmark_platform.Metric.{Workload, Metric, workload_of}
use benchmark_platform.Metric.Tables.{is_implemented, group_of}
use benchmark_platform.Plan.{effective_working_set}
use benchmark_platform.Plan.Specs.{specs_of, specs_of_metric}
use benchmark_platform.Session.{ConfigSpec}

is_implemented_all : (w : Workload) → is_implemented w ≡ true
unfolding is_implemented
is_implemented_all Workload.cpu_int = ground arith
is_implemented_all _ = ground arith

get_elem?-map {ℓ κ} :
    {A : Type ℓ} {B : Type κ} (f : A → B) (xs : List A) (i : ℕ) (x : A)
    → get_elem? xs i ≡ some x
    → get_elem? (map f xs) i ≡ some (f x)
get_elem?-map f [] i x e = absurd (Option.none-ne-some x e)
get_elem?-map f (y ∷ xs) zero x e = ap (λ v. some (f v)) (Option.some-injective y x e)
get_elem?-map f (y ∷ xs) (suc i) x e = get_elem?-map f xs i x e

get_elem?-append_left {ℓ} :
    {A : Type ℓ} (xs ys : List A) (i : ℕ) (x : A)
    → get_elem? xs i ≡ some x
    → get_elem? (xs ++ ys) i ≡ some x
get_elem?-append_left [] ys i x e = absurd (Option.none-ne-some x e)
get_elem?-append_left (y ∷ xs) ys zero x e = e
get_elem?-append_left (y ∷ xs) ys (suc i) x e = get_elem?-append_left xs ys i x e

get_elem?-append_right {ℓ} :
    {A : Type ℓ} (xs ys : List A) (n i : ℕ)
    → length xs ≡ n
    → get_elem? (xs ++ ys) (n + i) ≡ get_elem? ys i
get_elem?-append_right [] ys n i e = ap (get_elem? ys) (omega arith)
get_elem?-append_right (x ∷ xs) ys zero i e = absurd (omega arith)
get_elem?-append_right (x ∷ xs) ys (suc n) i e =
    let s : suc n + i ≡ suc (n + i) = omega arith in
    ap (get_elem? (x ∷ xs ++ ys)) s ∙ get_elem?-append_right xs ys n i (omega arith)

-- The configuration of a metric, a number of threads and a requested working set.
abbrev pub spec_for : Metric → (threads ws : ℕ) → ConfigSpec
spec_for m threads ws = record {
  kind = workload_of m;
  metrics = group_of m;
  threads = threads;
  working_set = effective_working_set (workload_of m) ws;
}

length-specs_of_metric :
    (m : Metric) (ts wss : List ℕ) → length (specs_of_metric m ts wss) ≡ length ts * length wss
unfolding specs_of_metric
length-specs_of_metric m [] wss = grind arith
length-specs_of_metric m (t ∷ ts) wss =
    length-append (map (spec_for m t) wss) (specs_of_metric m ts wss)
    ∙ ap₂ ◌+◌ (length-map wss (spec_for m t)) (length-specs_of_metric m ts wss)
    ∙ grind arith

specs_of_metric-at :
    (m : Metric) (ts wss : List ℕ) (j k t w : ℕ)
    → get_elem? ts j ≡ some t
    → get_elem? wss k ≡ some w
    → get_elem? (specs_of_metric m ts wss) (j * length wss + k) ≡ some (spec_for m t w)
unfolding specs_of_metric
specs_of_metric-at m [] wss j k t w et ew = absurd (Option.none-ne-some t et)
specs_of_metric-at m (t1 ∷ ts) wss zero k t w et ew =
    let z : 0 * length wss + k ≡ k = grind arith in
    ap (get_elem? (specs_of_metric m (t1 ∷ ts) wss)) z
    ∙ get_elem?-append_left (map (spec_for m t1) wss) (specs_of_metric m ts wss) k (spec_for m t1 w)
        (get_elem?-map (spec_for m t1) wss k w ew)
    ∙ ap (λ t. some (spec_for m t w)) (Option.some-injective t1 t et)
specs_of_metric-at m (t1 ∷ ts) wss (suc j) k t w et ew =
    let s : suc j * length wss + k ≡ length wss + (j * length wss + k) = grind arith in
    ap (get_elem? (specs_of_metric m (t1 ∷ ts) wss)) s
    ∙ get_elem?-append_right (map (spec_for m t1) wss) (specs_of_metric m ts wss) (length wss)
        (j * length wss + k) (length-map wss (spec_for m t1))
    ∙ specs_of_metric-at m ts wss j k t w et ew

-- `specs_of`, without the exception that no workload raises.
specs_list : List Metric → List ℕ → List ℕ → List ConfigSpec
specs_list [] ts wss = []
specs_list (m ∷ ms) ts wss = specs_of_metric m ts wss ++ specs_list ms ts wss

specs_of-list :
    (ms : List Metric) (ts wss : List ℕ) → specs_of ms ts wss ≡ some (specs_list ms ts wss)
unfolding specs_of specs_list
specs_of-list [] ts wss = refl
specs_of-list (m ∷ ms) ts wss =
    rw (specs_of, is_implemented_all (workload_of m), specs_of-list ms ts wss) refl

length-specs_list :
    (ms : List Metric) (ts wss : List ℕ)
    → length (specs_list ms ts wss) ≡ length ms * (length ts * length wss)
unfolding specs_list
length-specs_list [] ts wss = grind arith
length-specs_list (m ∷ ms) ts wss =
    length-append (specs_of_metric m ts wss) (specs_list ms ts wss)
    ∙ ap₂ ◌+◌ (length-specs_of_metric m ts wss) (length-specs_list ms ts wss)
    ∙ grind arith

specs_list-at :
    (ms : List Metric) (ts wss : List ℕ) (i j k : ℕ) (m : Metric) (t w : ℕ)
    → get_elem? ms i ≡ some m
    → get_elem? ts j ≡ some t
    → get_elem? wss k ≡ some w
    → get_elem? (specs_list ms ts wss) (i * (length ts * length wss) + (j * length wss + k))
      ≡ some (spec_for m t w)
unfolding specs_list
specs_list-at [] ts wss i j k m t w em et ew = absurd (Option.none-ne-some m em)
specs_list-at (m1 ∷ ms) ts wss zero j k m t w em et ew =
    let n : ℕ = j * length wss + k in
    let z : 0 * (length ts * length wss) + n ≡ n = grind arith in
    ap (get_elem? (specs_list (m1 ∷ ms) ts wss)) z
    ∙ get_elem?-append_left (specs_of_metric m1 ts wss) (specs_list ms ts wss) n (spec_for m1 t w)
        (specs_of_metric-at m1 ts wss j k t w et ew)
    ∙ ap (λ m. some (spec_for m t w)) (Option.some-injective m1 m em)
specs_list-at (m1 ∷ ms) ts wss (suc i) j k m t w em et ew =
    let b : ℕ = length ts * length wss in
    let n : ℕ = j * length wss + k in
    let s : suc i * b + n ≡ b + (i * b + n) = grind arith in
    ap (get_elem? (specs_list (m1 ∷ ms) ts wss)) s
    ∙ get_elem?-append_right (specs_of_metric m1 ts wss) (specs_list ms ts wss) b (i * b + n)
        (length-specs_of_metric m1 ts wss)
    ∙ specs_list-at ms ts wss i j k m t w em et ew

-- With at least one metric, number of threads and working set, the layout of a run does not fail;
-- it has one configuration for each metric, number of threads and working set, in this order,
-- each at its place.
pub specs_of-at :
    (ms : List Metric) (ts wss : List ℕ) (i j k : ℕ) (m : Metric) (t w : ℕ)
    → get_elem? ms i ≡ some m
    → get_elem? ts j ≡ some t
    → get_elem? wss k ≡ some w
    → (specs : List ConfigSpec) × (specs_of ms ts wss ≡ some specs)
      × (length specs ≡ length ms * (length ts * length wss))
      × (get_elem? specs (i * (length ts * length wss) + (j * length wss + k))
          ≡ some (spec_for m t w))
specs_of-at ms ts wss i j k m t w em et ew = (
  specs_list ms ts wss,
  specs_of-list ms ts wss,
  length-specs_list ms ts wss,
  specs_list-at ms ts wss i j k m t w em et ew,
)
