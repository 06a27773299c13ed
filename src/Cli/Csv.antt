-- ===== src/Cli/Csv.antt =====
-- `split_csv`: reading back what is joined with commas.
use benchmark_platform.Prelude.{
  ℕ, ◌≡◌, refl, sym, ap, ◌∙◌, arith, false, List, [], ◌∷◌, ◌++◌, All, append_assoc, append-nil,
  ◌==◌, length, ◌<◌,
}
use benchmark_platform.Cli.{push_part, split_from, split_csv}

-- No comma and no space.
abbrev pub Plain : List ℕ → Type 0
Plain s = All (λ c. ((c == 44) ≡ false) × ((c == 32) ≡ false)) s

-- A part that is not empty.
abbrev pub IsPart : List ℕ → Type 0
IsPart s = (0 < length s) × Plain s

abbrev pub join : List (List ℕ) → List ℕ
join [] = []
join (p ∷ []) = p
join (p ∷ q ∷ ps) = p ++ (44 ∷ join (q ∷ ps))

split_from-Plain :
    (s more cur : List ℕ) (out : List (List ℕ))
    → Plain s
    → split_from (s ++ more) cur out ≡ split_from more (cur ++ s) out
unfolding split_from
split_from-Plain [] more cur out h = ap (λ k. split_from more k out) (sym (append-nil cur))
split_from-Plain (c ∷ s) more cur out h =
    let e : split_from (c ∷ s ++ more) cur out ≡ split_from (s ++ more) (cur ++ c ∷ []) out =
      rw (split_from, h.0.0, h.0.1) refl in
    e
    ∙ split_from-Plain s more (cur ++ c ∷ []) out h.1
    ∙ ap (λ k. split_from more k out) (append_assoc cur (c ∷ []) s)

push_part_kept : (p : List ℕ) (out : List (List ℕ)) → 0 < length p → push_part p out ≡ out ++ p ∷ []
push_part_kept [] out h = absurd (omega arith)
push_part_kept (c ∷ p) out h = refl

split_from-join :
    (ps : List (List ℕ)) (out : List (List ℕ))
    → All IsPart ps
    → split_from (join ps) [] out ≡ out ++ ps
unfolding split_from
split_from-join [] out h = sym (append-nil out)
split_from-join (p ∷ []) out h =
    ap (λ s. split_from s [] out) (sym (append-nil p))
    ∙ split_from-Plain p [] [] out h.0.1
    ∙ push_part_kept p out h.0.0
split_from-join (p ∷ q ∷ ps) out h =
    split_from-Plain p (44 ∷ join (q ∷ ps)) [] out h.0.1
    ∙ ap (split_from (join (q ∷ ps)) []) (push_part_kept p out h.0.0)
    ∙ split_from-join (q ∷ ps) (out ++ p ∷ []) h.1
    ∙ append_assoc out (p ∷ []) (q ∷ ps)

-- The parts of a list joined by commas are what split_csv gives back, for parts that are not
-- empty and have no comma and no space.
pub split_csv-join : (ps : List (List ℕ)) → All IsPart ps → split_csv (join ps) ≡ ps
unfolding split_csv
split_csv-join ps h = split_from-join ps [] h
