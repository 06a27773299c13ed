-- ===== src/Http/Url/Print.antt =====
-- `parse_url`: reading back a URL that is written out.
use benchmark_platform.Prelude.{
  ℕ, ◌+◌, ◌*◌, ◌<◌, ◌≤◌, ◌^◌, ◌≡◌, refl, sym, ap, ◌∙◌, arith, Bool, true, false, none, some, List,
  [], ◌∷◌, ◌++◌, All, All-append, append-nil, lt→ltb, le→leb, length, leb, ltb, ◌==◌, Option-cases,
  inl, inr,
}
use mathlib.Core.Option
use benchmark_platform.Prelude.Decimal.{
  is_digit, digits_from, starts_digit, number, digits_from_lem,
}
use benchmark_platform.Http.Url.{
  Parsed, http, strip_prefix, split_slash, split_colon, has_bracket, strip_last, strip_brackets,
  port_of, with_host, parse_authority, path_or_default, parse_url,
}

abbrev pub Without : (c : ℕ) → List ℕ → Type 0
Without c s = All (λ x. (x == c) ≡ false) s

-- A host that is written as it is, or in brackets (an IPv6 address).
pub data IsHost : (brackets : Bool) → List ℕ → Type 0 where
  plain : (c : ℕ) (cs : List ℕ) → Without 47 (c ∷ cs) → (c == 91) ≡ false → IsHost false (c ∷ cs)
  bracketed : (c : ℕ) (cs : List ℕ) → Without 47 (c ∷ cs) → IsHost true (c ∷ cs)

abbrev pub written_host : Bool → List ℕ → List ℕ
written_host false host = host
written_host true host = 91 ∷ (host ++ 93 ∷ [])

split_slash_at : (s path : List ℕ) → Without 47 s → split_slash (s ++ 47 ∷ path) ≡ (s, 47 ∷ path)
unfolding split_slash
split_slash_at [] path h = refl
split_slash_at (c ∷ s) path h = rw (split_slash, h.0, split_slash_at s path h.1) refl

split_colon-none : (s : List ℕ) → Without 58 s → split_colon s ≡ none
unfolding split_colon
split_colon-none [] h = refl
split_colon-none (c ∷ s) h = rw (split_colon, split_colon-none s h.1, h.0) refl

split_colon_at : (s port : List ℕ) → Without 58 port → split_colon (s ++ 58 ∷ port) ≡ some (s, port)
unfolding split_colon
split_colon_at [] port h = rw (split_colon, split_colon-none port h) refl
split_colon_at (c ∷ s) port h = rw (split_colon, split_colon_at s port h) refl

digits-Without :
    (k : ℕ) (ds : List ℕ) → is_digit k ≡ false → All (λ c. is_digit c ≡ true) ds → Without k ds
digits-Without k [] e h = tt
digits-Without k (c ∷ ds) e h = (ground arith, digits-Without k ds e h.1)

has_no_bracket : (s : List ℕ) → Without 93 s → has_bracket s ≡ false
unfolding has_bracket
has_no_bracket [] h = refl
has_no_bracket (c ∷ s) h = rw (h.0) (has_no_bracket s h.1)

strip_last-some : (s : List ℕ) → strip_last (s ++ 93 ∷ []) ≡ some s
unfolding strip_last
strip_last-some [] = refl
strip_last-some (c ∷ []) = refl
strip_last-some (c ∷ d ∷ s) = rw (strip_last, strip_last-some (d ∷ s)) refl

port_of_whole :
    (s : List ℕ) (v : ℕ)
    → digits_from s 0 ≡ (v, [])
    → starts_digit s ≡ true
    → ltb 0 v ≡ true
    → leb v 65535 ≡ true
    → port_of s ≡ some v
unfolding port_of
port_of_whole s v r e low high =
    let value : (digits_from s 0).0 ≡ v = ap (λ p. p.0) r in
    let rest : (digits_from s 0).1 ≡ [] = ap (λ p. p.1) r in
    rw (port_of, rest, value, e, low, high) refl

port_of_digits :
    (d : ℕ) (ds : List ℕ)
    → All (λ c. is_digit c ≡ true) (d ∷ ds)
    → 0 < number (d ∷ ds)
    → number (d ∷ ds) ≤ 65535
    → port_of (d ∷ ds) ≡ some (number (d ∷ ds))
unfolding port_of
port_of_digits d ds h pos le =
    let v : 0 * 10 ^ length (d ∷ ds) + number (d ∷ ds) ≡ number (d ∷ ds) = grind arith in
    let whole : d ∷ ds ++ [] ≡ d ∷ ds = append-nil (d ∷ ds) in
    let r : digits_from (d ∷ ds) 0 ≡ (number (d ∷ ds), []) =
      ap (λ s. digits_from s 0) (sym whole)
      ∙ digits_from_lem (d ∷ ds) [] 0 h refl
      ∙ ap (λ v. (v, [])) v in
    let low : ltb 0 (number (d ∷ ds)) ≡ true = lt→ltb 0 (number (d ∷ ds)) pos in
    let high : leb (number (d ∷ ds)) 65535 ≡ true = le→leb (number (d ∷ ds)) 65535 le in
    port_of_whole (d ∷ ds) (number (d ∷ ds)) r h.0 low high

Without-written_host :
    (brackets : Bool) (host : List ℕ)
    → IsHost brackets host
    → Without 47 (written_host brackets host)
Without-written_host false _ (IsHost.plain c cs h e) = h
Without-written_host true _ (IsHost.bracketed c cs h) =
    (refl, All-append (λ x. (x == 47) ≡ false) (c ∷ cs) (93 ∷ []) h (refl, tt))

strip_brackets-written_host :
    (brackets : Bool) (host : List ℕ)
    → IsHost brackets host
    → strip_brackets (written_host brackets host) ≡ host
unfolding strip_brackets
strip_brackets-written_host false _ (IsHost.plain c cs h e) = elim (Option-cases (strip_last cs)) [
  | inl n ↦ rw (strip_brackets, n) refl
  | inr (inner, i) ↦ rw (strip_brackets, i, e) refl
]
strip_brackets-written_host true _ (IsHost.bracketed c cs h) =
    rw (strip_brackets, strip_last-some (c ∷ cs)) refl

with_host-written_host :
    (brackets : Bool) (host : List ℕ) (port : ℕ) (path : List ℕ)
    → IsHost brackets host
    → with_host (written_host brackets host) port path
      ≡ Parsed.parsed (record { host = host; port = port; path = path })
unfolding with_host
with_host-written_host false _ port path (IsHost.plain c cs h e) =
    rw (with_host, strip_brackets-written_host false (c ∷ cs) (IsHost.plain c cs h e)) refl
with_host-written_host true _ port path (IsHost.bracketed c cs h) =
    rw (with_host, strip_brackets-written_host true (c ∷ cs) (IsHost.bracketed c cs h)) refl

parse_authority-cons :
    (authority port_str host path : List ℕ) (port : ℕ)
    → split_colon authority ≡ some (host, port_str)
    → has_bracket port_str ≡ false
    → port_of port_str ≡ some port
    → parse_authority authority path ≡ with_host host port path
unfolding parse_authority split_colon
parse_authority-cons [] port_str host path port e b p = absurd (Option.none-ne-some _ e)
parse_authority-cons (c ∷ cs) port_str host path port e b p = rw (parse_authority, e, b, p) refl

-- A URL of a host, the digits of a port and a path.
abbrev pub written_url : (brackets : Bool) (host digits path : List ℕ) → List ℕ
written_url brackets host digits path =
    http ++ ((written_host brackets host ++ 58 ∷ digits) ++ 47 ∷ path)

-- The URL written from a host, the decimal digits of a port from 1 to 65535 and a path is read
-- back as that host, port and path, for a host that is not empty, has no slash, and, unless it is
-- written in brackets, does not begin with an opening one.
pub parse_url-written :
    (brackets : Bool) (host : List ℕ) (d : ℕ) (ds path : List ℕ)
    → IsHost brackets host
    → All (λ c. is_digit c ≡ true) (d ∷ ds)
    → 0 < number (d ∷ ds)
    → number (d ∷ ds) ≤ 65535
    → parse_url (written_url brackets host (d ∷ ds) path)
      ≡ Parsed.parsed (record { host = host; port = number (d ∷ ds); path = 47 ∷ path })
unfolding parse_url strip_prefix
parse_url-written brackets host d ds path ok h pos le =
    let authority : List ℕ = written_host brackets host ++ 58 ∷ d ∷ ds in
    let slashless : Without 47 authority =
      All-append (λ x. (x == 47) ≡ false) (written_host brackets host) (58 ∷ d ∷ ds)
        (Without-written_host brackets host ok) (refl, digits-Without 47 (d ∷ ds) refl h) in
    let parts : split_slash (authority ++ 47 ∷ path) ≡ (authority, 47 ∷ path) =
      split_slash_at authority path slashless in
    ap (λ p. parse_authority p.0 (path_or_default p.1)) parts
    ∙ parse_authority-cons authority (d ∷ ds) (written_host brackets host) (47 ∷ path)
        (number (d ∷ ds))
        (split_colon_at (written_host brackets host) (d ∷ ds) (digits-Without 58 (d ∷ ds) refl h))
        (has_no_bracket (d ∷ ds) (digits-Without 93 (d ∷ ds) refl h)) (port_of_digits d ds h pos le)
    ∙ with_host-written_host brackets host (number (d ∷ ds)) (47 ∷ path) ok
