-- ===== src/SysInfo/Machine/Ident.antt =====
-- The id of a machine, as the check of reports wants it.
use benchmark_platform.Prelude.{
  ℕ, zero, suc, ◌≤◌, ◌<◌, ◌≡◌, refl, sym, ap, ◌∙◌, arith, true, Option, none, some, List, [], ◌∷◌,
  take, length, replicate, All, not, append-nil,
}
use mathlib.Core.Option
use benchmark_platform.Prelude.Text.{codes, text_of, codes-text_of}
use benchmark_platform.Prelude.Json.{JsonLib}
use benchmark_platform.Results.{MachineInfo, machine_to_json}
use benchmark_platform.Sha256.{sha256_hex}
use benchmark_platform.Sha256.Hex.{IsHexDigit, unhex-sha256_hex}
use benchmark_platform.SysInfo.{CpuInfo, parse_cpuinfo}
use benchmark_platform.SysInfo.Sizes.{CacheSizes, read_cache_sizes}
use benchmark_platform.SysInfo.Machine.{
  Machine, machine_key, machine_id, describe, describe_if, collect_machine_info,
}
use benchmark_platform.Validate.{Place, check_machine, problem_if, malformed}
use benchmark_platform.Validate.Rows.{check_machine-to_json}
use benchmark_platform.Validate.Patterns.{is_hex, fits, is_machine_id}

is_hex-digit : (c : ℕ) → IsHexDigit c → is_hex c ≡ true
is_hex-digit c h = ground arith

hex_small : (c : ℕ) → IsHexDigit c → c < 55296
hex_small c h = ground arith

fits-take :
    (n : ℕ) (cs : List ℕ)
    → n ≤ length cs
    → All IsHexDigit cs
    → fits (replicate n is_hex) (take n cs) ≡ true
unfolding fits
fits-take zero cs le h = refl
fits-take (suc n) [] le h = absurd (omega arith)
fits-take (suc n) (c ∷ cs) le h = rw (is_hex-digit c h.0) (fits-take n cs (omega arith) h.1)

All-take :
    {P Q : ℕ → Type 0}
    → ((c : ℕ) → P c → Q c)
    → (n : ℕ) (cs : List ℕ) → All P cs
    → All Q (take n cs)
All-take f zero cs h = tt
All-take f (suc n) [] h = tt
All-take f (suc n) (c ∷ cs) h = (f c h.0, All-take f n cs h.1)

machine_id-hex : (m : MachineInfo) → is_machine_id (machine_id m) ≡ true
unfolding machine_id is_machine_id
machine_id-hex m =
    let digest = unhex-sha256_hex (machine_key m) in
    fits-take 32 (sha256_hex (machine_key m)) (omega (arith, digest.0)) digest.1

machine_id-text : (m : MachineInfo) → codes (text_of (machine_id m)) ≡ machine_id m
unfolding machine_id
machine_id-text m =
    codes-text_of (take 32 (sha256_hex (machine_key m)))
      (All-take hex_small 32 (sha256_hex (machine_key m)) (unhex-sha256_hex (machine_key m)).1)

describe-id :
    (sys : Machine) (cpu : CpuInfo) (c : CacheSizes)
    → is_machine_id (codes (describe sys cpu c).id) ≡ true
unfolding describe machine_id
describe-id sys cpu c = ap is_machine_id (machine_id-text _) ∙ machine_id-hex _

describe_if-id :
    (sys : Machine) (cpu : Option CpuInfo) (c : Option CacheSizes) (m : MachineInfo)
    → describe_if sys cpu c ≡ some m
    → is_machine_id (codes m.id) ≡ true
unfolding describe_if
describe_if-id sys (some cpu) (some c) m e =
    ap (λ (k : MachineInfo). is_machine_id (codes k.id)) (sym (Option.some-injective _ m e))
    ∙ describe-id sys cpu c
describe_if-id sys (some cpu) none m e = absurd (Option.none-ne-some m e)
describe_if-id sys none c m e = absurd (Option.none-ne-some m e)

collect_machine_info-id :
    (sys : Machine) (m : MachineInfo)
    → collect_machine_info sys ≡ some m
    → is_machine_id (codes m.id) ≡ true
unfolding collect_machine_info
collect_machine_info-id sys m e =
    describe_if-id sys (parse_cpuinfo sys.cpuinfo) (read_cache_sizes sys.cache_dir) m e

-- Whatever the system answers, the machine that collect_machine_info describes, if it returns,
-- passes the check that validate_run makes of it.
pub check_machine-collected :
    {D : Type 0} (lib : JsonLib D) (sys : Machine) (m : MachineInfo)
    → collect_machine_info sys ≡ some m
    → check_machine lib (machine_to_json lib m) ≡ []
check_machine-collected lib sys m e =
    check_machine-to_json lib m
    ∙ append-nil _
    ∙ ap (λ b. problem_if (not b) (malformed Place.machine "id")) (collect_machine_info-id sys m e)
