-- ===== src/Tests/Lookups.antt =====
-- Trap sites, and the validator of imports and exports.
use lucet.Prelude.{
  ℕ, zero, suc, get_elem?, subst, ◌≡◌, ◌↔◌, refl, arith, true, false, none, some, List, [], ◌∷◌,
  ◌==◌, ok, if◌then◌else◌, ==_iff,
}
use text.Mathlib.Text.{◌==◌ as str_eq}
use lucet.Runtime.Error.{heap_out_of_bounds, unreachable}
use lucet.LucetModule.Traps.{
  TrapSite, IsSorted, Memory, FunctionSpec, lookup_trapcode, lookup_addr, relative_addr, traps,
  contains,
}
use lucet.LucetModule.Traps.Sites.{TrapsAt, lookup_trapcode-TrapsAt, IsManifest}
use lucet.Lucetc.Wasm.{WasmType, WasmFuncType}
use lucet.Lucetc.ModuleInfo.{find_index}
use lucet.Lucetc.ModuleInfo.Entries.{find_index_found, find_index_absent}
use lucet.Lucetc.Validate.{
  AtomType, Witx, Validator, build, command, report, no_params_no_returns, import_type,
  witx_to_functype,
}
use lucet.Lucetc.Validate.Registered.{
  Registration, imported, exported, AllDeclared, register_all, IsSingle,
}
use lucet.Lucetc.Validate.Accepted.{ModeMet, register_all-report}

abbrev two_sites : List TrapSite
two_sites =
    record { offset = 4; code = heap_out_of_bounds }
    ∷ record { offset = 9; code = unreachable }
    ∷ []

two-IsSorted : IsSorted two_sites
two-IsSorted zero zero a b h k lt = absurd (omega arith)
two-IsSorted zero (suc zero) a b h k lt = ground arith
two-IsSorted zero (suc (suc j)) a b h k lt = absurd (ground arith)
two-IsSorted (suc zero) zero a b h k lt = absurd (omega arith)
two-IsSorted (suc zero) (suc zero) a b h k lt = absurd (omega arith)
two-IsSorted (suc zero) (suc (suc j)) a b h k lt = absurd (ground arith)
two-IsSorted (suc (suc i)) j a b h k lt = absurd (ground arith)

not_there :
    (sites : List TrapSite) (addr i : ℕ) (s : TrapSite)
    → find_index (λ (t : TrapSite). t.offset == addr) sites ≡ none
    → get_elem? sites i ≡ some s
    → ¬ (s.offset ≡ addr)
not_there sites addr i s h at e =
    let differs = find_index_absent (λ (t : TrapSite). t.offset == addr) sites h i s at in
    ground (arith, differs, e)

-- A search from the front instead of the binary one.
abbrev searching : Memory
searching = record {
  binary_search = λ sites addr. find_index (λ (s : TrapSite). s.offset == addr) sites;
  found = λ sites addr i sorted h.
      let (s, at, e) = find_index_found (λ (s : TrapSite). s.offset == addr) sites i h in
      (s, at, (==_iff s.offset addr).0 e);
  absent = λ sites addr i s sorted. not_there sites addr i s;
  slice = λ addr len. if addr == 64 then two_sites else [];
}

abbrev two_functions : List FunctionSpec
two_functions =
    record { code_addr = 4096; code_len = 16; traps_addr = 0; traps_len = 0 }
    ∷ record { code_addr = 4112; code_len = 32; traps_addr = 64; traps_len = 2 }
    ∷ []

two-IsManifest : IsManifest searching two_functions
unfolding traps contains
two-IsManifest = (
  omega arith,
  λ sites h. absurd (ground arith),
  λ i rip g at inside. second i rip g at inside,
  (
    omega arith,
    λ sites h. let same : two_sites ≡ sites = ground arith in subst IsSorted same two-IsSorted,
    λ i rip g at. absurd (ground arith),
    tt,
  ),
)
  where
    second :
        (i rip : ℕ) (g : FunctionSpec)
        → get_elem?
            (record { code_addr = 4112; code_len = 32; traps_addr = 64; traps_len = 2 } ∷ [])
            i
          ≡ some g
        → contains (record { code_addr = 4096; code_len = 16; traps_addr = 0; traps_len = 0 }) rip
          ≡ true
        → contains g rip ≡ false
    second zero rip g at inside = ground arith
    second (suc i) rip g at inside = absurd (ground arith)

trap_example :
    (lookup_trapcode searching two_functions 4121 ≡ some unreachable)
    ↔ TrapsAt searching two_functions 4121 unreachable
trap_example = lookup_trapcode-TrapsAt searching two_functions 4121 unreachable two-IsManifest

trap_found : lookup_trapcode searching two_functions 4121 ≡ some unreachable
unfolding lookup_trapcode lookup_addr relative_addr traps
trap_found = refl

-- A document with one module of one function.
abbrev exits : Witx
exits = record {
  Document = Unit {0};
  WitxModule = Unit {0};
  module_ = λ doc name. if str_eq name "wasi" then some tt else none;
  func = λ m field. if str_eq field "exit" then some (AtomType.i32 ∷ [], []) else none;
}

abbrev exit_type : WasmFuncType
exit_type = record { params = WasmType.i32 ∷ []; returns = [] }

abbrev registered : List Registration
registered = imported "wasi" "exit" exit_type ∷ exported "_start" no_params_no_returns ∷ []

exits-IsSingle : IsSingle exits
exits-IsSingle m f ps rs h = ground arith

validator_example :
    (v : Validator exits) × (register_all exits registered (build exits (tt ∷ []) (some command))
      ≡ ok v)
    × ((report exits v ≡ ok tt)
        ↔ (AllDeclared exits (tt ∷ []) registered × ModeMet (some command) registered))
validator_example = register_all-report exits exits-IsSingle (tt ∷ []) (some command) registered

declared : AllDeclared exits (tt ∷ []) registered × ModeMet (some command) registered
unfolding import_type witx_to_functype
declared = ((refl, tt), refl)
