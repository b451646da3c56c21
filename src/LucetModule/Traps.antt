-- ===== src/LucetModule/Traps.antt =====
-- lucet-module/src/traps.rs and the function specs of functions.rs.
pub mod Sites
use lucet.Prelude.{
  ℕ, zero, suc, ◌+◌, ◌-◌, ◌≤◌, ◌<◌, ◌≡◌, ◌&&◌, Bool, true, false, Option, none, some, List, [], ◌∷◌,
  ltb, leb, ◌==◌, get_elem?, as_u32, if◌then◌else◌,
}
use lucet.Runtime.Error.{TrapCode}

pub record TrapSite : Type 0 where
  pub offset : ℕ
  pub code : TrapCode

abbrev pub IsSorted : List TrapSite → Type 0
IsSorted traps =
    (i j : ℕ) (a b : TrapSite)
    → get_elem? traps i ≡ some a
    → get_elem? traps j ≡ some b
    → i < j
    → a.offset < b.offset

-- What the code takes from the standard library and from the loaded object: the binary search of a
-- slice, with its documented behaviour on a sorted slice, and the slice of trap sites at an address.
pub record Memory : Type 0 where
  pub binary_search : List TrapSite → ℕ → Option ℕ
  pub found :
      (traps : List TrapSite) (addr i : ℕ)
      → IsSorted traps
      → binary_search traps addr ≡ some i
      → (ts : TrapSite) × (get_elem? traps i ≡ some ts) × (ts.offset ≡ addr)
  pub absent :
      (traps : List TrapSite) (addr i : ℕ) (ts : TrapSite)
      → IsSorted traps
      → binary_search traps addr ≡ none
      → get_elem? traps i ≡ some ts
      → ¬ (ts.offset ≡ addr)
  pub slice : ℕ → ℕ → List TrapSite

-- Addresses and lengths as the linker wrote them.
pub record FunctionSpec : Type 0 where
  pub code_addr : ℕ
  pub code_len : ℕ
  pub traps_addr : ℕ
  pub traps_len : ℕ

unfoldable pub contains : FunctionSpec → ℕ → Bool
contains f addr = leb f.code_addr addr && ltb (addr - f.code_addr) f.code_len

unfoldable pub relative_addr : FunctionSpec → ℕ → Option ℕ
relative_addr f addr =
    if leb f.code_addr addr
    then if ltb (addr - f.code_addr) f.code_len then some (as_u32 (addr - f.code_addr)) else none
    else none

module _ (m : Memory) where
  abbrev code_at : List TrapSite → Option ℕ → Option TrapCode
  code_at traps none = none
  code_at traps (some i) = elim (get_elem? traps i) [ none ↦ none | some ts ↦ some ts.code ]

  unfoldable pub lookup_addr : List TrapSite → ℕ → Option TrapCode
  lookup_addr traps addr = code_at traps (m.binary_search traps addr)

  unfoldable pub traps : FunctionSpec → Option (List TrapSite)
  traps f = if f.traps_addr == 0 then none else some (m.slice f.traps_addr f.traps_len)

  abbrev trap_in : Option (List TrapSite) → ℕ → Option TrapCode
  trap_in none offset = none
  trap_in (some sites) offset = lookup_addr sites offset

  -- `Module::lookup_trapcode` of lucet-runtime-internals/src/module.rs.
  unfoldable pub lookup_trapcode : List FunctionSpec → ℕ → Option TrapCode
  unfolding traps
  lookup_trapcode [] rip = none
  lookup_trapcode (fn_spec ∷ manifest) rip =
      let rest = lookup_trapcode manifest rip in
      elim (relative_addr fn_spec rip) [
        | none ↦ rest
        | some offset ↦ trap_in (traps fn_spec) offset
      ]
