-- ===== src/Lucetc/Decls/Variables.antt =====
-- The globals that the compiler writes, against those that the module declares.
use lucet.Prelude.{
  ℕ, zero, suc, ◌+◌, ◌≡◌, refl, arith, Option, some, List, [], ◌∷◌, String, length, get_elem?, ok,
  ok-cases, Option-cases, subst, inl, inr,
}
use lucet.LucetModule.Globals.{GlobalSpec, Global, def, i32, i64, f32, f64}
use lucet.LucetModule.Globals
use lucet.Lucetc.Wasm.{
  Clif, Exportable, GlobalInit, i32_const, i64_const, f32_const, f64_const, v128_const, get_global,
  ref_func, ref_null_const, import,
}
use lucet.Lucetc.ModuleInfo.{ModuleInfo}
use lucet.Lucetc.Decls.{import_of, import_ref, global_of, globals_from, build_globals_spec}

module _ (c : Clif) (info : ModuleInfo c) where
  -- The global is the import with this index.
  abbrev pub IsImportAt : ℕ → Global → Type 0
  IsImportAt k g =
      (m : String) × (field : String) × (get_elem? info.imported_globals k ≡ some (m, field))
      × (g ≡ Globals.import m field)

  -- What a declared global with this index is to the runtime: its constant, or an import, its own or
  -- the one that it refers to.
  abbrev pub Describes : GlobalInit → ℕ → Global → Type 0
  Describes (i32_const i) ix g = g ≡ def (i32 i)
  Describes (i64_const i) ix g = g ≡ def (i64 i)
  Describes (f32_const f) ix g = g ≡ def (f32 f)
  Describes (f64_const f) ix g = g ≡ def (f64 f)
  Describes (get_global k) ix g =
      IsImportAt k g
      × ((e : Exportable GlobalInit) × (get_elem? info.globals k ≡ some e) × (e.entity ≡ import))
  Describes import ix g = IsImportAt ix g
  Describes (v128_const v) ix g = ⊥
  Describes ref_null_const ix g = ⊥
  Describes (ref_func f) ix g = ⊥

  import_of-IsImportAt :
      (k : ℕ) (g : Global)
      → import_of c (get_elem? info.imported_globals k) k ≡ ok g
      → IsImportAt k g
  import_of-IsImportAt k g h = elim (Option-cases (get_elem? info.imported_globals k)) [
    | inl e ↦ absurd (ground (arith, e, h))
    | inr ((m, field), e) ↦ (m, field, e, ground (arith, e, h))
  ]

  import_ref-import :
      (init : GlobalInit) (k ix : ℕ) (g : Global)
      → import_ref c init k ix info ≡ ok g
      → (init ≡ import) × (import_of c (get_elem? info.imported_globals k) k ≡ ok g)
  import_ref-import import k ix g h = (refl, h)
  import_ref-import (i32_const i) k ix g h = absurd (ground arith)
  import_ref-import (i64_const i) k ix g h = absurd (ground arith)
  import_ref-import (f32_const i) k ix g h = absurd (ground arith)
  import_ref-import (f64_const i) k ix g h = absurd (ground arith)
  import_ref-import (v128_const i) k ix g h = absurd (ground arith)
  import_ref-import (get_global i) k ix g h = absurd (ground arith)
  import_ref-import (ref_func i) k ix g h = absurd (ground arith)
  import_ref-import ref_null_const k ix g h = absurd (ground arith)

  global_of-Describes :
      (init : GlobalInit) (ix : ℕ) (g : Global)
      → global_of c init ix info ≡ ok g
      → Describes init ix g
  unfolding global_of
  global_of-Describes (i32_const i) ix g h = ground arith
  global_of-Describes (i64_const i) ix g h = ground arith
  global_of-Describes (f32_const i) ix g h = ground arith
  global_of-Describes (f64_const i) ix g h = ground arith
  global_of-Describes import ix g h = import_of-IsImportAt ix g h
  global_of-Describes (v128_const i) ix g h = absurd (ground arith)
  global_of-Describes ref_null_const ix g h = absurd (ground arith)
  global_of-Describes (ref_func i) ix g h = absurd (ground arith)
  global_of-Describes (get_global k) ix g h = elim (Option-cases (get_elem? info.globals k)) [
    | inl e ↦ absurd (ground (arith, e, h))
    | inr (decl, e) ↦
        let (is_import, named) = import_ref-import decl.entity k ix g (ground (arith, e, h)) in
        (import_of-IsImportAt k g named, (decl, e, is_import))
  ]

  -- Every declared global has its specification at its index.
  abbrev pub Specified : ℕ → List (Exportable GlobalInit) → List GlobalSpec → Type 0
  Specified ix globals specs =
      (j : ℕ) (e : Exportable GlobalInit)
      → get_elem? globals j ≡ some e
      → (spec : GlobalSpec) × (get_elem? specs j ≡ some spec)
        × (spec.export_names ≡ e.export_names)
        × Describes e.entity (ix + j) spec.global

  globals_from-Specified :
      (ix : ℕ) (globals : List (Exportable GlobalInit)) (specs : List GlobalSpec)
      → globals_from c ix globals info ≡ ok specs
      → (length specs ≡ length globals) × Specified ix globals specs
  unfolding globals_from
  globals_from-Specified ix [] specs h = (ground arith, λ j e at. cc)
  globals_from-Specified ix (g ∷ globals) specs h = elim (ok-cases (global_of c g.entity ix info)) [
    | inr bad ↦ absurd (ground (arith, bad, h))
    | inl (global, e) ↦ elim (ok-cases (globals_from c (ix + 1) globals info)) [
      | inr bad ↦ absurd (ground (arith, e, bad, h))
      | inl (rest, e') ↦
          let spec : GlobalSpec = record { global = global; export_names = g.export_names } in
          let (size, more) = globals_from-Specified (ix + 1) globals rest e' in
          let all : specs ≡ spec ∷ rest = ground (arith, e, e', h) in
          rw all (
            omega (arith, size),
            first_or_rest ix g globals spec rest refl (global_of-Describes g.entity ix global e)
                more,
          )
    ]
  ]
    where
      first_or_rest :
          (ix : ℕ) (g : Exportable GlobalInit) (globals : List (Exportable GlobalInit))
          (spec : GlobalSpec) (rest : List GlobalSpec)
          → spec.export_names ≡ g.export_names
          → Describes g.entity ix spec.global
          → Specified (ix + 1) globals rest
          → Specified ix (g ∷ globals) (spec ∷ rest)
      first_or_rest ix g globals spec rest names this more zero e at =
          let same : g ≡ e = ground arith in
          let ix' : ix ≡ ix + 0 = omega arith in
          subst
            (λ x.
              (s : GlobalSpec) × (◌≡◌ {A = Option GlobalSpec} (some spec) (some s))
              × (s.export_names ≡ x.export_names)
              × Describes x.entity (ix + 0) s.global)
            same (spec, refl, names, subst (λ i. Describes g.entity i spec.global) ix' this)
      first_or_rest ix g globals spec rest names this more (suc j) e at =
          let (s, found, same, describes) = more j e at in
          let ix' : ix + 1 + j ≡ ix + suc j = omega arith in
          (s, found, same, subst (λ i. Describes e.entity i s.global) ix' describes)

  -- Where the specification of the globals is built, it has one entry for each declared global, in
  -- order and with its export names: its constant, or the import that it is or refers to.
  build_globals_spec-Specified :
      (specs : List GlobalSpec)
      → build_globals_spec c info ≡ ok specs
      → (length specs ≡ length info.globals) × Specified 0 info.globals specs
  unfolding build_globals_spec
  build_globals_spec-Specified specs h = globals_from-Specified 0 info.globals specs h
