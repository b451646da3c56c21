-- ===== src/Lucetc/ModuleInfo/Kept.antt =====
-- Every declaration that the reader may make, against the invariant of the module.
use lucet.Prelude.{
  ℕ, suc, ◌<◌, ◌≡◌, ◌≢◌, ◌⊎◌, arith, refl, true, false, not, ◌&&◌, Option, List, [], ◌∷◌, ◌++◌,
  ◌==◌, ltb, length, is_none, ok, err, length-append, inl, inr, Option-cases,
}
use lucet.Lucetc.Error.{translation}
use lucet.Lucetc.SparseData.{DataInitializer}
use lucet.Lucetc.Wasm.{
  Clif, IrSignature, WasmFuncType, ValidatorOps, Table, Memory, GlobalInit, Exportable, TableElems,
}
use lucet.Lucetc.Wasm
use lucet.Lucetc.ModuleInfo.{
  ModuleInfo, ModuleValidation, signature_by_id, signature_for_function, find_index, same_name,
  insert, uniquified, add_table_elems,
}
use lucet.Lucetc.ModuleInfo
use lucet.Lucetc.ModuleInfo.Entries.{AllHold, get_elem?_within, length-set}
use lucet.Lucetc.ModuleInfo.Declarations.{
  Declaration, declare, Allowed, type_func, func_import, global_import, table_import, memory_import,
  func_type, table, memory, global, func_export, table_export, memory_export, global_export,
  func_name, start_func, function_body, table_elements, data_initialization,
}
use lucet.Lucetc.ModuleInfo.Valid.{
  SameIff, IsValid, declare_type_func-IsValid, declare_func_type-IsValid, export_at_total,
}
use lucet.Lucetc.ModuleInfo.Outcomes.{
  Kept, IsUndeclared, Outcome, func_import-Outcome, func_export-Outcome,
}

module _ (c : Clif) (w : ValidatorOps) where
  memory_kept :
      (mem : Memory) (info : ModuleInfo c)
      → IsValid c info
      → (k : ℕ)
      → is_none (insert (length info.memories) [] info.data_initializers k)
        ≡ not (ltb k (length (info.memories ++ Wasm.new mem ∷ [])))
  memory_kept mem info valid k =
      ground (arith, length-append info.memories (Wasm.new mem ∷ []), valid.inits k)

  uniquified_total :
      (elements : List ℕ) (info : ModuleInfo c)
      → AllHold (λ i. i < length info.function_mapping) elements
      → (out : List ℕ) × (uniquified c w elements info ≡ ok out)
  unfolding uniquified
  uniquified_total [] info all = ([], refl)
  uniquified_total (i ∷ elements) info all =
      let (k, at) = get_elem?_within info.function_mapping i (all 0 i refl) in
      let (out, rest) = uniquified_total elements info (λ j. all (suc j)) in
      (k ∷ out, ground (arith, at, rest))

  undeclared_cases :
      (t : ℕ) (tables : List (Exportable Table))
      → ((tables ≡ []) × (t ≡ 0)) ⊎ ((tables ≢ []) ⊎ (t ≢ 0))
  undeclared_cases t tables = ground arith

  elements-Kept :
      (t : ℕ) (base : Option ℕ) (offset : ℕ) (elements : List ℕ) (v : ModuleValidation c w)
      → IsValid c v.info
      → AllHold (λ i. i < length v.info.function_mapping) elements
      → let d = table_elements t base offset elements in
        (Kept c w (declare c w d v) × (¬ IsUndeclared c w d v.info))
        ⊎ (IsUndeclared c w d v.info × (declare c w d v ≡ err translation))
  unfolding declare ModuleInfo.declare_table_elements add_table_elems
  elements-Kept t base offset elements v valid all =
      let (out, unique) = uniquified_total elements v.info all in
      elim (Option-cases (v.info.table_elems t)) [
        | inr (occ, found) ↦ inl (
          rw (unique, found)
              (
                _,
                refl,
                record {
                  code = valid.code;
                  inits = valid.inits;
                  elems = λ k h. ground (arith, valid.elems k, valid.elems t);
                },
              ),
          λ u. ground arith,
        )
        | inl missing ↦ elim (undeclared_cases t v.info.tables) [
          | inl (empty, first) ↦
              let implicit : (ModuleInfo.is_empty c w v.info.tables && t == 0) ≡ true =
                ground arith in
              inl (
                rw (unique, missing, implicit)
                    (
                      _,
                      refl,
                      record {
                        code = valid.code;
                        inits = valid.inits;
                        elems = λ k h. ground (
                          arith,
                          valid.elems k,
                          length-append v.info.tables
                              (Wasm.new (ModuleInfo.implicit_table c w) ∷ []),
                        );
                      },
                    ),
                λ u. ground arith,
              )
          | inr other ↦ inr ((missing, other), rw (unique, missing) (ground arith))
        ]
      ]

  table_kept :
      (t : Table) (info : ModuleInfo c)
      → IsValid c info
      → (k : ℕ) → is_none (insert (length info.tables) [] info.table_elems k) ≡ false
      → k < length (info.tables ++ Wasm.new t ∷ [])
  table_kept t info valid k h =
      ground (arith, length-append info.tables (Wasm.new t ∷ []), valid.elems k)

  data-Kept :
      (m : ℕ) (di : DataInitializer) (v : ModuleValidation c w)
      → IsValid c v.info
      → m < length v.info.memories
      → Kept c w (ModuleInfo.declare_data_initialization c w m di v)
  unfolding ModuleInfo.declare_data_initialization
  data-Kept m di v valid may = elim (Option-cases (v.info.data_initializers m)) [
    | inl missing ↦ absurd (ground (arith, valid.inits m))
    | inr (occ, found) ↦ rw found (
      _,
      refl,
      record { code = valid.code; inits = λ k. ground (arith, valid.inits k); elems = valid.elems },
    )
  ]

  -- Where equal signatures are the same to Cranelift, each operation that a valid module allows
  -- is made and leaves a valid module, but in two cases: it fails exactly for elements of a table
  -- that is not declared, and it panics exactly for an import or an export of a function where the
  -- validator, if there is one, panics on it with the type of the function.
  pub declare-IsValid :
      (same : SameIff c) (d : Declaration c) (v : ModuleValidation c w)
      → IsValid c v.info
      → Allowed c w d v.info
      → Outcome c w d v (declare c w d v)
  unfolding declare ModuleInfo.declare_global_import ModuleInfo.declare_table_import
      ModuleInfo.declare_memory_import ModuleInfo.declare_table ModuleInfo.declare_memory
      ModuleInfo.declare_global ModuleInfo.declare_table_export ModuleInfo.declare_memory_export
      ModuleInfo.declare_global_export ModuleInfo.declare_func_name ModuleInfo.declare_start_func
      ModuleInfo.define_function_body
  declare-IsValid same (type_func ft sig) v valid may =
      inl ((_, refl, declare_type_func-IsValid c same ft sig v.info valid may), λ u. u, λ u. u)
  declare-IsValid same (func_import sig m f) v valid may =
      func_import-Outcome c w sig m f v valid may
  declare-IsValid same (global_import g m f) v valid (field, named) = inl (
    rw named (_, refl, record { code = valid.code; inits = valid.inits; elems = valid.elems }),
    λ u. u,
    λ u. u,
  )
  declare-IsValid same (table_import t m f) v valid (field, named) = inl (
    rw named (
      _,
      refl,
      record {
        code = valid.code;
        inits = valid.inits;
        elems =
            λ k h. omega (arith, valid.elems k h, length-append v.info.tables (Wasm.new t ∷ []));
      },
    ),
    λ u. u,
    λ u. u,
  )
  declare-IsValid same (memory_import mem m f) v valid (field, named) = inl (
    rw named (
      _,
      refl,
      record { code = valid.code; inits = memory_kept mem v.info valid; elems = valid.elems },
    ),
    λ u. u,
    λ u. u,
  )
  declare-IsValid same (func_type sig) v valid may =
      inl ((_, refl, declare_func_type-IsValid c sig v.info valid may.0 may.1), λ u. u, λ u. u)
  declare-IsValid same (table t) v valid may = inl (
    (_, refl, record { code = valid.code; inits = valid.inits; elems = table_kept t v.info valid }),
    λ u. u,
    λ u. u,
  )
  declare-IsValid same (memory mem) v valid may = inl (
    (
      _,
      refl,
      record { code = valid.code; inits = memory_kept mem v.info valid; elems = valid.elems },
    ),
    λ u. u,
    λ u. u,
  )
  declare-IsValid same (global g) v valid may = inl (
    (_, refl, record { code = valid.code; inits = valid.inits; elems = valid.elems }),
    λ u. u,
    λ u. u,
  )
  declare-IsValid same (func_export i name) v valid may = func_export-Outcome c w i name v valid may
  declare-IsValid same (table_export i name) v valid may =
      let (e, at, done) = export_at_total c i name v.info.tables may in
      inl (
        rw done (
          _,
          refl,
          record {
            code = valid.code;
            inits = valid.inits;
            elems = λ k h.
                omega
                  (arith, valid.elems k h, length-set v.info.tables i (Wasm.push_export name e));
          },
        ),
        λ u. u,
        λ u. u,
      )
  declare-IsValid same (memory_export i name) v valid may =
      let (e, at, done) = export_at_total c i name v.info.memories may in
      inl (
        rw done (
          _,
          refl,
          record {
            code = valid.code;
            inits =
                λ k. rw (length-set v.info.memories i (Wasm.push_export name e)) (valid.inits k);
            elems = valid.elems;
          },
        ),
        λ u. u,
        λ u. u,
      )
  declare-IsValid same (global_export i name) v valid may =
      let (e, at, done) = export_at_total c i name v.info.globals may in
      inl (
        rw done (_, refl, record { code = valid.code; inits = valid.inits; elems = valid.elems }),
        λ u. u,
        λ u. u,
      )
  declare-IsValid same (func_name i name) v valid may =
      let (k, at) = get_elem?_within v.info.function_mapping i may in
      inl (
        rw at (_, refl, record { code = valid.code; inits = valid.inits; elems = valid.elems }),
        λ u. u,
        λ u. u,
      )
  declare-IsValid same (start_func i) v valid may =
      let (k, at) = get_elem?_within v.info.function_mapping i may in
      inl (
        rw at (_, refl, record { code = valid.code; inits = valid.inits; elems = valid.elems }),
        λ u. u,
        λ u. u,
      )
  declare-IsValid same (function_body body) v valid may = inl ((_, refl, valid), λ u. u, λ u. u)
  declare-IsValid same (table_elements t base offset elements) v valid may =
      elim (elements-Kept t base offset elements v valid may) [
        | inl (kept, undeclared) ↦ inl (kept, undeclared, λ u. u)
        | inr failed ↦ inr (inl failed)
      ]
  declare-IsValid same (data_initialization m di) v valid may =
      inl (data-Kept m di v valid may, λ u. u, λ u. u)
