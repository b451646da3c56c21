-- ===== src/Lucetc/ModuleInfo/Outcomes.antt =====
-- What an operation of the collected module comes to, and the functions that are imported and
-- exported.
use lucet.Prelude.{
  ℕ, ◌+◌, ◌<◌, ◌≡◌, ◌≢◌, ◌⊎◌, arith, refl, Option, none, some, [], ◌∷◌, ◌++◌, String, length, set,
  u32_mod, as_u32, sub_u32, Result, ok, err, ◌>>=◌, length-append, inl, inr, panic, sym, ap, ◌∙◌,
  get_elem?, Option-cases,
}
use lucet.Lucetc.Error.{Error, translation}
use lucet.Lucetc.Wasm.{
  Clif, IrSignature, WasmFuncType, ValidatorOps, Table, Memory, GlobalInit, Exportable, TableElems,
}
use lucet.Lucetc.Wasm
use lucet.Lucetc.ModuleInfo.{
  ModuleInfo, ModuleValidation, signature_by_id, signature_for_function, find_index, same_name,
  insert, uniquified, add_table_elems,
}
use lucet.Lucetc.ModuleInfo
use lucet.Lucetc.ModuleInfo.Entries.{
  get_elem?_lt, get_elem?_within, get_elem?-set, AllHold-push, AllHold-set, length-set,
  find_index_found,
}
use lucet.Lucetc.ModuleInfo.Declarations.{
  Declaration, Allowed, func_import, func_export, table_elements,
}
use lucet.Lucetc.ModuleInfo.Valid.{IsValid, signature_by_id_total, export_at_total}

module _ (c : Clif) (w : ValidatorOps) where
  abbrev pub Kept : Result Error (ModuleValidation c w) → Type 0
  Kept r = (v : ModuleValidation c w) × (r ≡ ok v) × IsValid c v.info

  -- Elements for a table that is not declared, unless it is the first one of a module without tables.
  abbrev pub IsUndeclared : Declaration c → ModuleInfo c → Type 0
  IsUndeclared (table_elements t base offset elements) info =
      (info.table_elems t ≡ none) × ((info.tables ≢ []) ⊎ (t ≢ 0))
  IsUndeclared d info = ⊥

  -- A validator that panics on the function of an import or an export, with its type.
  abbrev pub ValidatorPanics : Declaration c → ModuleValidation c w → Type 0
  ValidatorPanics (func_import sig m (some field)) v =
      (x : w.Validator) × (s : IrSignature c × WasmFuncType) × (v.validator ≡ some x)
      × (signature_by_id c sig v.info ≡ ok s)
      × (w.register_import m field s.1 x ≡ none)
  ValidatorPanics (func_export i name) v =
      (x : w.Validator) × (k : ℕ) × (e : Exportable ℕ) × (s : IrSignature c × WasmFuncType)
      × (v.validator ≡ some x)
      × (get_elem? v.info.function_mapping i ≡ some k)
      × (get_elem? v.info.functions k ≡ some e)
      × (signature_by_id c e.entity v.info ≡ ok s)
      × (w.register_export name s.1 x ≡ none)
  ValidatorPanics d v = ⊥

  -- What an operation comes to.
  abbrev pub Outcome :
      Declaration c → ModuleValidation c w → Result Error (ModuleValidation c w) → Type 0
  Outcome d v r =
      (Kept r × (¬ IsUndeclared d v.info) × (¬ ValidatorPanics d v))
      ⊎ ((IsUndeclared d v.info × (r ≡ err translation)) ⊎ (ValidatorPanics d v × (r ≡ panic)))

  registered :
      (f : w.Validator → Option w.Validator) (v : ModuleValidation c w) (info : ModuleInfo c)
      → IsValid c info
      → let r = ModuleInfo.with_validator c w f v.validator >>= λ x.
          ok (record v { info = info; validator = x }) in
        (Kept r × ((x : w.Validator) → v.validator ≡ some x → f x ≡ none → ⊥))
        ⊎ ((x : w.Validator) × (v.validator ≡ some x) × (f x ≡ none) × (r ≡ panic))
  registered f v info valid = elim (Option-cases v.validator) [
    | inl absent ↦ inl (rw absent (_, refl, valid), λ x h q. cc)
    | inr (x, present) ↦ elim (Option-cases (f x)) [
      | inl panics ↦ inr (x, present, panics, rw (present, panics) refl)
      | inr (x', done) ↦ inl (
        rw (present, done) (_, refl, valid),
        λ y h q.
            let same : x ≡ y = ground (arith, present) in absurd (ground (arith, done, ap f same)),
      )
    ]
  ]

  imported :
      (sig : ℕ) (m field : String) (v : ModuleValidation c w) (info : ModuleInfo c)
      → IsValid c info
      → sig < length info.signature_mapping
      → signature_by_id c sig info ≡ signature_by_id c sig v.info
      → Outcome (func_import sig m (some field)) v (
          signature_by_id c sig info >>= λ s.
          ModuleInfo.with_validator c w (w.register_import m field s.1) v.validator >>= λ x.
          ok (record v { info = info; validator = x }))
  imported sig m field v info valid inside same =
      let (s, e) = signature_by_id_total c info sig valid inside in
      let typed : signature_by_id c sig v.info ≡ ok s = sym same ∙ e in
      rw e (elim (registered (w.register_import m field s.1) v info valid) [
        | inl (kept, never) ↦ inl (
          kept,
          λ u. u,
          λ (x, s', present, typed', panics).
              let same_type : s ≡ s' = ground (arith, typed) in
              never x present (
                ap (λ (t : IrSignature c × WasmFuncType). w.register_import m field t.1 x) same_type
                ∙ panics),
        )
        | inr (x, present, panics, run) ↦ inr (inr ((x, s, present, typed, panics), run))
      ])

  -- The module with a new imported function, and with another mention of an imported one.
  new_import-IsValid :
      (sig : ℕ) (name : String × String) (info : ModuleInfo c)
      → IsValid c info
      → sig < length info.signature_mapping
      → length info.functions + 1 < u32_mod
      → IsValid c (record info {
        functions = info.functions ++ Wasm.new sig ∷ [];
        imported_funcs = info.imported_funcs ++ name ∷ [];
        function_mapping =
            info.function_mapping
            ++ sub_u32 (as_u32 (length (info.functions ++ Wasm.new sig ∷ []))) 1 ∷ [];
      })
  unfolding Wasm.new
  new_import-IsValid sig name info v inside small =
      let n = length-append info.functions (Wasm.new sig ∷ []) in
      let k = length-append info.imported_funcs (name ∷ []) in
      record {
        code = record {
          types = v.code.types;
          funcs =
              AllHold-push _ _ info.function_mapping _ v.code.funcs (λ i h. omega (arith, n))
                (omega (arith, n));
          entities = AllHold-push _ _ info.functions _ v.code.entities (λ f h. h) inside;
          imports = omega (arith, n, k, v.code.imports);
          merged = v.code.merged;
        };
        inits = v.inits;
        elems = v.elems;
      }

  old_import-IsValid :
      (k : ℕ) (info : ModuleInfo c)
      → IsValid c info
      → k < length info.functions
      → IsValid c (record info { function_mapping = info.function_mapping ++ k ∷ [] })
  old_import-IsValid k info v inside = record {
    code = record {
      types = v.code.types;
      funcs = AllHold-push _ _ info.function_mapping k v.code.funcs (λ i h. h) inside;
      entities = v.code.entities;
      imports = v.code.imports;
      merged = v.code.merged;
    };
    inits = v.inits;
    elems = v.elems;
  }

  mention_lt :
      (name : String × String) (k : ℕ) (info : ModuleInfo c)
      → IsValid c info
      → find_index (same_name name) info.imported_funcs ≡ some k
      → k < length info.functions
  mention_lt name k info v found =
      let (a, at, same) = find_index_found (same_name name) info.imported_funcs k found in
      omega (arith, v.code.imports, get_elem?_lt info.imported_funcs k a at)

  pub func_import-Outcome :
      (sig : ℕ) (m : String) (f : Option String) (v : ModuleValidation c w)
      → IsValid c v.info
      → Allowed c w (func_import sig m f) v.info
      → Outcome (func_import sig m f) v (ModuleInfo.declare_func_import c w sig m f v)
  unfolding ModuleInfo.declare_func_import signature_by_id
  func_import-Outcome sig m none v valid (inside, (field, named), small) = absurd (ground arith)
  func_import-Outcome sig m (some field) v valid (inside, named, small) =
      elim (Option-cases (find_index (same_name (m, field)) v.info.imported_funcs)) [
        | inl fresh ↦ rw fresh (
            imported sig m field v _ (new_import-IsValid sig (m, field) v.info valid inside small)
              inside refl)
        | inr (k, found) ↦ rw found (
            imported sig m field v _
              (old_import-IsValid k v.info valid (mention_lt (m, field) k v.info valid found))
              inside refl)
      ]

  pub func_export-Outcome :
      (i : ℕ) (name : String) (v : ModuleValidation c w)
      → IsValid c v.info
      → i < length v.info.function_mapping
      → Outcome (func_export i name) v (ModuleInfo.declare_func_export c w i name v)
  unfolding ModuleInfo.declare_func_export Wasm.push_export signature_for_function signature_by_id
  func_export-Outcome i name v valid may =
      let (k, at) = get_elem?_within v.info.function_mapping i may in
      let (e, found, done) = export_at_total c k name v.info.functions (valid.code.funcs i k at) in
      let n = length-set v.info.functions k (Wasm.push_export name e) in
      let info : ModuleInfo c = record v.info {
        functions = set v.info.functions k (Wasm.push_export name e);
      } in
      let valid' : IsValid c info = record {
        code = record {
          types = valid.code.types;
          funcs = λ j a h. omega (arith, n, valid.code.funcs j a h);
          entities =
              AllHold-set _ v.info.functions k (Wasm.push_export name e) valid.code.entities
                (valid.code.entities k e found);
          imports = omega (arith, n, valid.code.imports);
          merged = valid.code.merged;
        };
        inits = valid.inits;
        elems = valid.elems;
      } in
      let again : get_elem? info.functions k ≡ some (Wasm.push_export name e) =
        get_elem?-set v.info.functions k (Wasm.push_export name e) (valid.code.funcs i k at) in
      let (s, typed) =
        signature_by_id_total c v.info e.entity valid (valid.code.entities k e found) in
      let typed' : signature_for_function c k info ≡ ok s = rw again typed in
      let step : ModuleInfo.declare_func_export c w i name v ≡ (
          ModuleInfo.with_validator c w (w.register_export name s.1) v.validator >>= λ x.
          ok (record v { info = info; validator = x })) =
        rw (at, done, typed') refl in
      rw step (elim (registered (w.register_export name s.1) v info valid') [
        | inl (kept, never) ↦ inl (
          kept,
          λ u. u,
          λ (x, k', e', s', present, at', found', typed'', panics).
              let same_k : k ≡ k' = ground (arith, at) in
              let same_e : e ≡ e' = ground (arith, found, ap (get_elem? v.info.functions) same_k) in
              let same_type : s ≡ s' = ground (
                arith,
                typed,
                ap (λ (y : Exportable ℕ). signature_by_id c y.entity v.info) same_e,
              ) in
              never x present (
                ap (λ (t : IrSignature c × WasmFuncType). w.register_export name t.1 x) same_type
                ∙ panics),
        )
        | inr (x, present, panics, run) ↦
            inr (inr ((x, k, e, s, present, at, found, typed, panics), run))
      ])
