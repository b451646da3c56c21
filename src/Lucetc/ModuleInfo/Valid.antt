-- ===== src/Lucetc/ModuleInfo/Valid.antt =====
-- The invariant of the collected module, and that the declarations keep it without a panic.
use lucet.Prelude.{
  ℕ, ◌+◌, ◌≤◌, ◌<◌, ◌≡◌, ◌↔◌, arith, refl, true, false, not, none, some, List, [], ◌∷◌, ◌++◌,
  String, ltb, length, get_elem?, set, u32_mod, as_u32, is_none, ok, length-append, inl, inr,
  Option-cases,
}
use lucet.Lucetc.Wasm.{
  Clif, IrSignature, WasmFuncType, ValidatorOps, Table, Memory, GlobalInit, Exportable, TableElems,
}
use lucet.Lucetc.Wasm
use lucet.Lucetc.ModuleInfo.{
  ModuleInfo, ModuleValidation, export_at, find_index, same_name, match_of, with_vmctx, unwrap_or,
  insert, declare_type_func, declare_func_type, signature_by_id, signature_for_function,
}
use lucet.Lucetc.ModuleInfo
use lucet.Lucetc.ModuleInfo.Entries.{
  AllHold, get_elem?-push, get_elem?_lt, get_elem?_within, AllHold-push, find_index_found,
  find_index_absent,
}

-- Two signatures are the same exactly if they are equal.
abbrev pub SameIff : Clif → Type 0
SameIff c = (a b : IrSignature c) → (c.same a b ≡ true) ↔ (a ≡ b)

module _ (c : Clif) where
  abbrev pub Merged : List (IrSignature c × WasmFuncType) → Type 0
  Merged signatures =
      (i j : ℕ) (a b : IrSignature c × WasmFuncType)
      → get_elem? signatures i ≡ some a
      → get_elem? signatures j ≡ some b
      → a.0 ≡ b.0
      → i ≡ j

  -- Every index of a signature or function is in range, imported functions are functions, and
  -- equal signatures are merged.
  pub record CodeValid (signature_mapping : List ℕ)
      (signatures : List (IrSignature c × WasmFuncType)) (imported_funcs : List (String × String))
      (function_mapping : List ℕ) (functions : List (Exportable ℕ)) : Type 0 where
    pub types : AllHold (λ k. k < length signatures) signature_mapping
    pub funcs : AllHold (λ k. k < length functions) function_mapping
    pub entities : AllHold (λ f. f.entity < length signature_mapping) functions
    pub imports : length imported_funcs ≤ length functions
    pub merged : Merged signatures

  -- Also exactly the declared memories have a list of data initializers, and only declared tables
  -- have elements.
  pub record IsValid (info : ModuleInfo c) : Type 0 where
    pub code :
        CodeValid info.signature_mapping info.signatures info.imported_funcs info.function_mapping
          info.functions
    pub inits : (k : ℕ) → is_none (info.data_initializers k) ≡ not (ltb k (length info.memories))
    pub elems : (k : ℕ) → is_none (info.table_elems k) ≡ false → k < length info.tables

  pub new-IsValid : IsValid (ModuleInfo.new c)
  unfolding ModuleInfo.new
  new-IsValid = record {
    code = record {
      types = λ i a h. cc;
      funcs = λ i a h. cc;
      entities = λ i a h. cc;
      imports = omega arith;
      merged = λ i j a b h. cc;
    };
    inits = λ k. ground arith;
    elems = λ k h. cc;
  }

  Merged-push :
      (same : SameIff c) (signatures : List (IrSignature c × WasmFuncType)) (sig : IrSignature c)
      (ft : WasmFuncType)
      → Merged signatures
      → match_of c sig signatures ≡ none
      → Merged (signatures ++ (sig, ft) ∷ [])
  Merged-push same signatures sig ft merged fresh i j a b hi hj e =
      let absent =
        find_index_absent (λ (s : IrSignature c × WasmFuncType). c.same s.0 sig) signatures fresh in
      ground (
        arith,
        get_elem?-push signatures (sig, ft) i,
        get_elem?-push signatures (sig, ft) j,
        merged i j a b,
        absent i a,
        absent j b,
        same a.0 sig,
        same b.0 sig,
      )

  pub declare_type_func-IsValid :
      (same : SameIff c) (ft : WasmFuncType) (sig : IrSignature c) (info : ModuleInfo c)
      → IsValid info
      → length info.signatures < u32_mod
      → IsValid (declare_type_func c ft sig info)
  unfolding declare_type_func
  declare_type_func-IsValid same ft sig info v small =
      elim (Option-cases (match_of c (with_vmctx c sig) info.signatures)) [
        | inl fresh ↦ rw fresh (record {
          code = record {
            types =
                AllHold-push _ _ info.signature_mapping (as_u32 (length info.signatures))
                  v.code.types
                  (λ k h.
                    omega (arith, length-append info.signatures ((with_vmctx c sig, ft) ∷ [])))
                  (omega (arith, length-append info.signatures ((with_vmctx c sig, ft) ∷ [])));
            funcs = v.code.funcs;
            entities = λ i f h. omega (
              arith,
              v.code.entities i f h,
              length-append info.signature_mapping (as_u32 (length info.signatures) ∷ []),
            );
            imports = v.code.imports;
            merged = Merged-push same info.signatures (with_vmctx c sig) ft v.code.merged fresh;
          };
          inits = v.inits;
          elems = v.elems;
        })
        | inr (k, found) ↦
            let (s, at, holds) =
              find_index_found (λ (s : IrSignature c × WasmFuncType). c.same s.0 (with_vmctx c sig))
                info.signatures k found in
            rw found (record {
              code = record {
                types =
                    AllHold-push _ _ info.signature_mapping k v.code.types (λ i h. h)
                      (get_elem?_lt info.signatures k s at);
                funcs = v.code.funcs;
                entities = λ i f h.
                    omega
                      (arith, v.code.entities i f h, length-append info.signature_mapping (k ∷ []));
                imports = v.code.imports;
                merged = v.code.merged;
              };
              inits = v.inits;
              elems = v.elems;
            })
      ]

  pub declare_func_type-IsValid :
      (sig_index : ℕ) (info : ModuleInfo c)
      → IsValid info
      → sig_index < length info.signature_mapping
      → length info.functions + 1 < u32_mod
      → IsValid (declare_func_type c sig_index info)
  unfolding declare_func_type Wasm.new
  declare_func_type-IsValid sig_index info v inside small =
      let n = length-append info.functions (Wasm.new sig_index ∷ []) in
      record {
        code = record {
          types = v.code.types;
          funcs =
              AllHold-push _ _ info.function_mapping _ v.code.funcs (λ k h. omega (arith, n))
                (omega (arith, n));
          entities = AllHold-push _ _ info.functions _ v.code.entities (λ f h. h) inside;
          imports = omega (arith, n, v.code.imports);
          merged = v.code.merged;
        };
        inits = v.inits;
        elems = v.elems;
      }

  -- Every signature index of a valid module has a signature, and so has every function.
  pub signature_by_id_total :
      (info : ModuleInfo c) (i : ℕ)
      → IsValid info
      → i < length info.signature_mapping
      → (s : IrSignature c × WasmFuncType) × (signature_by_id c i info ≡ ok s)
  unfolding signature_by_id
  signature_by_id_total info i v h =
      let (k, at) = get_elem?_within info.signature_mapping i h in
      let (s, found) = get_elem?_within info.signatures k (v.code.types i k at) in
      (s, ground (arith, at, found))

  pub signature_for_function_total :
      (info : ModuleInfo c) (i : ℕ)
      → IsValid info
      → i < length info.functions
      → (s : IrSignature c × WasmFuncType) × (signature_for_function c i info ≡ ok s)
  unfolding signature_for_function
  signature_for_function_total info i v h =
      let (f, at) = get_elem?_within info.functions i h in
      let (s, found) = signature_by_id_total info f.entity v (v.code.entities i f at) in
      (s, rw at found)

  pub export_at_total :
      {T : Type 0} (i : ℕ) (name : String) (xs : List (Exportable T))
      → i < length xs
      → (e : Exportable T) × (get_elem? xs i ≡ some e)
        × (export_at i name xs ≡ ok (set xs i (Wasm.push_export name e)))
  unfolding export_at
  export_at_total i name xs h = let (e, at) = get_elem?_within xs i h in (e, at, rw at refl)
