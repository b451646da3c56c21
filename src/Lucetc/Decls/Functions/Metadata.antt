-- ===== src/Lucetc/Decls/Functions/Metadata.antt =====
-- What a compiled module says of its functions, against what they were declared as.
use lucet.Prelude.{
  ℕ, zero, suc, ◌+◌, ◌≤◌, ◌<◌, ◌≡◌, refl, subst, arith, Option, none, some, List, [], ◌∷◌, ◌++◌,
  length, length-append, get_elem?, as_u32, u32_mod, ltb, ◌==◌, ok, Bool-cases, inl, inr, expect,
  if◌then◌else◌,
}
use lucet.Prelude.Effects.{continue}
use lucet.Runtime.Module.{Signature}
use lucet.Lucetc.Wasm.{Clif, Exportable}
use lucet.Lucetc.ModuleInfo.Entries.{get_elem?-push, get_elem?_within}
use lucet.Lucetc.ModuleInfo.Valid.{IsValid}
use lucet.Lucetc.Decls.Functions.{
  Name, Declarer, ModuleDecls, FunctionDecl, FunctionMetadata, ModuleData, get_signature_uid,
  get_func, is_start, metadata_from, to_signatures, get_module_data,
}

module _ (c : Clif) (d : Declarer c) where
  -- The entry of a function: the symbol that it is declared under, and its signature.
  pub record IsEntry (s : ModuleDecls c d) (j : ℕ) (f : FunctionMetadata c d) : Type 0 where
    pub name : Name
    pub function : Exportable ℕ
    pub name_at : get_elem? s.function_names j ≡ some name
    pub function_at : get_elem? s.info.functions j ≡ some function
    pub signature_at : get_elem? s.info.signature_mapping function.entity ≡ some f.signature
    pub signature_bound : f.signature < length s.info.signatures
    pub symbol : f.name ≡ some name.symbol

  pub get_func-eq-ok :
      (ix : ℕ) (s : ModuleDecls c d)
      → IsValid c s.info
      → length s.function_names ≤ length s.info.functions
      → ix < length s.function_names
      → (decl : FunctionDecl c d) × (get_func c d ix s ≡ (ok decl, s))
        × IsEntry s ix (record { signature = decl.signature_index; name = some decl.name.symbol })
  unfolding get_func get_signature_uid
  get_func-eq-ok ix s valid fewer inside =
      let (name, at_) = get_elem?_within s.function_names ix inside in
      let (f, at_f) = get_elem?_within s.info.functions ix (omega arith) in
      let (uid, at_s) =
        get_elem?_within s.info.signature_mapping f.entity (valid.code.entities ix f at_f) in
      let bound : uid < length s.info.signatures = valid.code.types f.entity uid at_s in
      let (sig, at_sig) = get_elem?_within s.info.signatures uid bound in
      (
        record {
          import_name = get_elem? s.info.imported_funcs ix;
          export_names = f.export_names;
          signature_index = uid;
          name = name;
        },
        rw (at_, expect, continue, at_f, at_s, at_sig) refl,
        record {
          name = name;
          function = f;
          name_at = at_;
          function_at = at_f;
          signature_at = at_s;
          signature_bound = bound;
          symbol = refl;
        },
      )

  abbrev pub start_below : Option ℕ → ℕ → Option ℕ
  start_below none n = none
  start_below (some start) n = if ltb start n then some start else none

  -- The entries of the functions below an index, and the start function, if it is one of them.
  pub record AllEntries (s : ModuleDecls c d) (n : ℕ) (fs : List (FunctionMetadata c d))
      (start : Option ℕ) : Type 0 where
    pub count : length fs ≡ n
    pub entries : (j : ℕ) (f : FunctionMetadata c d) → get_elem? fs j ≡ some f → IsEntry s j f
    pub starts : start ≡ start_below s.info.start_func n

  start_below-none : (o : Option ℕ) → none ≡ start_below o 0
  start_below-none none = refl
  start_below-none (some start) = ground arith

  start_below-suc :
      (o : Option ℕ) (n : ℕ)
      → n < u32_mod
      → (if is_start c d o n then some (as_u32 n) else start_below o n) ≡ start_below o (n + 1)
  start_below-suc none n small = refl
  start_below-suc (some start) n small = ground arith

  push-AllEntries :
      (s : ModuleDecls c d) (n : ℕ) (fs : List (FunctionMetadata c d)) (start : Option ℕ)
      (f : FunctionMetadata c d)
      → n < u32_mod
      → IsEntry s n f
      → AllEntries s n fs start
      → AllEntries s
          (n + 1)
          (fs ++ f ∷ [])
          (if is_start c d s.info.start_func n then some (as_u32 (length fs)) else start)
  push-AllEntries s n fs start f small entry all = record {
    count = omega (arith, length-append fs (f ∷ []), all.count);
    entries = λ j g h.
        let pushed = get_elem?-push fs f j in
        elim (Bool-cases (j == n)) [
          | inl here ↦
              let at_j : n ≡ j = ground arith in
              let this : f ≡ g = ground (arith, pushed, all.count) in
              subst (λ (k : ℕ). IsEntry s k g) at_j
                (subst (λ (x : FunctionMetadata c d). IsEntry s n x) this entry)
          | inr there ↦ all.entries j g (ground (arith, pushed, all.count))
        ];
    starts = rw (all.count, all.starts) (start_below-suc s.info.start_func n small);
  }

  metadata_from-AllEntries :
      (rounds n : ℕ) (fs : List (FunctionMetadata c d)) (start : Option ℕ) (s : ModuleDecls c d)
      → IsValid c s.info
      → length s.function_names ≤ length s.info.functions
      → n + rounds ≡ length s.function_names
      → length s.function_names ≤ u32_mod
      → AllEntries s n fs start
      → (found : List (FunctionMetadata c d) × Option ℕ) × (metadata_from c d rounds n fs start s
          ≡ (ok found, s))
        × AllEntries s (n + rounds) found.0 found.1
  unfolding metadata_from
  metadata_from-AllEntries zero n fs start s valid fewer total small all =
      let same : n + 0 ≡ n = omega arith in ((fs, start), refl, rw same all)
  metadata_from-AllEntries (suc rounds) n fs start s valid fewer total small all =
      let (decl, first, entry) = get_func-eq-ok n s valid fewer (omega arith) in
      let f : FunctionMetadata c d = record {
        signature = decl.signature_index;
        name = some decl.name.symbol;
      } in
      let (found, runs, all') =
        metadata_from-AllEntries rounds (n + 1) (fs ++ f ∷ [])
          (if is_start c d s.info.start_func n then some (as_u32 (length fs)) else start) s valid
          fewer (omega arith) small (push-AllEntries s n fs start f (omega arith) entry all) in
      let next : n + suc rounds ≡ n + 1 + rounds = omega arith in
      (found, rw (first, continue) runs, rw next all')

  -- What the compiled module says of its functions: an entry for each declared function.
  pub record IsDescribed (s : ModuleDecls c d) (data_ : ModuleData c d) : Type 0 where
    pub functions : AllEntries s (length s.function_names) data_.function_info data_.start_function
    pub imports : data_.import_functions ≡ s.imports
    pub exports : data_.export_functions ≡ s.exports
    pub memory : data_.linear_memory ≡ s.linear_memory_spec
    pub globals : data_.globals_spec ≡ s.globals_spec

  -- In a valid module with no more names of functions than functions, whose signatures can all be
  -- converted, the data of the module are built, without a change of its state. They have an entry
  -- for each name, in order, with its symbol and the signature that the function is declared with,
  -- which is one of the module's; the start function is the declared one, if it has a name, and the
  -- imports, the exports, the signatures, the memory and the globals are the module's.
  pub get_module_data-IsDescribed :
      (s : ModuleDecls c d) (signatures : List Signature)
      → IsValid c s.info
      → length s.function_names ≤ length s.info.functions
      → length s.function_names ≤ u32_mod
      → to_signatures c d s.info.signatures ≡ ok signatures
      → (data_ : ModuleData c d) × (get_module_data c d s ≡ (ok data_, s))
        × IsDescribed s data_
        × (data_.signatures ≡ signatures)
  unfolding get_module_data
  get_module_data-IsDescribed s signatures valid fewer small converts =
      let n : ℕ = length s.function_names in
      let none_yet : AllEntries s 0 [] none = record {
        count = refl;
        entries = λ j f h. cc;
        starts = start_below-none s.info.start_func;
      } in
      let zero_n : 0 + n ≡ n = omega arith in
      let (found, runs, all) =
        metadata_from-AllEntries n 0 [] none s valid fewer zero_n small none_yet in
      (
        record {
          linear_memory = s.linear_memory_spec;
          globals_spec = s.globals_spec;
          function_info = found.0;
          import_functions = s.imports;
          export_functions = s.exports;
          signatures = signatures;
          start_function = found.1;
        },
        rw (runs, continue, converts) refl,
        record {
          functions = subst (λ (k : ℕ). AllEntries s k found.0 found.1) zero_n all;
          imports = refl;
          exports = refl;
          memory = refl;
          globals = refl;
        },
        refl,
      )
