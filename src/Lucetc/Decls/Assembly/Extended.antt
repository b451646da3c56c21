-- ===== src/Lucetc/Decls/Assembly/Extended.antt =====
-- Functions that are declared later leave those of the module as they are.
use lucet.Prelude.{
  ℕ, ◌≡◌, refl, ◌∙◌, arith, Bool-cases, Option, some, List, [], ◌∷◌, String, length, get_elem?, leb,
  ok, ok-cases, inl, inr, if◌then◌else◌,
}
use lucet.Prelude.Effects.{continue-eq-ok, pure}
use lucet.LucetModule.LinearMemory.{LinearMemorySpec}
use lucet.LucetModule.Globals.{GlobalSpec}
use lucet.Lucetc.Wasm.{Clif, IrSignature, WasmFuncType}
use lucet.Lucetc.ModuleInfo.{signature_for_function, declare_func_with_sig}
use lucet.Lucetc.ModuleInfo.Entries.{get_elem?-push, get_elem?_lt}
use lucet.Lucetc.Decls.Functions.{
  Linkage, imported, Name, ImportFunction, ExportFunction, Declarer, ModuleDecls, RuntimeFunc,
  RuntimeFuncType, declare_function, declare_new_function, declare_runtime, same_func,
}

module _ (c : Clif) (d : Declarer c) where
  -- What no later declaration changes.
  abbrev pub Fixed : Type 0
  Fixed =
      List ImportFunction
      × List ExportFunction
      × Name
      × List Name
      × List GlobalSpec
      × Option LinearMemorySpec

  abbrev pub fixed_of : ModuleDecls c d → Fixed
  fixed_of s = (
    s.imports, s.exports, s.tables_list_name, s.table_names, s.globals_spec, s.linear_memory_spec,
  )

  -- A later state has the names of an earlier one.
  pub record Extends (s s' : ModuleDecls c d) : Type 0 where
    pub names :
        (j : ℕ) (n : Name)
        → get_elem? s.function_names j ≡ some n
        → get_elem? s'.function_names j ≡ some n
    pub fixed : fixed_of s' ≡ fixed_of s

  trans : (s s' s'' : ModuleDecls c d) → Extends s s' → Extends s' s'' → Extends s s''
  trans s s' s'' e e' = record {
    names = λ j n h. e'.names j n (e.names j n h);
    fixed = e'.fixed ∙ e.fixed;
  }

  declare_function-Extends :
      (symbol : String) (linkage : Linkage) (ix r : ℕ) (s : ModuleDecls c d)
      → (declare_function c d symbol linkage ix s).0 ≡ ok r
      → Extends s (declare_function c d symbol linkage ix s).1
  unfolding declare_function
  declare_function-Extends symbol linkage ix r s h =
      elim (ok-cases (signature_for_function c ix s.info)) [
        | inl (sig, e) ↦ elim (ok-cases (d.declare_function symbol linkage sig.0 s.clifs).0) [
          | inl (id, e') ↦ elim (Bool-cases (leb (length s.function_names) ix)) [
            | inl more ↦
                rw (e, e', more)
                  (record {
                    names = λ j n at_. ground (
                      arith,
                      get_elem?-push s.function_names (record { symbol = symbol; id = id }) j,
                      get_elem?_lt s.function_names j n at_,
                    );
                    fixed = refl;
                  })
            | inr same ↦ rw (e, e', same) (record { names = λ j n at_. at_; fixed = refl })
          ]
          | inr bad ↦ absurd (ground (arith, e, bad, h))
        ]
        | inr bad ↦ absurd (ground (arith, bad, h))
      ]

  declare_new_function-Extends :
      (symbol : String) (linkage : Linkage) (ft : WasmFuncType) (sig : IrSignature c) (r : ℕ)
      (s : ModuleDecls c d)
      → (declare_new_function c d symbol linkage ft sig s).0 ≡ ok r
      → Extends s (declare_new_function c d symbol linkage ft sig s).1
  unfolding declare_new_function
  declare_new_function-Extends symbol linkage ft sig r s h =
      let declared = declare_func_with_sig c ft sig s.info in
      let s' : ModuleDecls c d = record s { info = declared.0 } in
      let (ix, first, then_) =
        continue-eq-ok (declare_function c d symbol linkage declared.1 s') (λ _. pure declared.1)
          h in
      let extends = declare_function-Extends symbol linkage declared.1 ix s' first in
      rw then_ (record { names = extends.names; fixed = extends.fixed })

  pub declare_runtime-Extends :
      (functions : List (RuntimeFunc × RuntimeFuncType c d)) (s : ModuleDecls c d)
      → (declare_runtime c d functions s).0 ≡ ok tt
      → Extends s (declare_runtime c d functions s).1
  unfolding declare_runtime
  declare_runtime-Extends [] s h = record { names = λ j n at_. at_; fixed = refl }
  declare_runtime-Extends ((func, functype) ∷ functions) s h =
      let one =
        declare_new_function c d functype.name imported functype.wasm_func_type
          functype.signature in
      let s' : ModuleDecls c d = (one s).1 in
      let named : ℕ → ModuleDecls c d = λ func_id. record s' {
        runtime_names = λ f. if same_func f func then some func_id else s'.runtime_names f;
      } in
      let (func_id, first, then_) =
        continue-eq-ok (one s)
          (λ id s''. declare_runtime c d functions (record s'' {
            runtime_names = λ f. if same_func f func then some id else s''.runtime_names f;
          }))
          h in
      let extends =
        declare_new_function-Extends functype.name imported functype.wasm_func_type
          functype.signature func_id s first in
      let rest = declare_runtime-Extends functions (named func_id) (rw then_ at h) in
      rw then_ (record {
        names = λ j n at_. rest.names j n (extends.names j n at_);
        fixed = rest.fixed ∙ extends.fixed;
      })
