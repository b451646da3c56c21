-- ===== src/Lucetc/Decls/Assembly/Recorded.antt =====
-- The runtime's functions, once they are declared after those of the module.
use lucet.Prelude.{
  ℕ, suc, ◌+◌, ◌≤◌, ◌<◌, ◌≡◌, refl, sym, ap, ◌∙◌, arith, true, false, Option, some, List, [], ◌∷◌,
  ◌++◌, String, length, length-append, get_elem?, u32_mod, as_u32, ok, if◌then◌else◌,
}
use lucet.Prelude.Effects.{continue-eq-ok, pure}
use lucet.Lucetc.Wasm.{Clif, IrSignature, WasmFuncType}
use lucet.Lucetc.Wasm
use lucet.Lucetc.ModuleInfo.{
  ModuleInfo, declare_func_with_sig, declare_type_func, declare_func_type,
}
use lucet.Lucetc.ModuleInfo.Entries.{get_elem?-push}
use lucet.Lucetc.Decls.Functions.{
  Linkage, imported, Name, Declarer, ModuleDecls, RuntimeFunc, RuntimeFuncType, declare_function,
  declare_new_function, declare_runtime, same_func,
}
use lucet.Lucetc.Decls.Functions.Round.{declare_function-eq-ok}
use lucet.Lucetc.Decls.Assembly.Extended.{declare_runtime-Extends}

same_func_refl : (f : RuntimeFunc) → same_func f f ≡ true
same_func_refl f = ground arith

module _ (c : Clif) (d : Declarer c) where
  -- As many names as functions.
  abbrev pub Aligned : ℕ → ModuleDecls c d → Type 0
  Aligned n s = (length s.function_names ≡ n) × (length s.info.functions ≡ n)

  declare_func_with_sig-functions :
      (ft : WasmFuncType) (sig : IrSignature c) (info : ModuleInfo c) (n : ℕ)
      → length info.functions ≡ n
      → n < u32_mod
      → (length (declare_func_with_sig c ft sig info).0.functions ≡ n + 1)
        × ((declare_func_with_sig c ft sig info).1 ≡ n)
  unfolding declare_func_with_sig declare_type_func declare_func_type
  declare_func_with_sig-functions ft sig info n len small = (
    omega (
      arith,
      len,
      length-append info.functions (Wasm.new (as_u32 (length info.signature_mapping)) ∷ []),
    ),
    omega (arith, len),
  )

  declare_new_function-Aligned :
      (symbol : String) (linkage : Linkage) (ft : WasmFuncType) (sig : IrSignature c) (r n : ℕ)
      (s : ModuleDecls c d)
      → Aligned n s
      → n < u32_mod
      → (declare_new_function c d symbol linkage ft sig s).0 ≡ ok r
      → let s' = (declare_new_function c d symbol linkage ft sig s).1 in
        (r ≡ n)
        × Aligned (n + 1) s'
        × ((name : Name) × (get_elem? s'.function_names n ≡ some name) × (name.symbol ≡ symbol))
        × (s'.runtime_names ≡ s.runtime_names)
  unfolding declare_new_function
  declare_new_function-Aligned symbol linkage ft sig r n s (len, len') small h =
      let declared = declare_func_with_sig c ft sig s.info in
      let (count, index) = declare_func_with_sig-functions ft sig s.info n len' small in
      let s1 : ModuleDecls c d = record s { info = declared.0 } in
      let (ix, first, then_) =
        continue-eq-ok (declare_function c d symbol linkage declared.1 s1) (λ _. pure declared.1)
          h in
      let (id, clifs, final) =
        declare_function-eq-ok c d [] symbol linkage declared.1 ix s1 (len ∙ sym index) first in
      let name : Name = record { symbol = symbol; id = id } in
      let here : get_elem? (s.function_names ++ name ∷ []) n ≡ some name =
        ground (arith, get_elem?-push s.function_names name n, len) in
      let r_is : r ≡ n = ground (arith, rw then_ at h, index) in
      rw (then_, final)
        (
          r_is,
          (omega (arith, length-append s.function_names (name ∷ []), len), count),
          (name, here, refl),
          refl,
        )

  -- No entry of the list has the key.
  abbrev pub Absent : RuntimeFunc → List (RuntimeFunc × RuntimeFuncType c d) → Type 0
  Absent f [] = Unit {0}
  Absent f ((g, ft) ∷ functions) = (same_func f g ≡ false) × Absent f functions

  -- The keys of a map.
  abbrev pub Distinct : List (RuntimeFunc × RuntimeFuncType c d) → Type 0
  Distinct [] = Unit {0}
  Distinct ((f, ft) ∷ functions) = Absent f functions × Distinct functions

  -- The functions from an index on are those of the list, under their own symbols, and the map has
  -- their indices.
  abbrev pub RuntimeFrom : List (RuntimeFunc × RuntimeFuncType c d) → ℕ → ModuleDecls c d → Type 0
  RuntimeFrom [] n s = Unit {0}
  RuntimeFrom ((f, ft) ∷ functions) n s =
      ((name : Name) × (get_elem? s.function_names n ≡ some name) × (name.symbol ≡ ft.name))
      × (s.runtime_names f ≡ some n)
      × RuntimeFrom functions (n + 1) s

  declare_runtime-cons :
      (func : RuntimeFunc) (functype : RuntimeFuncType c d)
      (functions : List (RuntimeFunc × RuntimeFuncType c d)) (n : ℕ) (s : ModuleDecls c d)
      → Aligned n s
      → n < u32_mod
      → (declare_runtime c d ((func, functype) ∷ functions) s).0 ≡ ok tt
      → (s' : ModuleDecls c d) × (declare_runtime c d ((func, functype) ∷ functions) s
          ≡ declare_runtime c d functions s')
        × Aligned (n + 1) s'
        × ((name : Name) × (get_elem? s'.function_names n ≡ some name)
            × (name.symbol ≡ functype.name))
        × (s'.runtime_names ≡ (λ f. if same_func f func then some n else s.runtime_names f))
  unfolding declare_runtime
  declare_runtime-cons func functype functions n s aligned small h =
      let one =
        declare_new_function c d functype.name imported functype.wasm_func_type
          functype.signature in
      let s' : ModuleDecls c d = (one s).1 in
      let (func_id, first, then_) =
        continue-eq-ok (one s)
          (λ id s''. declare_runtime c d functions (record s'' {
            runtime_names = λ f. if same_func f func then some id else s''.runtime_names f;
          }))
          h in
      let (id_is, aligned', named, same) =
        declare_new_function-Aligned functype.name imported functype.wasm_func_type
          functype.signature func_id n s aligned small first in
      (
        record s' {
          runtime_names = λ f. if same_func f func then some func_id else s'.runtime_names f;
        },
        then_,
        aligned',
        named,
        rw (id_is, same) refl,
      )

  declare_runtime-absent :
      (f : RuntimeFunc) (functions : List (RuntimeFunc × RuntimeFuncType c d)) (n : ℕ)
      (s : ModuleDecls c d)
      → Absent f functions
      → Aligned n s
      → n + length functions ≤ u32_mod
      → (declare_runtime c d functions s).0 ≡ ok tt
      → (declare_runtime c d functions s).1.runtime_names f ≡ s.runtime_names f
  unfolding declare_runtime
  declare_runtime-absent f [] n s absent aligned small h = refl
  declare_runtime-absent f ((g, ft) ∷ functions) n s (other, absent) aligned small h =
      let (s', then_, aligned', named, map_) =
        declare_runtime-cons g ft functions n s aligned (omega arith) h in
      let here : s'.runtime_names f ≡ s.runtime_names f =
        ap (λ (m : RuntimeFunc → Option ℕ). m f) map_ ∙ rw other refl in
      rw then_ (
        declare_runtime-absent f functions (n + 1) s' absent aligned' (omega arith) (rw then_ at h)
        ∙ here)

  pub declare_runtime-RuntimeFrom :
      (functions : List (RuntimeFunc × RuntimeFuncType c d)) (n : ℕ) (s : ModuleDecls c d)
      → Distinct functions
      → Aligned n s
      → n + length functions ≤ u32_mod
      → (declare_runtime c d functions s).0 ≡ ok tt
      → RuntimeFrom functions n (declare_runtime c d functions s).1
        × Aligned (n + length functions) (declare_runtime c d functions s).1
  unfolding declare_runtime
  declare_runtime-RuntimeFrom [] n s distinct aligned small h =
      let same : n + 0 ≡ n = omega arith in (tt, rw same aligned)
  declare_runtime-RuntimeFrom ((f, ft) ∷ functions) n s (absent, distinct) aligned small h =
      let (s', then_, aligned', (name, at_, symbol), map_) =
        declare_runtime-cons f ft functions n s aligned (omega arith) h in
      let ran : (declare_runtime c d functions s').0 ≡ ok tt = rw then_ at h in
      let (rest, aligned'') =
        declare_runtime-RuntimeFrom functions (n + 1) s' distinct aligned' (omega arith) ran in
      let kept = declare_runtime-absent f functions (n + 1) s' absent aligned' (omega arith) ran in
      let here : s'.runtime_names f ≡ some n =
        ap (λ (m : RuntimeFunc → Option ℕ). m f) map_ ∙ rw (same_func_refl f) refl in
      let names = (declare_runtime-Extends c d functions s' ran).names in
      let total : n + suc (length functions) ≡ n + 1 + length functions = omega arith in
      rw (then_, total) (((name, names n name at_, symbol), kept ∙ here, rest), aligned'')
