-- ===== src/Lucetc/Types.antt =====
-- lucetc/src/types.rs: signatures of WebAssembly as signatures of a module.
use lucet.Prelude.{
  ◌≡◌, ◌↔◌, inl, inr, refl, ap, ◌∙◌, arith, Option, none, some, List, [], ◌∷◌, Result, ok, err,
  ◌>>=◌, ok-cases,
}
use lucet.Runtime.Module.{ValueType, Signature}
use lucet.Lucetc.Wasm.{WasmType, WasmFuncType}

pub data SignatureError : Type 0 where
  type_ : WasmType → SignatureError
  multivalue : SignatureError

abbrev pub to_lucet_valuetype : WasmType → Result SignatureError ValueType
to_lucet_valuetype WasmType.i32 = ok ValueType.i32
to_lucet_valuetype WasmType.i64 = ok ValueType.i64
to_lucet_valuetype WasmType.f32 = ok ValueType.f32
to_lucet_valuetype WasmType.f64 = ok ValueType.f64
to_lucet_valuetype WasmType.v128 = err (type_ WasmType.v128)
to_lucet_valuetype WasmType.func_ref = err (type_ WasmType.func_ref)
to_lucet_valuetype WasmType.extern_ref = err (type_ WasmType.extern_ref)

-- `iter().map(..).collect::<Result<Vec<_>, _>>()`: the first error, if there is one.
unfoldable pub to_params : List WasmType → Result SignatureError (List ValueType)
to_params [] = ok []
to_params (t ∷ params) = do v ← to_lucet_valuetype t; rest ← to_params params; ok (v ∷ rest)

abbrev pub to_ret_ty : List WasmType → Result SignatureError (Option ValueType)
to_ret_ty [] = ok none
to_ret_ty (t ∷ []) = to_lucet_valuetype t >>= λ v. ok (some v)
to_ret_ty (t ∷ t' ∷ returns) = err multivalue

unfoldable pub to_lucet_signature : WasmFuncType → Result SignatureError Signature
to_lucet_signature func_type = do
  params ← to_params func_type.params
  ret_ty ← to_ret_ty func_type.returns
  ok (record { params = params; ret_ty = ret_ty })

-- The WebAssembly type of a value type.
abbrev pub wasm_of : ValueType → WasmType
wasm_of ValueType.i32 = WasmType.i32
wasm_of ValueType.i64 = WasmType.i64
wasm_of ValueType.f32 = WasmType.f32
wasm_of ValueType.f64 = WasmType.f64

abbrev pub all_wasm : List ValueType → List WasmType
all_wasm [] = []
all_wasm (v ∷ vs) = wasm_of v ∷ all_wasm vs

abbrev pub wasm_signature : Signature → WasmFuncType
wasm_signature s = record {
  params = all_wasm s.params;
  returns = elim s.ret_ty [ none ↦ [] | some v ↦ wasm_of v ∷ [] ];
}

valuetype_iff : (t : WasmType) (v : ValueType) → (to_lucet_valuetype t ≡ ok v) ↔ (t ≡ wasm_of v)
valuetype_iff WasmType.i32 v = (λ h. ground arith, λ h. ground arith)
valuetype_iff WasmType.i64 v = (λ h. ground arith, λ h. ground arith)
valuetype_iff WasmType.f32 v = (λ h. ground arith, λ h. ground arith)
valuetype_iff WasmType.f64 v = (λ h. ground arith, λ h. ground arith)
valuetype_iff WasmType.v128 v = (λ h. ground arith, λ h. ground arith)
valuetype_iff WasmType.func_ref v = (λ h. ground arith, λ h. ground arith)
valuetype_iff WasmType.extern_ref v = (λ h. ground arith, λ h. ground arith)

valuetype_wasm : (v : ValueType) → to_lucet_valuetype (wasm_of v) ≡ ok v
valuetype_wasm v = (valuetype_iff (wasm_of v) v).1 refl

params_from : (vs : List ValueType) → to_params (all_wasm vs) ≡ ok vs
unfolding to_params
params_from [] = refl
params_from (v ∷ vs) = ground (arith, valuetype_wasm v, params_from vs)

params_back : (ts : List WasmType) (vs : List ValueType) → to_params ts ≡ ok vs → ts ≡ all_wasm vs
unfolding to_params
params_back [] vs h = ground arith
params_back (t ∷ ts) vs h = elim (ok-cases (to_lucet_valuetype t)) [
  | inr bad ↦ absurd (ground (arith, bad, h))
  | inl (v, e) ↦ elim (ok-cases (to_params ts)) [
    | inr bad ↦ absurd (ground (arith, e, bad, h))
    | inl (rest, e') ↦
        let same : vs ≡ v ∷ rest = ground (arith, e, e', h) in
        rw same (ground (arith, (valuetype_iff t v).0 e, params_back ts rest e'))
  ]
]

ret_iff :
    (ts : List WasmType) (r : Option ValueType)
    → (to_ret_ty ts ≡ ok r) ↔ (ts ≡ elim r [ none ↦ [] | some v ↦ wasm_of v ∷ [] ])
ret_iff [] none = (λ h. refl, λ h. refl)
ret_iff [] (some v) = (λ h. absurd (ground arith), λ h. absurd (ground arith))
ret_iff (t ∷ []) none = (λ h. absurd (ret_some t h), λ h. absurd (ground arith))
  where
    ret_some : (t : WasmType) → to_ret_ty (t ∷ []) ≡ ok none → ⊥
    ret_some t h = ground arith
ret_iff (t ∷ []) (some v) = (
  λ h. ground (arith, (valuetype_iff t v).0 (ground arith)),
  λ h. ground (arith, (valuetype_iff t v).1 (ground arith)),
)
ret_iff (t ∷ t' ∷ ts) none = (λ h. absurd (ground arith), λ h. absurd (ground arith))
ret_iff (t ∷ t' ∷ ts) (some v) = (λ h. absurd (ground arith), λ h. absurd (ground arith))

-- A WebAssembly type is converted to a signature exactly if it is the type of that signature: its
-- parameters and at most one result are numbers, in order.
to_lucet_signature_iff :
    (ft : WasmFuncType) (s : Signature) → (to_lucet_signature ft ≡ ok s) ↔ (ft ≡ wasm_signature s)
unfolding to_lucet_signature
to_lucet_signature_iff ft s = (
  λ h. elim (ok-cases (to_params ft.params)) [
    | inr bad ↦ absurd (ground (arith, bad, h))
    | inl (vs, e) ↦ elim (ok-cases (to_ret_ty ft.returns)) [
      | inr bad ↦ absurd (ground (arith, e, bad, h))
      | inl (r, e') ↦
          let params : s.params ≡ vs = ground (arith, e, e', h) in
          let ret : s.ret_ty ≡ r = ground (arith, e, e', h) in
          ground (
            arith,
            params_back ft.params s.params (ground (arith, e, params)),
            (ret_iff ft.returns s.ret_ty).0 (ground (arith, e', ret)),
          )
    ]
  ],
  λ h.
      let params : to_params ft.params ≡ ok s.params =
        ap (λ (f : WasmFuncType). to_params f.params) h ∙ params_from s.params in
      let ret : to_ret_ty ft.returns ≡ ok s.ret_ty =
        (ret_iff ft.returns s.ret_ty).1 (ap (λ (f : WasmFuncType). f.returns) h) in
      ground (arith, params, ret),
)
