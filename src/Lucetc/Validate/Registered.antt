-- ===== src/Lucetc/Validate/Registered.antt =====
-- What registering imports and exports does to the validator.
use lucet.Prelude.{
  ◌≤◌, ◌≡◌, ◌≢◌, ◌⊎◌, ◌↔◌, inl, inr, refl, sym, subst, ap, ◌∙◌, arith, true, Option, none, some,
  List, [], ◌∷◌, ◌++◌, String, ◌==◌, if◌then◌else◌, length, Result, ok, err, ◌>>=◌, Option-cases,
  Bool-cases,
}
use lucet.Prelude.Maps.{lookup, String_cases}
use text.Mathlib.Text.{◌==◌ as str_eq}
use text.Mathlib.TextEquality.{eq_iff}
use lucet.Lucetc.Wasm.{WasmType, WasmFuncType}
use lucet.Lucetc.Validate.{
  Error, ExportSpec, tag, same_types, same_func_type, AtomType, Witx, witx_to_functype, Validator,
  find_module, import_type, check_import, register_import, export_result, register_export,
  import_not_found, import_type_error,
}

tag_iff : (a b : WasmType) → ((tag a == tag b) ≡ true) ↔ (a ≡ b)
tag_iff WasmType.i32 b = (λ h. ground arith, λ h. ground arith)
tag_iff WasmType.i64 b = (λ h. ground arith, λ h. ground arith)
tag_iff WasmType.f32 b = (λ h. ground arith, λ h. ground arith)
tag_iff WasmType.f64 b = (λ h. ground arith, λ h. ground arith)
tag_iff WasmType.v128 b = (λ h. ground arith, λ h. ground arith)
tag_iff WasmType.func_ref b = (λ h. ground arith, λ h. ground arith)
tag_iff WasmType.extern_ref b = (λ h. ground arith, λ h. ground arith)

same_types_iff : (as_ bs : List WasmType) → (same_types as_ bs ≡ true) ↔ (as_ ≡ bs)
same_types_iff [] [] = (λ h. refl, λ h. refl)
same_types_iff [] (b ∷ bs) = (λ h. cc, λ h. cc)
same_types_iff (a ∷ as_) [] = (λ h. cc, λ h. cc)
same_types_iff (a ∷ as_) (b ∷ bs) = (
  λ h. ground (arith, tag_iff a b, same_types_iff as_ bs),
  λ h. ground (arith, tag_iff a b, same_types_iff as_ bs),
)

pub same_func_type_iff : (s t : WasmFuncType) → (same_func_type s t ≡ true) ↔ (s ≡ t)
same_func_type_iff s t = (
  λ h. ground (arith, same_types_iff s.params t.params, same_types_iff s.returns t.returns),
  λ h. ground (arith, same_types_iff s.params t.params, same_types_iff s.returns t.returns),
)

-- What the reader registers, in order.
pub data Registration : Type 0 where
  imported : String → String → WasmFuncType → Registration
  exported : String → WasmFuncType → Registration

-- The type of the last export of a name.
abbrev pub last_export : String → List Registration → Option WasmFuncType
last_export name [] = none
last_export name (imported m f t ∷ regs) = last_export name regs
last_export name (exported n t ∷ regs) = elim (last_export name regs) [
  | some t' ↦ some t'
  | none ↦ if str_eq n name then some t else none
]

module _ (x : Witx) where
  -- Every import has the type that the documents declare for it.
  abbrev pub AllDeclared : List x.Document → List Registration → Type 0
  AllDeclared witx [] = Unit {0}
  AllDeclared witx (imported m f t ∷ regs) = (import_type x witx m f ≡ ok t) × AllDeclared witx regs
  AllDeclared witx (exported n t ∷ regs) = AllDeclared witx regs

  abbrev register : Registration → Validator x → Result Error (Validator x)
  register (imported m f t) v = register_import x m f t v
  register (exported n t) v = ok (register_export x n t v)

  abbrev pub register_all : List Registration → Validator x → Result Error (Validator x)
  register_all [] v = ok v
  register_all (reg ∷ regs) v = register reg v >>= register_all regs

  -- No function of a document has more than one result.
  abbrev pub IsSingle : Type 0
  IsSingle =
      (m : x.WitxModule) (f : String) (ps rs : List AtomType)
      → x.func m f ≡ some (ps, rs)
      → length rs ≤ 1

  functype_total :
      (ps rs : List AtomType)
      → length rs ≤ 1
      → (t : WasmFuncType) × (witx_to_functype (ps, rs) ≡ ok t)
  unfolding witx_to_functype
  functype_total ps [] h = (_, refl)
  functype_total ps (r ∷ []) h = (_, refl)
  functype_total ps (r ∷ r' ∷ rs) h = absurd (omega arith)

  import_type_total :
      (single : IsSingle) (witx : List x.Document) (m f : String)
      → ((t : WasmFuncType) × (import_type x witx m f ≡ ok t))
        ⊎ ((e : Error) × (import_type x witx m f ≡ err e))
  unfolding import_type
  import_type_total single witx m f = elim (Option-cases (find_module x witx m)) [
    | inl missing ↦ inr (import_not_found m f, ground (arith, missing))
    | inr (module_, there) ↦ elim (Option-cases (x.func module_ f)) [
      | inl missing ↦ inr (import_not_found m f, ground (arith, there, missing))
      | inr ((ps, rs), found) ↦
          let (t, e) = functype_total ps rs (single module_ f ps rs found) in
          inl (t, ground (arith, there, found, e))
    ]
  ]

  check_import_cases :
      (single : IsSingle) (witx : List x.Document) (m f : String) (t : WasmFuncType)
      → ((check_import x witx m f t ≡ ok tt) × (import_type x witx m f ≡ ok t))
        ⊎ ((e : Error) × (check_import x witx m f t ≡ err e) × (import_type x witx m f ≢ ok t))
  unfolding check_import
  check_import_cases single witx m f t = elim (import_type_total single witx m f) [
    | inr (e, refused) ↦ inr (e, ground (arith, refused), λ h. ground (arith, refused, h))
    | inl (s, typed) ↦ elim (Bool-cases (same_func_type s t)) [
      | inl same ↦
          let eq = (same_func_type_iff s t).0 same in
          inl (ground (arith, typed, same), ground (arith, typed, eq))
      | inr differs ↦ inr (
        import_type_error m f s t,
        ground (arith, typed, differs),
        λ h. ground (arith, typed, h, differs, same_func_type_iff s t),
      )
    ]
  ]

  -- The export that is looked for, after the registrations.
  abbrev pub final : ExportSpec → String → List Registration → ExportSpec
  final e n regs = elim (last_export n regs) [
    | none ↦ e
    | some t ↦ record e { result = some (export_result x e n t) }
  ]

  final-exported :
      (e : ExportSpec) (n : String) (t : WasmFuncType) (regs : List Registration)
      → final (record e { result = some (export_result x e n t) }) n regs
        ≡ final e n (exported n t ∷ regs)
  final-exported e n t regs = elim (Option-cases (last_export n regs)) [
    | inl absent ↦ ground (arith, absent, eq_iff n n)
    | inr (t', later) ↦ ground (arith, later)
  ]

  final-other :
      (e : ExportSpec) (n m : String) (t : WasmFuncType) (regs : List Registration)
      → m ≢ n
      → final e n (exported m t ∷ regs) ≡ final e n regs
  final-other e n m t regs ne = elim (Option-cases (last_export n regs)) [
    | inl absent ↦ ground (arith, absent, eq_iff m n)
    | inr (t', later) ↦ ground (arith, later)
  ]

  -- The validator after the registrations: an error for each bad import, and the final export.
  pub record Registered (regs : List Registration) (v v' : Validator x) : Type 0 where
    pub run : register_all regs v ≡ ok v'
    pub imports : (v'.import_errors ≡ []) ↔ ((v.import_errors ≡ []) × AllDeclared v.witx regs)
    pub nothing : v.exports ≡ [] → v'.exports ≡ []
    pub export :
        (n : String) (e : ExportSpec)
        → v.exports ≡ (n, e) ∷ []
        → v'.exports ≡ (n, final e n regs) ∷ []

  not_empty : (es : List Error) (e : Error) → es ++ e ∷ [] ≢ []
  not_empty [] e h = cc
  not_empty (e' ∷ es) e h = cc

  -- What a registered export leaves and changes.
  register_export_keeps :
      (m : String) (t : WasmFuncType) (v : Validator x)
      → ((register_export x m t v).import_errors ≡ v.import_errors)
        × ((register_export x m t v).witx ≡ v.witx)
        × (v.exports ≡ [] → (register_export x m t v).exports ≡ [])
  unfolding register_export
  register_export_keeps m t v = elim (Option-cases (lookup m v.exports)) [
    | inl absent ↦ (ground (arith, absent), ground (arith, absent), λ h. ground (arith, absent, h))
    | inr (e, there) ↦
        (ground (arith, there), ground (arith, there), λ h. absurd (ground (arith, there, h)))
  ]

  register_export_same :
      (n : String) (e : ExportSpec) (t : WasmFuncType) (v : Validator x)
      → v.exports ≡ (n, e) ∷ []
      → (register_export x n t v).exports
        ≡ (n, record e { result = some (export_result x e n t) }) ∷ []
  unfolding register_export
  register_export_same n e t v h =
      let there : lookup n v.exports ≡ some e = ground (arith, h, eq_iff n n) in
      ground (arith, there, h, eq_iff n n)

  register_export_other :
      (n m : String) (e : ExportSpec) (t : WasmFuncType) (v : Validator x)
      → v.exports ≡ (n, e) ∷ []
      → m ≢ n
      → (register_export x m t v).exports ≡ (n, e) ∷ []
  unfolding register_export
  register_export_other n m e t v h ne =
      let absent : lookup m v.exports ≡ none = ground (arith, h, eq_iff n m) in
      ground (arith, absent, h)

  pub register_all-Registered :
      (single : IsSingle) (regs : List Registration) (v : Validator x)
      → (v' : Validator x) × Registered regs v v'
  unfolding register_import register_export
  register_all-Registered single [] v = (
    v,
    record {
      run = refl;
      imports = (λ h. (h, tt), λ h. h.0);
      nothing = λ h. h;
      export = λ n e h. h;
    },
  )
  register_all-Registered single (imported m f t ∷ regs) v =
      elim (check_import_cases single v.witx m f t) [
        | inl (passed, typed) ↦
            let (v', r) = register_all-Registered single regs v in
            (
              v',
              record {
                run = rw passed r.run;
                imports =
                    (λ h. ground (arith, typed, r.imports.0 h), λ h. r.imports.1 (h.0, h.1.1));
                nothing = r.nothing;
                export = r.export;
              },
            )
        | inr (e, refused, bad) ↦
            let mid : Validator x = record v { import_errors = v.import_errors ++ e ∷ [] } in
            let (v', r) = register_all-Registered single regs mid in
            (
              v',
              record {
                run = rw refused r.run;
                imports = (
                  λ h. absurd (not_empty v.import_errors e (r.imports.0 h).0),
                  λ h. absurd (bad h.1.0),
                );
                nothing = r.nothing;
                export = r.export;
              },
            )
      ]
  register_all-Registered single (exported m t ∷ regs) v =
      let (v', r) = register_all-Registered single regs (register_export x m t v) in
      let (errors, docs, unregistered) = register_export_keeps m t v in
      (
        v',
        record {
          run = r.run;
          imports =
              subst (λ es. (v'.import_errors ≡ []) ↔ ((es ≡ []) × AllDeclared v.witx regs)) errors
                (subst
                  (λ ds.
                    (v'.import_errors ≡ [])
                    ↔ (((register_export x m t v).import_errors ≡ []) × AllDeclared ds regs))
                  docs r.imports);
          nothing = λ h. r.nothing (unregistered h);
          export = λ n e h. elim (String_cases m n) [
            | inl same ↦
                let at_m : v.exports ≡ (m, e) ∷ [] = ground arith in
                let done =
                  r.export m (record e { result = some (export_result x e m t) })
                    (register_export_same m e t v at_m) in
                subst (λ k. v'.exports ≡ (k, final e k (exported m t ∷ regs)) ∷ []) same
                  (done ∙ ap (λ s. (m, s) ∷ []) (final-exported e m t regs))
            | inr other ↦
                r.export n e (register_export_other n m e t v h other)
                ∙ ap (λ s. (n, s) ∷ []) (sym (final-other e n m t regs other))
          ];
        },
      )
