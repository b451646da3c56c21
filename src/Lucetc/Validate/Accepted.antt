-- ===== src/Lucetc/Validate/Accepted.antt =====
-- The modules that the validator accepts.
use lucet.Prelude.{
  ◌≡◌, ◌⊎◌, ◌↔◌, inl, inr, refl, sym, ap, ◌∙◌, arith, Option, none, some, List, [], ◌∷◌, ◌++◌,
  String, ok, Option-cases, Bool-cases,
}
use lucet.Lucetc.Validate.{
  Error, WasiMode, command, reactor, ExportRequired, required, optional, ExportSpec, result_of,
  same_func_type, Witx, no_params_no_returns, Validator, build, export_errors, report, report_of,
}
use lucet.Lucetc.Validate.Registered.{
  Registration, last_export, AllDeclared, register_all, IsSingle, final, register_all-Registered,
  same_func_type_iff,
}

-- What a mode asks of the exports.
abbrev pub ModeMet : Option WasiMode → List Registration → Type 0
ModeMet none regs = Unit {0}
ModeMet (some command) regs = last_export "_start" regs ≡ some no_params_no_returns
ModeMet (some reactor) regs =
    (last_export "_initialize" regs ≡ none)
    ⊎ (last_export "_initialize" regs ≡ some no_params_no_returns)

module _ (x : Witx) where
  report_iff :
      (v : Validator x)
      → (report x v ≡ ok tt) ↔ ((v.import_errors ≡ []) × (export_errors x v.exports ≡ []))
  unfolding report
  report_iff v = of_lists v.import_errors (export_errors x v.exports)
    where
      of_lists : (a b : List Error) → (report_of x (a ++ b) ≡ ok tt) ↔ ((a ≡ []) × (b ≡ []))
      of_lists [] [] = (λ h. (refl, refl), λ h. refl)
      of_lists [] (e ∷ b) = (λ h. absurd (ground arith), λ h. absurd (ground arith))
      of_lists (e ∷ a) b = (λ h. absurd (ground arith), λ h. absurd (ground arith))

  one_export :
      (n : String) (e : ExportSpec) → (export_errors x ((n, e) ∷ []) ≡ []) ↔ (result_of e ≡ none)
  unfolding export_errors
  one_export n e = elim (Option-cases (result_of e)) [
    | inl none_ ↦ (λ h. none_, λ h. ground (arith, none_))
    | inr (err_, some_) ↦
        (λ h. absurd (ground (arith, some_, h)), λ h. absurd (ground (arith, some_, h)))
  ]

  abbrev asked : String → ExportRequired → ExportSpec
  asked n r = record { name = n; requirement = r; type_ = no_params_no_returns; result = none }

  required_iff :
      (n : String) (regs : List Registration)
      → (result_of (final x (asked n required) n regs) ≡ none)
        ↔ (last_export n regs ≡ some no_params_no_returns)
  unfolding result_of
  required_iff n regs = elim (Option-cases (last_export n regs)) [
    | inl absent ↦
        (λ h. absurd (ground (arith, absent, h)), λ h. absurd (ground (arith, absent, h)))
    | inr (t, last) ↦ elim (Bool-cases (same_func_type no_params_no_returns t)) [
      | inl same ↦
          let eq : no_params_no_returns ≡ t = (same_func_type_iff no_params_no_returns t).0 same in
          (λ h. last ∙ ap some (sym eq), λ h. ground (arith, last, same))
      | inr differs ↦ (
        λ h. absurd (ground (arith, last, differs, h)),
        λ h.
            let eq : t ≡ no_params_no_returns = ground (arith, last, h) in
            absurd
              (ground (arith, differs, (same_func_type_iff no_params_no_returns t).1 (sym eq))),
      )
    ]
  ]

  optional_iff :
      (n : String) (regs : List Registration)
      → (result_of (final x (asked n optional) n regs) ≡ none)
        ↔ ((last_export n regs ≡ none) ⊎ (last_export n regs ≡ some no_params_no_returns))
  unfolding result_of
  optional_iff n regs = elim (Option-cases (last_export n regs)) [
    | inl absent ↦ (λ h. inl absent, λ h. ground (arith, absent))
    | inr (t, last) ↦ elim (Bool-cases (same_func_type no_params_no_returns t)) [
      | inl same ↦
          let eq : no_params_no_returns ≡ t = (same_func_type_iff no_params_no_returns t).0 same in
          (λ h. inr (last ∙ ap some (sym eq)), λ h. ground (arith, last, same))
      | inr differs ↦ (
        λ h. absurd (ground (arith, last, differs, h)),
        λ h. elim h [
          | inl none_ ↦ absurd (ground (arith, last, none_))
          | inr some_ ↦
              let eq : t ≡ no_params_no_returns = ground (arith, last, some_) in
              absurd
                (ground (arith, differs, (same_func_type_iff no_params_no_returns t).1 (sym eq)))
        ],
      )
    ]
  ]

  -- However a module registers its imports and exports with a new validator, it does so without a
  -- panic if no declared function has several results; and the report is good exactly if every
  -- import has its declared type, and the last export of the name that the mode asks for has no
  -- parameters and no results: it must be there in a command, and may be missing in a reactor.
  pub register_all-report :
      (single : IsSingle x) (witx : List x.Document) (mode : Option WasiMode)
      (regs : List Registration)
      → (v : Validator x) × (register_all x regs (build x witx mode) ≡ ok v)
        × ((report x v ≡ ok tt) ↔ (AllDeclared x witx regs × ModeMet mode regs))
  unfolding build export_errors
  register_all-report single witx none regs =
      let (v, r) = register_all-Registered x single regs (build x witx none) in
      let empty : export_errors x v.exports ≡ [] = rw (r.nothing refl) refl in
      (
        v,
        r.run,
        (
          λ h. ((r.imports.0 ((report_iff v).0 h).0).1, tt),
          λ h. (report_iff v).1 (r.imports.1 (refl, h.0), empty),
        ),
      )
  register_all-report single witx (some command) regs =
      let (v, r) = register_all-Registered x single regs (build x witx (some command)) in
      let export = r.export "_start" (asked "_start" required) refl in
      let exports_iff = one_export "_start" (final x (asked "_start" required) "_start" regs) in
      let met = required_iff "_start" regs in
      (
        v,
        r.run,
        (
          λ h.
              let good = (report_iff v).0 h in
              (
                (r.imports.0 good.0).1,
                met.0 (exports_iff.0 (ap (export_errors x) (sym export) ∙ good.1)),
              ),
          λ h.
              (report_iff v).1
                (r.imports.1 (refl, h.0), ap (export_errors x) export ∙ exports_iff.1 (met.1 h.1)),
        ),
      )
  register_all-report single witx (some reactor) regs =
      let (v, r) = register_all-Registered x single regs (build x witx (some reactor)) in
      let export = r.export "_initialize" (asked "_initialize" optional) refl in
      let exports_iff =
        one_export "_initialize" (final x (asked "_initialize" optional) "_initialize" regs) in
      let met = optional_iff "_initialize" regs in
      (
        v,
        r.run,
        (
          λ h.
              let good = (report_iff v).0 h in
              (
                (r.imports.0 good.0).1,
                met.0 (exports_iff.0 (ap (export_errors x) (sym export) ∙ good.1)),
              ),
          λ h.
              (report_iff v).1
                (r.imports.1 (refl, h.0), ap (export_errors x) export ∙ exports_iff.1 (met.1 h.1)),
        ),
      )
