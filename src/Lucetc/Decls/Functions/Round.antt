-- ===== src/Lucetc/Decls/Functions/Round.antt =====
-- What one round of the loop over the functions does when it succeeds.
use Prim.Native.String.{◌++◌ as str_append}
use lucet.Prelude.{
  ℕ, ◌+◌, ◌<◌, ◌≡◌, refl, arith, Option, none, some, List, [], ◌∷◌, ◌++◌, String, length, get_elem?,
  as_u32, u32_mod, ok, ok-cases, Option-cases, inl, inr, expect,
}
use lucet.Prelude.Effects.{continue}
use lucet.LucetModule.Bindings.{Bindings, translate}
use lucet.Lucetc.Wasm.{Clif, Exportable}
use lucet.Lucetc.ModuleInfo.{ModuleInfo, signature_for_function}
use lucet.Lucetc.Decls.Functions.{
  Linkage, ImportFunction, ExportFunction, Declarer, ModuleDecls, guest_func, unwrap_name,
  custom_name_for, push_export, export_name_for, push_import, import_name_for, declare_function,
  symbol_and_linkage, declare_func,
}

-- The imports and exports of a list, numbered from an index on.
abbrev pub imports_of : ℕ → List (String × String) → List ImportFunction
imports_of k [] = []
imports_of k ((m, f) ∷ rest) =
    record { fn_idx = k; module_ = m; name = f } ∷ imports_of (k + 1) rest

abbrev pub exported_as : ℕ → List String → List ExportFunction
exported_as k [] = []
exported_as k (name ∷ names) = record { fn_idx = k; names = name ∷ names } ∷ []

abbrev pub exports_of : ℕ → List (Exportable ℕ) → List ExportFunction
exports_of k [] = []
exports_of k (e ∷ rest) = exported_as k e.export_names ++ exports_of (k + 1) rest

pair_of : {A B : Type 0} (p : A × B) {a : A} {b : B} → p.0 ≡ a → p.1 ≡ b → p ≡ (a, b)
pair_of p e e' = λ i. (e i, e' i)

module _ (c : Clif) (d : Declarer c) (bindings : Bindings) where
  -- The symbol that a function without an import is given.
  abbrev pub own_symbol : List String → ℕ → ModuleInfo c → String
  own_symbol (name ∷ names) ix info = guest_func c d name
  own_symbol [] ix info = elim (get_elem? info.function_names ix) [
    | none ↦ guest_func c d (d.digits ix)
    | some name ↦ str_append (str_append name "_") (d.digits ix)
  ]

  -- The symbol of the function at an index: what the bindings translate its import to, if it is
  -- one, or else its own.
  abbrev pub HasSymbol : Option (String × String) → List String → ℕ → ModuleInfo c → String → Type 0
  HasSymbol (some (m, f)) names ix info symbol = translate bindings m f ≡ ok symbol
  HasSymbol none names ix info symbol = symbol ≡ own_symbol names ix info

  pub declare_function-eq-ok :
      (symbol : String) (linkage : Linkage) (ix r : ℕ) (s : ModuleDecls c d)
      → length s.function_names ≡ ix
      → (declare_function c d symbol linkage ix s).0 ≡ ok r
      → (id : ℕ) × (clifs : d.Clifs) × ((declare_function c d symbol linkage ix s).1 ≡ record s {
        function_names = s.function_names ++ record { symbol = symbol; id = id } ∷ [];
        clifs = clifs;
      })
  unfolding declare_function
  declare_function-eq-ok symbol linkage ix r s len h =
      elim (ok-cases (signature_for_function c ix s.info)) [
        | inl (sig, e) ↦ elim (ok-cases (d.declare_function symbol linkage sig.0 s.clifs).0) [
          | inl (id, e') ↦
              (id, (d.declare_function symbol linkage sig.0 s.clifs).1, ground (arith, e, e', len))
          | inr bad ↦ absurd (ground (arith, e, bad, h))
        ]
        | inr bad ↦ absurd (ground (arith, bad, h))
      ]

  abbrev pub with_import : Option (String × String) → ℕ → List ImportFunction → List ImportFunction
  with_import none ix imports = imports
  with_import (some (m, f)) ix imports =
      imports ++ record { fn_idx = ix; module_ = m; name = f } ∷ []

  abbrev pub with_export : List String → ℕ → List ExportFunction → List ExportFunction
  with_export [] ix exports = exports
  with_export (name ∷ names) ix exports =
      exports ++ record { fn_idx = ix; names = name ∷ names } ∷ []

  -- The symbol that the import gives, if there is one.
  abbrev ImportSymbol : Option (String × String) → Option String → Type 0
  ImportSymbol none o = o ≡ none
  ImportSymbol (some (m, f)) o =
      (symbol : String) × (o ≡ some symbol) × (translate bindings m f ≡ ok symbol)

  push_import-eq-ok :
      (i : Option (String × String)) (o : Option String) (ix : ℕ) (s : ModuleDecls c d)
      → as_u32 (length s.function_names) ≡ ix
      → (push_import c d bindings i s).0 ≡ ok o
      → ImportSymbol i o
        × ((push_import c d bindings i s).1 ≡ record s { imports = with_import i ix s.imports })
  push_import-eq-ok none o ix s len h = (ground arith, refl)
  push_import-eq-ok (some (m, f)) o ix s len h = elim (ok-cases (translate bindings m f)) [
    | inl (symbol, e) ↦ ((symbol, ground (arith, e, h), e), ground (arith, e, len))
    | inr bad ↦ absurd (ground (arith, bad, h))
  ]

  abbrev export_symbol : List String → Option String
  export_symbol [] = none
  export_symbol (name ∷ names) = some (guest_func c d name)

  push_export-eq-ok :
      (names : List String) (ix : ℕ) (s : ModuleDecls c d)
      → as_u32 (length s.function_names) ≡ ix
      → push_export c d names s
        ≡ (ok (export_symbol names), record s { exports = with_export names ix s.exports })
  push_export-eq-ok [] ix s len = refl
  push_export-eq-ok (name ∷ names) ix s len = rw len refl

  -- The symbol and the new state of a round.
  abbrev pub after_round :
      ModuleDecls c d
      → Option (String × String)
      → List String
      → ℕ
      → String
      → ℕ
      → d.Clifs
      → ModuleDecls c d
  after_round s i names ix symbol id clifs = record s {
    function_names = s.function_names ++ record { symbol = symbol; id = id } ∷ [];
    imports = with_import i ix s.imports;
    exports = with_export names ix s.exports;
    clifs = clifs;
  }

  abbrev chosen : Option String → List String → ℕ → ModuleInfo c → String × Linkage
  chosen o names ix info = symbol_and_linkage c d o (export_symbol names) (
      unwrap_name c d
        (elim (get_elem? info.function_names ix) [
          | none ↦ none
          | some name ↦ some (str_append (str_append name "_") (d.digits ix))
        ])
        (guest_func c d (d.digits ix)))

  chosen-HasSymbol :
      (i : Option (String × String)) (o : Option String) (names : List String) (ix : ℕ)
      (info : ModuleInfo c)
      → ImportSymbol i o
      → HasSymbol i names ix info (chosen o names ix info).0
  chosen-HasSymbol none o [] ix info h = elim (Option-cases (get_elem? info.function_names ix)) [
    | inl e ↦ ground (arith, e, h)
    | inr (name, e) ↦ ground (arith, e, h)
  ]
  chosen-HasSymbol none o (name ∷ names) ix info h = ground (arith, h)
  chosen-HasSymbol (some (m, f)) o names ix info (symbol, e, t) = rw e t

  pub declare_func-eq-ok :
      (ix r : ℕ) (e : Exportable ℕ) (s : ModuleDecls c d)
      → get_elem? s.info.functions ix ≡ some e
      → length s.function_names ≡ ix
      → ix < u32_mod
      → (declare_func c d bindings ix s).0 ≡ ok r
      → let i = get_elem? s.info.imported_funcs ix in
        (symbol : String) × (id : ℕ) × (clifs : d.Clifs) × HasSymbol i e.export_names ix s.info
          symbol
        × ((declare_func c d bindings ix s).1 ≡ after_round s i e.export_names ix symbol id clifs)
  unfolding declare_func import_name_for export_name_for custom_name_for
  declare_func-eq-ok ix r e s at_ len small h =
      let i = get_elem? s.info.imported_funcs ix in
      let as_ix : as_u32 (length s.function_names) ≡ ix = omega arith in
      elim (ok-cases (push_import c d bindings i s).0) [
        | inl (o, first) ↦
            let (symbol_at, s1) = push_import-eq-ok i o ix s as_ix first in
            let s' : ModuleDecls c d = record s { imports = with_import i ix s.imports } in
            let s'' : ModuleDecls c d = record s' {
              exports = with_export e.export_names ix s.exports;
            } in
            let exported_at = push_export-eq-ok e.export_names ix s' as_ix in
            let choice = chosen o e.export_names ix s.info in
            let pushed : push_import c d bindings i s ≡ (ok o, s') = pair_of _ first s1 in
            let runs : declare_func c d bindings ix s
                ≡ declare_function c d choice.0 choice.1 ix s'' =
              rw (pushed, continue, at_, expect, exported_at) refl in
            let (id, clifs, final) =
              declare_function-eq-ok choice.0 choice.1 ix r s'' len (rw runs at h) in
            (
              choice.0,
              id,
              clifs,
              chosen-HasSymbol i o e.export_names ix s.info symbol_at,
              rw runs final,
            )
        | inr bad ↦ absurd (ground (arith, bad, h))
      ]
