-- ===== src/Lucetc/Decls/Functions/Declared.antt =====
-- The symbols, imports and exports of a module's functions once they are declared.
use lucet.Prelude.{
  ℕ, zero, suc, ◌+◌, ◌≤◌, ◌<◌, ◌≡◌, refl, sym, ap, subst, ◌∙◌, arith, Option, some, List, [], ◌∷◌,
  ◌++◌, String, length, length-append, get_elem?, take, u32_mod, ◌==◌, ok, Option-cases, Bool-cases,
  inl, inr,
}
use mathlib.Core.List.{append_assoc}
use lucet.Prelude.Effects.{continue-eq-ok}
use lucet.LucetModule.Bindings.{Bindings}
use lucet.LucetModule.LinearMemory.{LinearMemorySpec}
use lucet.LucetModule.Globals.{GlobalSpec}
use lucet.Lucetc.Wasm.{Clif, Exportable}
use lucet.Lucetc.ModuleInfo.{ModuleInfo}
use lucet.Lucetc.ModuleInfo.Entries.{get_elem?-push, get_elem?_within}
use lucet.Lucetc.Decls.Functions.{
  Name, ExportFunction, Declarer, ModuleDecls, declare_func, declare_from, declare_funcs,
}
use lucet.Lucetc.Decls.Functions.Round.{
  imports_of, exported_as, exports_of, HasSymbol, with_import, with_export, after_round,
  declare_func-eq-ok,
}

take_all : {A : Type 0} (xs : List A) (n : ℕ) → length xs ≤ n → take n xs ≡ xs
take_all [] zero h = refl
take_all [] (suc n) h = refl
take_all (x ∷ xs) zero h = absurd (omega arith)
take_all (x ∷ xs) (suc n) h = ap (λ ys. x ∷ ys) (take_all xs n (omega arith))

module _ (c : Clif) (d : Declarer c) (bindings : Bindings) where
  imports_of-take :
      (xs : List (String × String)) (n k : ℕ)
      → imports_of k (take (suc n) xs)
        ≡ with_import c d bindings (get_elem? xs n) (k + n) (imports_of k (take n xs))
  imports_of-take [] zero k = refl
  imports_of-take [] (suc n) k = refl
  imports_of-take (x ∷ xs) zero k = ground arith
  imports_of-take (x ∷ xs) (suc n) k =
      ground (arith, imports_of-take xs n (k + 1), Option-cases (get_elem? xs n))

  with_export-append :
      (names : List String) (n : ℕ) (xs ys : List ExportFunction)
      → with_export c d bindings names n (xs ++ ys) ≡ xs ++ with_export c d bindings names n ys
  with_export-append [] n xs ys = refl
  with_export-append (name ∷ names) n xs ys = append_assoc xs ys _

  first_export :
      (names : List String) (k : ℕ)
      → exported_as k names ++ [] ≡ with_export c d bindings names (k + 0) []
  first_export [] k = refl
  first_export (name ∷ names) k = ground arith

  exports_of-take :
      (xs : List (Exportable ℕ)) (n k : ℕ) (e : Exportable ℕ)
      → get_elem? xs n ≡ some e
      → exports_of k (take (suc n) xs)
        ≡ with_export c d bindings e.export_names (k + n) (exports_of k (take n xs))
  exports_of-take [] n k e h = cc
  exports_of-take (x ∷ xs) zero k e h =
      let same : x ≡ e = ground arith in
      first_export x.export_names k
      ∙ ap (λ (y : Exportable ℕ). with_export c d bindings y.export_names (k + 0) []) same
  exports_of-take (x ∷ xs) (suc n) k e h =
      let next : k + suc n ≡ k + 1 + n = omega arith in
      rw (next, with_export-append e.export_names (k + 1 + n), exports_of-take xs n (k + 1) e h)
        refl

  -- What the declaration of functions leaves as it is.
  abbrev pub Rest : Type 0
  Rest = ModuleInfo c × Name × List Name × List GlobalSpec × Option LinearMemorySpec

  abbrev pub rest_of : ModuleDecls c d → Rest
  rest_of s = (s.info, s.tables_list_name, s.table_names, s.globals_spec, s.linear_memory_spec)

  -- Where the loop over the functions stands at an index.
  pub record IsDeclared (ix : ℕ) (s : ModuleDecls c d) : Type 0 where
    pub count : length s.function_names ≡ ix
    pub imports : s.imports ≡ imports_of 0 (take ix s.info.imported_funcs)
    pub exports : s.exports ≡ exports_of 0 (take ix s.info.functions)
    pub symbols :
        (j : ℕ) (n : Name) (e : Exportable ℕ)
        → get_elem? s.function_names j ≡ some n
        → get_elem? s.info.functions j ≡ some e
        → HasSymbol c d bindings
            (get_elem? s.info.imported_funcs j)
            e.export_names
            j
            s.info
            n.symbol

  after_round-IsDeclared :
      (s : ModuleDecls c d) (e : Exportable ℕ) (ix : ℕ) (symbol : String) (id : ℕ) (clifs : d.Clifs)
      → get_elem? s.info.functions ix ≡ some e
      → HasSymbol c d bindings (get_elem? s.info.imported_funcs ix) e.export_names ix s.info symbol
      → IsDeclared ix s
      → IsDeclared (suc ix) (
          after_round c d bindings s
            (get_elem? s.info.imported_funcs ix)
            e.export_names
            ix
            symbol
            id
            clifs)
  after_round-IsDeclared s e ix symbol id clifs at_ symbol_at inv =
      let name : Name = record { symbol = symbol; id = id } in
      let zero_ix : 0 + ix ≡ ix = omega arith in
      record {
        count = omega (arith, length-append s.function_names (name ∷ []), inv.count);
        imports =
            ap (with_import c d bindings (get_elem? s.info.imported_funcs ix) ix) inv.imports
            ∙ sym (
                imports_of-take s.info.imported_funcs ix 0
                ∙ ap
                    (λ (y : ℕ).
                      with_import c d bindings (get_elem? s.info.imported_funcs ix) y
                        (imports_of 0 (take ix s.info.imported_funcs)))
                    zero_ix);
        exports =
            ap (with_export c d bindings e.export_names ix) inv.exports
            ∙ sym (
                exports_of-take s.info.functions ix 0 e at_
                ∙ ap
                    (λ (y : ℕ).
                      with_export c d bindings e.export_names y
                        (exports_of 0 (take ix s.info.functions)))
                    zero_ix);
        symbols = λ j n e' h g.
            let pushed = get_elem?-push s.function_names name j in
            elim (Bool-cases (j == ix)) [
              | inl here ↦
                  let at_j : j ≡ ix = ground arith in
                  let this : n ≡ name = ground (arith, pushed, inv.count) in
                  let same : e' ≡ e = ground (arith, ap (get_elem? s.info.functions) at_j) in
                  rw (at_j, this, same) symbol_at
              | inr there ↦ inv.symbols j n e' (ground (arith, pushed, inv.count)) g
            ];
      }

  declare_func-IsDeclared :
      (ix r : ℕ) (s : ModuleDecls c d)
      → ix < length s.info.functions
      → length s.info.functions ≤ u32_mod
      → IsDeclared ix s
      → (declare_func c d bindings ix s).0 ≡ ok r
      → IsDeclared (suc ix) (declare_func c d bindings ix s).1
        × (rest_of (declare_func c d bindings ix s).1 ≡ rest_of s)
  declare_func-IsDeclared ix r s l small inv h =
      let (e, at_) = get_elem?_within s.info.functions ix l in
      let (symbol, id, clifs, symbol_at, final) =
        declare_func-eq-ok c d bindings ix r e s at_ inv.count (omega arith) h in
      rw final (after_round-IsDeclared s e ix symbol id clifs at_ symbol_at inv, refl)

  declare_from-IsDeclared :
      (rounds ix : ℕ) (s : ModuleDecls c d)
      → ix + rounds ≡ length s.info.functions
      → length s.info.functions ≤ u32_mod
      → IsDeclared ix s
      → (declare_from c d bindings rounds ix s).0 ≡ ok tt
      → IsDeclared (ix + rounds) (declare_from c d bindings rounds ix s).1
        × (rest_of (declare_from c d bindings rounds ix s).1 ≡ rest_of s)
  unfolding declare_from
  declare_from-IsDeclared zero ix s e small inv h =
      let same : ix + 0 ≡ ix = omega arith in rw same (inv, refl)
  declare_from-IsDeclared (suc rounds) ix s e small inv h =
      let one = declare_func c d bindings ix in
      let (r, first, then_) =
        continue-eq-ok (one s) (λ _. declare_from c d bindings rounds (ix + 1)) h in
      let (inv', kept) = declare_func-IsDeclared ix r s (omega arith) small inv first in
      let lengths : length (one s).1.info.functions ≡ length s.info.functions =
        ap (λ (i : Rest). length i.0.functions) kept in
      let next : suc ix ≡ ix + 1 = omega arith in
      let (done_, kept') =
        declare_from-IsDeclared rounds (ix + 1) (one s).1 (omega arith) (omega arith)
          (rw next at inv') (rw then_ at h) in
      let total : ix + suc rounds ≡ ix + 1 + rounds = omega arith in
      rw (then_, total) (done_, kept' ∙ kept)

  -- The functions of a module are all declared: as many names as functions, in their order, with
  -- the symbols that they should have; and the imports and exports, numbered by the functions.
  pub record AllDeclared (info : ModuleInfo c) (s : ModuleDecls c d) : Type 0 where
    pub same_info : s.info ≡ info
    pub count : length s.function_names ≡ length info.functions
    pub imports : s.imports ≡ imports_of 0 info.imported_funcs
    pub exports : s.exports ≡ exports_of 0 info.functions
    pub symbols :
        (j : ℕ) (n : Name) (e : Exportable ℕ)
        → get_elem? s.function_names j ≡ some n
        → get_elem? info.functions j ≡ some e
        → HasSymbol c d bindings (get_elem? info.imported_funcs j) e.export_names j info n.symbol

  declare_funcs-IsDeclared :
      (s : ModuleDecls c d)
      → s.function_names ≡ []
      → s.imports ≡ []
      → s.exports ≡ []
      → length s.info.functions ≤ u32_mod
      → (declare_funcs c d bindings s).0 ≡ ok tt
      → IsDeclared (length s.info.functions) (declare_funcs c d bindings s).1
        × (rest_of (declare_funcs c d bindings s).1 ≡ rest_of s)
  unfolding declare_funcs
  declare_funcs-IsDeclared s no_names no_imports no_exports small h =
      let start : IsDeclared 0 s = record {
        count = ground (arith, no_names);
        imports = no_imports;
        exports = no_exports;
        symbols = λ j nm e q g. absurd (ground (arith, no_names, q));
      } in
      let zero_n : 0 + length s.info.functions ≡ length s.info.functions = omega arith in
      let (inv, rest) =
        declare_from-IsDeclared (length s.info.functions) 0 s zero_n small start h in
      (subst (λ (k : ℕ). IsDeclared k (declare_funcs c d bindings s).1) zero_n inv, rest)

  pub declare_funcs_rest :
      (s : ModuleDecls c d)
      → s.function_names ≡ []
      → s.imports ≡ []
      → s.exports ≡ []
      → length s.info.functions ≤ u32_mod
      → (declare_funcs c d bindings s).0 ≡ ok tt
      → rest_of (declare_funcs c d bindings s).1 ≡ rest_of s
  declare_funcs_rest s no_names no_imports no_exports small h =
      (declare_funcs-IsDeclared s no_names no_imports no_exports small h).1

  -- If the declaration of a module's functions succeeds, where none was declared before, each
  -- function has a name at its own index. Its symbol is what the bindings translate its import to,
  -- or else the one made from its first export, or else from its custom name or its index. The
  -- imports and the exported functions are listed in order, each with the index of its function, an
  -- import that is exported too among both; and the module's declarations have not changed.
  pub declare_funcs-AllDeclared :
      (s : ModuleDecls c d)
      → s.function_names ≡ []
      → s.imports ≡ []
      → s.exports ≡ []
      → length s.info.imported_funcs ≤ length s.info.functions
      → length s.info.functions ≤ u32_mod
      → (declare_funcs c d bindings s).0 ≡ ok tt
      → AllDeclared s.info (declare_funcs c d bindings s).1
  declare_funcs-AllDeclared s no_names no_imports no_exports fewer small h =
      let n : ℕ = length s.info.functions in
      let (inv, rest) = declare_funcs-IsDeclared s no_names no_imports no_exports small h in
      let kept : (declare_funcs c d bindings s).1.info ≡ s.info = ap (λ (r : Rest). r.0) rest in
      record {
        same_info = kept;
        count = inv.count;
        imports =
            inv.imports
            ∙ ap (λ (i : ModuleInfo c). imports_of 0 (take n i.imported_funcs)) kept
            ∙ ap (imports_of 0) (take_all s.info.imported_funcs n (omega arith));
        exports =
            inv.exports
            ∙ ap (λ (i : ModuleInfo c). exports_of 0 (take n i.functions)) kept
            ∙ ap (exports_of 0) (take_all s.info.functions n (omega arith));
        symbols = λ j nm e q g.
            subst
              (λ (i : ModuleInfo c).
                HasSymbol c d bindings (get_elem? i.imported_funcs j) e.export_names j i nm.symbol)
              kept
              (inv.symbols j nm e q (ap (λ (i : ModuleInfo c). get_elem? i.functions j) kept ∙ g));
      }
