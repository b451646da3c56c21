-- ===== src/Lucetc/Decls/Assembly/Made.antt =====
-- The declarations of a module, against what was collected of it.
use lucet.Prelude.{
  ℕ, zero, suc, ◌+◌, ◌≤◌, ◌<◌, ◌≡◌, refl, sym, ap, subst, ◌∙◌, arith, Bool-cases, Option, none,
  some, List, [], ◌∷◌, ◌++◌, length, length-append, get_elem?, u32_mod, ◌==◌, Result, ok, ok-cases,
  inl, inr,
}
use lucet.Prelude.Effects.{continue-eq-ok, ◌>>◌}
use lucet.LucetModule.Bindings.{Bindings}
use lucet.LucetModule.LinearMemory.{LinearMemorySpec}
use lucet.LucetModule.Globals.{GlobalSpec}
use lucet.Lucetc.Error.{Error}
use lucet.Lucetc.Wasm.{Clif, Exportable}
use lucet.Lucetc.ModuleInfo.{ModuleInfo}
use lucet.Lucetc.ModuleInfo.Entries.{get_elem?-push, get_elem?_within, get_elem?_lt}
use lucet.Lucetc.Decls.{HeapSettings, build_globals_spec, build_linear_memory_spec}
use lucet.Lucetc.Decls.Functions.{
  local, Name, Declarer, ModuleDecls, RuntimeFunc, RuntimeFuncType, declare_funcs, declare_runtime,
}
use lucet.Lucetc.Decls.Functions.Round.{imports_of, exports_of, HasSymbol}
use lucet.Lucetc.Decls.Functions.Declared.{declare_funcs_rest, declare_funcs-AllDeclared}
use lucet.Lucetc.Decls.Assembly.{guest_table, declare_tables_from, declare_tables, declared_as, new}
use lucet.Lucetc.Decls.Assembly.Recorded.{Distinct, RuntimeFrom, declare_runtime-RuntimeFrom}
use lucet.Lucetc.Decls.Assembly.Extended.{declare_runtime-Extends}

module _ (c : Clif) (d : Declarer c) where
  -- The tables are named by their index.
  abbrev pub Tabled : List Name → Type 0
  Tabled names = (j : ℕ) (n : Name) → get_elem? names j ≡ some n → n.symbol ≡ guest_table c d j

  declare_tables_from-Tabled :
      (rounds ix : ℕ) (names names' : List Name) (clifs : d.Clifs)
      → length names ≡ ix
      → Tabled names
      → (declare_tables_from c d rounds ix names clifs).0 ≡ ok names'
      → (length names' ≡ ix + rounds) × Tabled names'
  unfolding declare_tables_from
  declare_tables_from-Tabled zero ix names names' clifs len all h =
      let same : names ≡ names' = ground arith in
      (omega (arith, ap length same), subst Tabled same all)
  declare_tables_from-Tabled (suc rounds) ix names names' clifs len all h =
      let name : ℕ → Name = λ id. record { symbol = guest_table c d ix; id = id } in
      let one = d.declare_data (guest_table c d ix) local in
      let (id, first, then_) =
        continue-eq-ok (one clifs)
          (λ id. declare_tables_from c d rounds (ix + 1) (names ++ name id ∷ [])) h in
      let pushed : Tabled (names ++ name id ∷ []) = λ j n at_.
        let found = get_elem?-push names (name id) j in
        elim (Bool-cases (j == ix)) [
          | inl here ↦
              let at_j : j ≡ ix = ground arith in
              let this : n ≡ name id = ground (arith, found, len) in rw (at_j, this) refl
          | inr there ↦ all j n (ground (arith, found, len))
        ] in
      let (count, all') =
        declare_tables_from-Tabled rounds (ix + 1) (names ++ name id ∷ []) names' (one clifs).1
          (omega (arith, length-append names (name id ∷ []))) pushed (rw then_ at h) in
      (omega arith, all')

  declare_tables-Tabled :
      (info : ModuleInfo c) (tables : Name × List Name) (clifs : d.Clifs)
      → (declare_tables c d info clifs).0 ≡ ok tables
      → (length tables.1 ≡ length info.tables) × Tabled tables.1
  unfolding declare_tables
  declare_tables-Tabled info tables clifs h =
      let loop = declare_tables_from c d (length info.tables) 0 [] in
      let zero_n : 0 + length info.tables ≡ length info.tables = omega arith in
      elim (ok-cases (loop clifs).0) [
        | inl (names, e) ↦
            let (count, all) =
              declare_tables_from-Tabled (length info.tables) 0 [] names clifs refl (λ j n at_. cc)
                e in
            elim (ok-cases (d.declare_data "lucet_tables" local (loop clifs).1).0) [
              | inl (id, e') ↦
                  let same : names ≡ tables.1 = ground (arith, e, e', h) in
                  subst (λ (t : List Name). (length t ≡ length info.tables) × Tabled t) same
                    (count ∙ zero_n, all)
              | inr bad ↦ absurd (ground (arith, e, bad, h))
            ]
        | inr bad ↦ absurd (ground (arith, bad, h))
      ]

  -- The declarations of a module: its tables, globals and memory, its functions with their imports
  -- and exports, and the runtime's functions after them.
  pub record IsMade (info : ModuleInfo c) (bindings : Bindings)
      (runtime : List (RuntimeFunc × RuntimeFuncType c d)) (settings : HeapSettings)
      (s : ModuleDecls c d) : Type 0 where
    pub tables : length s.table_names ≡ length info.tables
    pub tabled : Tabled s.table_names
    pub globals : build_globals_spec c info ≡ ok s.globals_spec
    pub memory : build_linear_memory_spec c info settings ≡ ok s.linear_memory_spec
    pub imports : s.imports ≡ imports_of 0 info.imported_funcs
    pub exports : s.exports ≡ exports_of 0 info.functions
    pub functions :
        (j : ℕ) (e : Exportable ℕ)
        → get_elem? info.functions j ≡ some e
        → (n : Name) × (get_elem? s.function_names j ≡ some n)
          × HasSymbol c d bindings (get_elem? info.imported_funcs j) e.export_names j info n.symbol
    pub count : length s.function_names ≡ length info.functions + length runtime
    pub runtime_functions : RuntimeFrom c d runtime (length info.functions) s

  -- The declarations before those of functions.
  abbrev before :
      ModuleInfo c
      → Name × List Name
      → List GlobalSpec
      → Option LinearMemorySpec
      → d.Clifs
      → ModuleDecls c d
  before info tables globals memory clifs = record {
    info = info;
    function_names = [];
    imports = [];
    exports = [];
    tables_list_name = tables.0;
    table_names = tables.1;
    runtime_names = λ f. none;
    globals_spec = globals;
    linear_memory_spec = memory;
    clifs = clifs;
  }

  abbrev all_functions :
      Bindings
      → List (RuntimeFunc × RuntimeFuncType c d)
      → ModuleDecls c d
      → Result Error (Unit {0}) × ModuleDecls c d
  all_functions bindings runtime = declare_funcs c d bindings >> declare_runtime c d runtime

  all_functions-IsMade :
      (bindings : Bindings) (runtime : List (RuntimeFunc × RuntimeFuncType c d))
      (settings : HeapSettings) (s : ModuleDecls c d)
      → s.function_names ≡ []
      → s.imports ≡ []
      → s.exports ≡ []
      → length s.info.imported_funcs ≤ length s.info.functions
      → length s.info.functions + length runtime ≤ u32_mod
      → Distinct c d runtime
      → (length s.table_names ≡ length s.info.tables) × Tabled s.table_names
      → build_globals_spec c s.info ≡ ok s.globals_spec
      → build_linear_memory_spec c s.info settings ≡ ok s.linear_memory_spec
      → (all_functions bindings runtime s).0 ≡ ok tt
      → IsMade s.info bindings runtime settings (all_functions bindings runtime s).1
  all_functions-IsMade bindings runtime settings s names imports exports fewer small distinct tables
        globals memory h =
      let (u, first, then_) =
        continue-eq-ok (declare_funcs c d bindings s) (λ _. declare_runtime c d runtime) h in
      let s' : ModuleDecls c d = (declare_funcs c d bindings s).1 in
      let all =
        declare_funcs-AllDeclared c d bindings s names imports exports fewer (omega arith) first in
      let rest = declare_funcs_rest c d bindings s names imports exports (omega arith) first in
      let extends = declare_runtime-Extends c d runtime s' (rw then_ at h) in
      let same_tables = ap (λ f. f.3) extends.fixed ∙ ap (λ r. r.2) rest in
      let same_globals = ap (λ f. f.4) extends.fixed ∙ ap (λ r. r.3) rest in
      let same_memory = ap (λ f. f.5) extends.fixed ∙ ap (λ r. r.4) rest in
      let same_info = ap (λ r. r.0) rest in
      let functions_kept : length s'.info.functions ≡ length s.info.functions =
        ap (λ (i : ModuleInfo c). length i.functions) same_info in
      let (runtimes, aligned) =
        declare_runtime-RuntimeFrom c d runtime (length s.info.functions) s' distinct
          (all.count, functions_kept) small (rw then_ at h) in
      rw then_ (record {
        tables = ap length same_tables ∙ tables.0;
        tabled = subst Tabled (sym same_tables) tables.1;
        globals = globals ∙ ap ok (sym same_globals);
        memory = memory ∙ ap ok (sym same_memory);
        imports = ap (λ f. f.0) extends.fixed ∙ all.imports;
        exports = ap (λ f. f.1) extends.fixed ∙ all.exports;
        functions = λ j e at_.
            let within : j < length s.info.functions = get_elem?_lt s.info.functions j e at_ in
            let (n, named) = get_elem?_within s'.function_names j (omega (arith, all.count)) in
            (n, extends.names j n named, all.symbols j n e named at_);
        count = aligned.0;
        runtime_functions = runtimes;
      })

  -- Where the declarations of a module are made, with distinct functions of the runtime, at most 2^32
  -- functions in all, and no more imported functions than functions: they have a table for each of
  -- the module's tables, named by its index, the specifications of its globals and its memory, its
  -- imports and exports, each with the index of its function, and for each function a name at its own
  -- index with the symbol of its import, or else of its first export, or else of its custom name or
  -- its index. The runtime's functions follow in their order, each under its own symbol, the map of
  -- them has their indices, and there are no other names.
  pub new-IsMade :
      (info : ModuleInfo c) (bindings : Bindings)
      (runtime : List (RuntimeFunc × RuntimeFuncType c d)) (settings : HeapSettings)
      (clifs : d.Clifs) (decls : ModuleDecls c d)
      → length info.imported_funcs ≤ length info.functions
      → length info.functions + length runtime ≤ u32_mod
      → Distinct c d runtime
      → (new c d info bindings runtime settings clifs).0 ≡ ok decls
      → IsMade info bindings runtime settings decls
  unfolding new
  new-IsMade info bindings runtime settings clifs decls fewer small distinct h =
      let clifs' = (declare_tables c d info clifs).1 in
      elim (ok-cases (declare_tables c d info clifs).0) [
        | inl (tables, e) ↦ elim (ok-cases (build_globals_spec c info)) [
          | inl (globals, e_g) ↦ elim (ok-cases (build_linear_memory_spec c info settings)) [
            | inl (memory, e_m) ↦
                let s : ModuleDecls c d = before info tables globals memory clifs' in
                let made = all_functions bindings runtime s in
                let as_decls : declared_as c d made.0 made.1 ≡ ok decls = rw (e, e_g, e_m) at h in
                elim (ok-cases made.0) [
                  | inl (u, done_) ↦
                      let same : made.1 ≡ decls = ground (arith, done_, as_decls) in
                      subst (IsMade info bindings runtime settings) same (
                        all_functions-IsMade bindings runtime settings s refl refl refl fewer small
                          distinct (declare_tables-Tabled info tables clifs e) e_g e_m done_)
                  | inr bad ↦ absurd (ground (arith, bad, as_decls))
                ]
            | inr bad ↦ absurd (ground (arith, e, e_g, bad, h))
          ]
          | inr bad ↦ absurd (ground (arith, e, bad, h))
        ]
        | inr bad ↦ absurd (ground (arith, bad, h))
      ]
