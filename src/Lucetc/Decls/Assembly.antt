-- ===== src/Lucetc/Decls/Assembly.antt =====
-- The tables of lucetc/src/decls.rs, and how the declarations of a module are made from what was
-- collected of it.
pub mod Extended
pub mod Recorded
pub mod Made
use Prim.Native.String.{◌++◌ as str_append}
use lucet.Prelude.{
  ℕ, zero, suc, ◌+◌, ◌≡◌, Option, none, some, List, [], ◌∷◌, ◌++◌, String, length, get_elem?,
  Result, ok, err, panic, expect, ok_or,
}
use lucet.Prelude.Effects.{Eff, ◌>>=◌, ◌>>◌, pure, lift, get, put}
use lucet.LucetModule.Bindings.{Bindings}
use lucet.Lucetc.Error.{Error, table_index_error, unsupported, signature_error}
use lucet.Lucetc.Wasm.{Clif, IrSignature, Table, TableElems, Exportable}
use lucet.Lucetc.ModuleInfo.{ModuleInfo}
use lucet.Lucetc.Decls.{HeapSettings, build_globals_spec, build_linear_memory_spec}
use lucet.Lucetc.Decls.Functions.{
  Linkage, local, Name, Declarer, ModuleDecls, RuntimeFunc, RuntimeFuncType, declare_funcs,
  declare_runtime, get_signature_uid,
}

module _ (c : Clif) (d : Declarer c) where
  abbrev pub guest_table : ℕ → String
  guest_table ix = str_append "guest_table_" (d.digits ix)

  -- The loop over the tables, from an index on.
  unfoldable pub declare_tables_from : ℕ → ℕ → List Name → Eff d.Clifs Error (List Name)
  declare_tables_from zero ix table_names = pure table_names
  declare_tables_from (suc rounds) ix table_names = do
    def_data_id ← d.declare_data (guest_table ix) local
    declare_tables_from rounds (ix + 1)
        (table_names ++ record { symbol = guest_table ix; id = def_data_id } ∷ [])

  unfoldable pub declare_tables : ModuleInfo c → Eff d.Clifs Error (Name × List Name)
  unfolding declare_tables_from
  declare_tables info = do
    table_names ← declare_tables_from (length info.tables) 0 []
    tables_list_id ← d.declare_data "lucet_tables" local
    pure (record { symbol = "lucet_tables"; id = tables_list_id }, table_names)

  abbrev pub declared_as :
      Result Error (Unit {0}) → ModuleDecls c d → Result Error (ModuleDecls c d)
  declared_as (ok u) decls = ok decls
  declared_as (err e) decls = err e
  declared_as panic decls = panic

  unfoldable pub new :
      ModuleInfo c
      → Bindings
      → List (RuntimeFunc × RuntimeFuncType c d)
      → HeapSettings
      → Eff d.Clifs Error (ModuleDecls c d)
  new info bindings runtime heap_settings = do
    tables ← declare_tables info
    globals_spec ← lift (build_globals_spec c info)
    linear_memory_spec ← lift (build_linear_memory_spec c info heap_settings)
    clifs ← get
    let decls : ModuleDecls c d = record {
      info = info;
      function_names = [];
      imports = [];
      exports = [];
      tables_list_name = tables.0;
      table_names = tables.1;
      runtime_names = λ f. none;
      globals_spec = globals_spec;
      linear_memory_spec = linear_memory_spec;
      clifs = clifs;
    }
    let made = (declare_funcs c d bindings >> declare_runtime c d runtime) decls
    put made.1.clifs
    lift (declared_as made.0 made.1)

  pub record TableDecl : Type 0 where
    pub import_name : Option (String × String)
    pub export_names : List String
    pub table : Table
    pub elems : List TableElems
    pub contents_name : Name

  unfoldable pub get_table : ℕ → Eff (ModuleDecls c d) Error TableDecl
  get_table table_index = do
    s ← get
    contents_name ← lift (ok_or (get_elem? s.table_names table_index) table_index_error)
    exportable_tbl ← lift (expect (get_elem? s.info.tables table_index))
    elems ← lift (ok_or (s.info.table_elems table_index) (unsupported "table is not local"))
    pure (record {
      import_name = get_elem? s.info.imported_tables table_index;
      export_names = exportable_tbl.export_names;
      table = exportable_tbl.entity;
      elems = elems;
      contents_name = contents_name;
    })

  unfoldable pub get_signature : ℕ → Eff (ModuleDecls c d) Error (IrSignature c)
  unfolding get_signature_uid
  get_signature signature_index = do
    s ← get
    uid ← lift (get_signature_uid c d signature_index s)
    signature ← lift (ok_or (get_elem? s.info.signatures uid) signature_error)
    pure signature.0
