-- ===== src/Tests/Tables.antt =====
-- Globals, a table and the counting of a function body.
use lucet.Prelude.{ℕ, ◌≡◌, refl, arith, true, none, List, [], ◌∷◌, ok}
use lucet.LucetModule.Globals.{GlobalSpec, Global}
use lucet.LucetModule.Globals
use lucet.Lucetc.Wasm.{Table, TableElems, TableElementType, i32_const, get_global, import}
use lucet.Lucetc.ModuleInfo.{ModuleInfo}
use lucet.Lucetc.Decls.{global_of, globals_from, build_globals_spec}
use lucet.Lucetc.Table.{func, empty, write_elements, place_elems, table_elements, write_entries}
use lucet.Lucetc.Table.Elements.{IsTable, table_elements-IsTable}
use lucet.Lucetc.Table.Layout.{IsLayout, write_entries-IsLayout}
use lucet.Lucetc.InstructionCount.{
  loop, end_, br_if, call, other, op_cost, Counting, instrumentation_before_func,
}
use lucet.Lucetc.InstructionCount.Conserved.{emitted}
use lucet.Lucetc.InstructionCount.Body.{Body, WellNested, total, instrumented, body-total}
use lucet.Tests.Compiler.{clif, typed_info}
use lucet.Tests.Functions.{counting, declared, three-IsValid}

abbrev global_info : ModuleInfo clif
global_info = record typed_info {
  imported_globals = ("env", "base") ∷ [];
  globals =
      record { entity = import; export_names = [] }
      ∷ record { entity = get_global 0; export_names = "copy" ∷ [] }
      ∷ record { entity = i32_const 7; export_names = [] }
      ∷ [];
}

abbrev three_globals : List GlobalSpec
three_globals =
    record { global = Globals.import "env" "base"; export_names = [] }
    ∷ record { global = Globals.import "env" "base"; export_names = "copy" ∷ [] }
    ∷ record { global = Globals.def (Globals.i32 7); export_names = [] }
    ∷ []

globals_run : build_globals_spec clif global_info ≡ ok three_globals
unfolding build_globals_spec globals_from global_of
globals_run = refl

abbrev three_entries : Table
three_entries = record { ty = TableElementType.func; minimum = 3; maximum = none }

abbrev two_elems : List TableElems
two_elems =
    record { base = none; offset = 0; elements = 1 ∷ 0 ∷ [] }
    ∷ record { base = none; offset = 0; elements = 0 ∷ [] }
    ∷ []

table_runs : table_elements three_entries two_elems ≡ ok (func 0 ∷ func 0 ∷ empty ∷ [])
unfolding table_elements place_elems write_elements
table_runs = refl

table_example : IsTable three_entries two_elems (func 0 ∷ func 0 ∷ empty ∷ [])
table_example =
    table_elements-IsTable three_entries two_elems refl (omega arith, (omega arith, tt)) _
      table_runs

entries_example :
    (out : List ℕ × List (ℕ × ℕ)) × (write_entries clif counting declared 0 (func 0 ∷ empty ∷ [])
      ≡ ok out)
    × IsLayout clif counting declared (func 0 ∷ empty ∷ []) 0 out
entries_example =
    write_entries-IsLayout clif counting declared (func 0 ∷ empty ∷ []) 0 three-IsValid
      (omega arith) (omega arith) (omega arith, tt) (omega arith)

-- A loop with a call and a branch back, and the end of the function.
abbrev looping : Body
looping =
    (loop, true) ∷ (other, true) ∷ (call, true) ∷ (br_if 0, true) ∷ (end_, true) ∷ (end_, true) ∷ []

body_example :
    (st' : Counting) × (instrumented true looping (instrumentation_before_func true) ≡ ok st')
    × (st'.0 ≡ [])
    × (emitted st'.1 ≡ total true looping)
unfolding op_cost
body_example = body-total looping nested (ground arith)
  where
    nested : WellNested 1 true looping
    nested = (
      omega arith,
      tt,
      refl,
      (
        omega arith,
        tt,
        refl,
        (
          omega arith,
          tt,
          refl,
          (omega arith, omega arith, refl, (omega arith, tt, tt, (omega arith, tt, tt, refl))),
        ),
      ),
    )

looping_sum : total true looping ≡ 4
unfolding op_cost
looping_sum = refl
