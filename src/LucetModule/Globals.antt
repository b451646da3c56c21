-- ===== src/LucetModule/Globals.antt =====
-- lucet-module/src/globals.rs. A constant is kept as its bit pattern.
use lucet.Prelude.{ℕ, Bool, true, false, List, [], ◌∷◌, String}

pub data GlobalDef : Type 0 where
  i32 i64 f32 f64 : ℕ → GlobalDef

pub data Global : Type 0 where
  def : GlobalDef → Global
  import : String → String → Global

-- The union `GlobalValue`, with the member that was written.
pub data GlobalValue : Type 0 where
  i_32 i_64 f_32 f_64 : ℕ → GlobalValue

unfoldable pub init_val : GlobalDef → GlobalValue
init_val (i32 i) = i_32 i
init_val (i64 i) = i_64 i
init_val (f32 f) = f_32 f
init_val (f64 f) = f_64 f

pub record GlobalSpec : Type 0 where
  pub global : Global
  pub export_names : List String

unfoldable pub new_def : ℕ → List String → GlobalSpec
new_def init export_names = record { global = def (i64 init); export_names = export_names }

unfoldable pub new_import : String → String → List String → GlobalSpec
new_import module_name field export_names = record {
  global = import module_name field;
  export_names = export_names;
}

unfoldable pub is_internal : GlobalSpec → Bool
is_internal g = elim g.export_names [ [] ↦ true | _ ∷ _ ↦ false ]
