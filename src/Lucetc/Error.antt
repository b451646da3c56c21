-- ===== src/Lucetc/Error.antt =====
-- lucetc/src/error.rs. An error keeps its kind; arguments that are only shown are left out.
use lucet.Prelude.{ℕ, String}
use lucet.LucetModule.Bindings
use lucet.Lucetc.Types.{SignatureError}

pub data Error : Type 0 where
  unsupported : String → Error
  -- The reserved size and the maximum of it.
  memory_specs : ℕ → ℕ → Error
  init_data incorrect_page_size element_initializer_out_of_range : Error
  function_index_error table_index_error : Error
  global_declaration_error global_init_error global_unsupported : ℕ → Error
  translation : Error
  clif_module_error signature_error : Error
  lucet_module : Bindings.Error → Error
  signature_conversion : SignatureError → Error
