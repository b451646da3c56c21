-- ===== src/Lucetc/Table.antt =====
-- lucetc/src/table.rs: the contents of the first table of a module.
pub mod Elements
pub mod Layout
use lucet.Prelude.{
  ℕ, zero, suc, ◌+◌, ◌*◌, ◌/◌, ◌%◌, ◌^◌, ◌-◌, Bool, true, false, not, Option, none, some, List, [],
  ◌∷◌, ◌++◌, String, ltb, length, get_elem?, set, replicate, checked_add_usize, usize_mod, is_none,
  Result, ok, err, panic, ◌>>=◌, ◌>>◌, fail_if, expect, assert,
}
use lucet.Lucetc.Error.{Error, unsupported, element_initializer_out_of_range}
use lucet.Lucetc.Wasm.{Clif, Table, TableElems, TableElementType, Exportable}
use lucet.Lucetc.Wasm
use lucet.Lucetc.Decls.Functions.{Declarer, ModuleDecls, get_func}

pub data Elem : Type 0 where
  func : ℕ → Elem
  empty : Elem

-- The inner loop: the elements are written from index `at` on.
unfoldable pub write_elements : ℕ → List ℕ → List Elem → List Elem
write_elements at [] elems = elems
write_elements at (func_ix ∷ rest) elems =
    write_elements (at + 1) rest (set elems at (func func_ix))

-- The loop over the initializers.
unfoldable pub place_elems : List TableElems → List Elem → Result Error (List Elem)
place_elems [] elems = ok elems
place_elems (initializer ∷ more) elems = do
  fail_if (not (is_none initializer.base)) (unsupported "table elements with global index base")
  final_len ← expect (checked_add_usize initializer.offset (length initializer.elements))
  fail_if (ltb (length elems) final_len) element_initializer_out_of_range
  place_elems more (write_elements initializer.offset initializer.elements elems)

abbrev is_func : TableElementType → Bool
is_func TableElementType.func = true
is_func TableElementType.val = false

unfoldable pub table_elements : Table → List TableElems → Result Error (List Elem)
table_elements table elems = do
  fail_if (not (is_func table.ty)) (unsupported "table with non-function elements")
  place_elems elems (replicate table.minimum empty)

-- `putelem`: eight bytes, the lowest first.
abbrev pub le_bytes : ℕ → ℕ → List ℕ
le_bytes zero n = []
le_bytes (suc k) n = (n % 256) ∷ le_bytes k (n / 256)

module _ (c : Clif) (d : Declarer c) where
  -- The unique signature of a function; `get_func` panics or finds it.
  unfoldable pub signature_index_of : ModuleDecls c d → ℕ → Result Error ℕ
  unfolding get_func
  signature_index_of decls func_index =
      (get_func c d func_index decls).0 >>= λ func. ok func.signature_index

  -- The bytes of a table and the places of the function addresses in it, each with its function,
  -- from `position` on.
  unfoldable pub write_entries :
      ModuleDecls c d → ℕ → List Elem → Result Error (List ℕ × List (ℕ × ℕ))
  write_entries decls position [] = ok ([], [])
  write_entries decls position (empty ∷ elems) = do
    (bytes, addrs) ← write_entries decls (position + 16) elems
    ok (le_bytes 8 (usize_mod - 1) ++ (le_bytes 8 0 ++ bytes), addrs)
  write_entries decls position (func func_index ∷ elems) = do
    signature_index ← signature_index_of decls func_index
    assert (ltb (position + 8) (2 ^ 32 - 1))
    (bytes, addrs) ← write_entries decls (position + 16) elems
    ok (le_bytes 8 signature_index ++ (le_bytes 8 0 ++ bytes), (position + 8, func_index) ∷ addrs)
