-- ===== src/LucetModule/LinearMemory.antt =====
-- lucet-module/src/linear_memory.rs: the heap of a module and its initial contents, by pages.
pub mod Pages
use lucet.Prelude.{
  ℕ, Bool, true, Option, none, some, List, ◌==◌, length, get_or, all, Result, ok, err,
  if◌then◌else◌,
}

-- All sizes are in bytes and 64 bits wide.
pub record HeapSpec : Type 0 where
  pub reserved_size : ℕ
  pub guard_size : ℕ
  pub initial_size : ℕ
  pub max_size : Option ℕ

unfoldable pub empty : HeapSpec
empty = record { reserved_size = 0; guard_size = 0; initial_size = 0; max_size = none }

pub data Error : Type 0 where
  incorrect_page_size : Error

abbrev pub sparse_page_size : ℕ
sparse_page_size = 4096

-- `none` is a page of zeros. `SparseData` borrows what `OwnedSparseData` holds.
pub record SparseData : Type 0 where
  pub pages : List (Option (List ℕ))

abbrev pub is_page : Option (List ℕ) → Bool
is_page (some contents) = length contents == sparse_page_size
is_page none = true

unfoldable pub new : List (Option (List ℕ)) → Result Error SparseData
new pages = if all is_page pages then ok (record { pages = pages }) else err incorrect_page_size

unfoldable pub get_page : SparseData → ℕ → Option (List ℕ)
get_page d offset = get_or d.pages offset none

unfoldable pub len : SparseData → ℕ
len d = length d.pages

pub record LinearMemorySpec : Type 0 where
  pub heap : HeapSpec
  pub initializer : SparseData
