-- ===== src/Lucetc/SparseData.antt =====
-- lucetc/src/sparsedata.rs: the data initializers of a module, cut into pages.
pub mod Bytes
pub mod Split
pub mod Place
pub mod Memory
use lucet.Prelude.{
  ℕ, zero, suc, ◌+◌, ◌-◌, ◌*◌, ◌/◌, ◌%◌, min, Bool, true, not, Option, some, none, List, [], ◌∷◌,
  ◌++◌, ltb, leb, ◌==◌, length, take, drop, replicate, add_usize, mul_usize, if◌then◌else◌, Result,
  ok, err, panic, ◌>>=◌, ◌>>◌, fail_if, assert, is_none,
}
use lucet.LucetModule.LinearMemory.{HeapSpec}
use lucet.LucetModule.LinearMemory
use lucet.Lucetc.Error.{Error, unsupported, init_data, incorrect_page_size}

abbrev pub page_size : ℕ
page_size = 4096

-- `base` is the index of a global.
pub record DataInitializer : Type 0 where
  pub base : Option ℕ
  pub offset : ℕ
  pub contents : List ℕ

unfoldable pub linear_memory_range : DataInitializer → ℕ → ℕ → Result Error (List ℕ)
linear_memory_range di start end_ =
    let offs = di.offset in
    do
      assert (leb start end_)
      assert (leb offs start)
      assert (ltb start (add_usize offs (length di.contents)))
      assert (leb offs end_)
      assert (leb end_ (add_usize offs (length di.contents)))
      ok (take (end_ - start) (drop (start - offs) di.contents))

-- The loop of `split` from `offs` on, with the number of rounds left.
unfoldable pub split_from : ℕ → DataInitializer → ℕ → ℕ → Result Error (List (ℕ × DataInitializer))
split_from zero di offs end_ = if ltb offs end_ then panic else ok []
split_from (suc rounds) di offs end_ =
    let page = offs / page_size in
    let page_offs = offs % page_size in
    let next = min (mul_usize (add_usize page 1) page_size) end_ in
    let rest = split_from rounds di next end_ in
    let this = linear_memory_range di offs next in
    if ltb offs end_
    then (this >>= λ subslice. rest >>= λ chunks.
        ok ((page, record { base = none; offset = page_offs; contents = subslice }) ∷ chunks))
    else ok []

-- Each round takes a byte at least, so there are no more rounds than bytes.
unfoldable pub split : DataInitializer → Result Error (List (ℕ × DataInitializer))
unfolding split_from
split di = split_from (length di.contents) di di.offset (add_usize di.offset (length di.contents))

-- The hash map from page numbers to pages.
abbrev pub PageMap : Type 0
PageMap = ℕ → Option (List ℕ)

abbrev pub page_or_new : Option (List ℕ) → List ℕ
page_or_new (some page) = page
page_or_new none = replicate page_size 0

-- `page[base..base + bytes.len()].copy_from_slice(bytes)`, where the range is in bounds.
abbrev pub overwrite : List ℕ → ℕ → List ℕ → List ℕ
overwrite [] base bytes = []
overwrite (p ∷ page) (suc base) bytes = p ∷ overwrite page base bytes
overwrite (p ∷ page) zero [] = p ∷ page
overwrite (p ∷ page) zero (b ∷ bytes) = b ∷ overwrite page zero bytes

unfoldable pub place_chunk : HeapSpec → ℕ × DataInitializer → PageMap → Result Error PageMap
place_chunk heap (pagenumber, chunk) pagemap =
    let page = page_or_new (pagemap pagenumber) in
    do
      fail_if (ltb (heap.initial_size / page_size) pagenumber) init_data
      assert (leb (add_usize chunk.offset (length chunk.contents)) (length page))
      ok (λ k.
          if k == pagenumber then some (overwrite page chunk.offset chunk.contents) else pagemap k)

unfoldable pub place_chunks : HeapSpec → List (ℕ × DataInitializer) → PageMap → Result Error PageMap
place_chunks heap [] pagemap = ok pagemap
place_chunks heap (c ∷ chunks) pagemap = place_chunk heap c pagemap >>= place_chunks heap chunks

unfoldable pub place_all : HeapSpec → List DataInitializer → PageMap → Result Error PageMap
place_all heap [] pagemap = ok pagemap
place_all heap (di ∷ initializers) pagemap = do
  fail_if (not (is_none di.base))
      (unsupported "cannot create sparse data: data initializer uses global as base")
  chunks ← split di
  pagemap' ← place_chunks heap chunks pagemap
  place_all heap initializers pagemap'

abbrev is_whole : Option (List ℕ) → Bool
is_whole none = true
is_whole (some chunk) = length chunk == 4096

-- The pages `from..from + n`; a page that is there is asserted to have the page size.
unfoldable pub pages_from : PageMap → ℕ → ℕ → Result Error (List (Option (List ℕ)))
pages_from pagemap from zero = ok []
pages_from pagemap from (suc n) = do
  assert (is_whole (pagemap from))
  rest ← pages_from pagemap (from + 1) n
  ok (pagemap from ∷ rest)

abbrev page_checked :
    Result LinearMemory.Error LinearMemory.SparseData → Result Error LinearMemory.SparseData
page_checked (ok d) = ok d
page_checked (err e) = err incorrect_page_size
page_checked panic = panic

unfoldable pub owned_sparse_data_from_initializers :
    List DataInitializer → HeapSpec → Result Error LinearMemory.SparseData
owned_sparse_data_from_initializers initializers heap = do
  pagemap ← place_all heap initializers (λ k. none)
  assert (heap.initial_size % page_size == 0)
  out ← pages_from pagemap 0 (heap.initial_size / page_size)
  assert (mul_usize (length out) 4096 == heap.initial_size)
  page_checked (LinearMemory.new out)
