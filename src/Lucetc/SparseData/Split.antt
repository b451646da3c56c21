-- ===== src/Lucetc/SparseData/Split.antt =====
-- The chunks of a data initializer, and what placing them does to the pages.
use lucet.Prelude.{
  ℕ, zero, suc, ◌+◌, ◌-◌, ◌*◌, ◌/◌, ◌%◌, ◌≤◌, ◌<◌, ◌≡◌, arith, min, none, List, [], ◌∷◌, ltb,
  length, take, drop, if◌then◌else◌, usize_mod, ok,
}
use lucet.Lucetc.SparseData.{DataInitializer, linear_memory_range, split_from, split}

abbrev pub end_of : DataInitializer → ℕ
end_of di = di.offset + length di.contents

-- The initializer ends well inside the address space.
abbrev pub Fits : DataInitializer → Type 0
Fits di = end_of di + 8192 < usize_mod

abbrev pub next_of : ℕ → ℕ → ℕ
next_of offs end_ = min ((offs / 4096 + 1) * 4096) end_

abbrev pub chunk_at : DataInitializer → ℕ → ℕ → ℕ × DataInitializer
chunk_at di offs end_ = (
  offs / 4096,
  record {
    base = none;
    offset = offs % 4096;
    contents = take (next_of offs end_ - offs) (drop (offs - di.offset) di.contents);
  },
)

-- The chunks that `split` makes, without its assertions.
unfoldable pub chunks_from : ℕ → DataInitializer → ℕ → ℕ → List (ℕ × DataInitializer)
chunks_from zero di offs end_ = []
chunks_from (suc rounds) di offs end_ =
    if ltb offs end_
    then chunk_at di offs end_ ∷ chunks_from rounds di (next_of offs end_) end_
    else []

split_from-chunks_from :
    (rounds : ℕ) (di : DataInitializer) (offs : ℕ)
    → Fits di
    → di.offset ≤ offs
    → offs ≤ end_of di
    → end_of di ≤ offs + rounds
    → split_from rounds di offs (end_of di) ≡ ok (chunks_from rounds di offs (end_of di))
unfolding split_from chunks_from linear_memory_range
split_from-chunks_from zero di offs fits lo hi enough = ground arith
split_from-chunks_from (suc rounds) di offs fits lo hi enough =
    ground (arith, split_from-chunks_from rounds di (next_of offs (end_of di)))

abbrev pub chunks_of : DataInitializer → List (ℕ × DataInitializer)
chunks_of di = chunks_from (length di.contents) di di.offset (end_of di)

-- `split` has enough rounds and passes its assertions.
pub split-chunks_of : (di : DataInitializer) → Fits di → split di ≡ ok (chunks_of di)
unfolding split
split-chunks_of di fits =
    ground (arith, split_from-chunks_from (length di.contents) di di.offset fits)
