-- ===== src/Lucetc/SparseData/Place.antt =====
-- What placing the chunks of an initializer does to the pages.
use lucet.Prelude.{
  ℕ, zero, suc, ◌+◌, ◌-◌, ◌*◌, ◌/◌, ◌%◌, ◌≤◌, ◌<◌, ◌≡◌, ◌≢◌, refl, arith, ◌&&◌, some, List, ltb,
  leb, ◌==◌, length, take, drop, get_or, if◌then◌else◌, length-take, length-drop, ok, err, ◌∙◌, inl,
  inr, ◌⊎◌,
}
use lucet.LucetModule.LinearMemory.{HeapSpec}
use lucet.Lucetc.Error.{init_data}
use lucet.Lucetc.SparseData.{
  DataInitializer, PageMap, page_or_new, overwrite, place_chunk, place_chunks,
}
use lucet.Lucetc.SparseData.Bytes.{
  get_or-take, get_or-drop, length-overwrite, get_or-overwrite, map_byte, IsWhole,
  length-page_or_new, page_or_new-byte,
}
use lucet.Lucetc.SparseData.Split.{end_of, Fits, next_of, chunk_at, chunks_from}

abbrev pub AllWhole : PageMap → Type 0
AllWhole pagemap = (k : ℕ) → IsWhole (pagemap k)

ℕ_cases : (a b : ℕ) → (a ≡ b) ⊎ (a ≢ b)
ℕ_cases a b = ground arith

le_cases : (a b : ℕ) → (a ≤ b) ⊎ (b < a)
le_cases a b = ground arith

-- The pages `after` hold the bytes of the initializer from `from` to `to`, and else those of `before`.
pub record Placed (di : DataInitializer) (from to : ℕ) (before after : PageMap) : Type 0 where
  pub whole : AllWhole after
  pub bytes :
      (x : ℕ)
      → map_byte after x ≡ (
          if leb from x && ltb x to
          then get_or di.contents (x - di.offset) 0
          else map_byte before x)

module _ (di : DataInitializer) (fits : Fits di) (heap : HeapSpec) where
  abbrev slice_of : ℕ → List ℕ
  slice_of offs = take (next_of offs (end_of di) - offs) (drop (offs - di.offset) di.contents)

  abbrev placed : ℕ → PageMap → PageMap
  placed offs before k =
      if k == offs / 4096
      then some (overwrite (page_or_new (before (offs / 4096))) (offs % 4096) (slice_of offs))
      else before k

  module _ (offs : ℕ) (before : PageMap) (lo : di.offset ≤ offs) (more : offs < end_of di)
      (whole : AllWhole before) where
    length-slice : length (slice_of offs) ≡ next_of offs (end_of di) - offs
    length-slice = omega (
      arith,
      length-take {0} {A = ℕ} (next_of offs (end_of di) - offs)
          (drop (offs - di.offset) di.contents),
      length-drop {0} {A = ℕ} (offs - di.offset) di.contents,
    )

    slice_byte :
        (j : ℕ)
        → j < next_of offs (end_of di) - offs
        → get_or (slice_of offs) j 0 ≡ get_or di.contents (offs + j - di.offset) 0
    slice_byte j h =
        get_or-take (drop (offs - di.offset) di.contents) (next_of offs (end_of di) - offs) j h
        ∙ get_or-drop di.contents (offs - di.offset) j (offs + j - di.offset) (omega arith)

    place_chunk-placed :
        offs / 4096 ≤ heap.initial_size / 4096
        → place_chunk heap (chunk_at di offs (end_of di)) before ≡ ok (placed offs before)
    unfolding place_chunk
    place_chunk-placed h =
        ground
          (arith, length-slice, length-page_or_new (before (offs / 4096)) (whole (offs / 4096)))

    slice_at :
        (x : ℕ)
        → offs ≤ x
        → x < next_of offs (end_of di)
        → get_or (slice_of offs) (x % 4096 - offs % 4096) 0 ≡ get_or di.contents (x - di.offset) 0
    slice_at x l h =
        let j : x % 4096 - offs % 4096 ≡ x - offs = omega arith in
        let k : offs + (x - offs) - di.offset ≡ x - di.offset = omega (arith, l) in
        rw j (slice_byte (x - offs) (omega arith) ∙ rw k refl)

    same_page :
        (x : ℕ)
        → x / 4096 ≡ offs / 4096
        → map_byte (placed offs before) x ≡ (
            if leb offs x && ltb x (next_of offs (end_of di))
            then get_or di.contents (x - di.offset) 0
            else map_byte before x)
    same_page x e =
        let page = page_or_new (before (offs / 4096)) in
        rw e (
          ground (
            arith,
            length-slice,
            length-page_or_new (before (offs / 4096)) (whole (offs / 4096)),
            get_or-overwrite page (offs % 4096) (slice_of offs) (x % 4096),
            slice_at x,
            page_or_new-byte (before (offs / 4096)) (x % 4096),
          ))

    placed_byte :
        (x : ℕ)
        → map_byte (placed offs before) x ≡ (
            if leb offs x && ltb x (next_of offs (end_of di))
            then get_or di.contents (x - di.offset) 0
            else map_byte before x)
    placed_byte x = elim (ℕ_cases (x / 4096) (offs / 4096)) [
      | inl e ↦ same_page x e
      | inr ne ↦ ground arith
    ]

    placed-Placed : Placed di offs (next_of offs (end_of di)) before (placed offs before)
    placed-Placed = record {
      whole = λ k. ground (
        arith,
        whole k,
        length-overwrite (page_or_new (before (offs / 4096))) (offs % 4096) (slice_of offs),
        length-page_or_new (before (offs / 4096)) (whole (offs / 4096)),
      );
      bytes = placed_byte;
    }

place_chunk-refused :
    (di : DataInitializer) (heap : HeapSpec) (offs : ℕ) (before : PageMap)
    → heap.initial_size / 4096 < offs / 4096
    → place_chunk heap (chunk_at di offs (end_of di)) before ≡ err init_data
unfolding place_chunk
place_chunk-refused di heap offs before h = ground arith

-- The chunks from `offs` on are placed, if none lies beyond the page behind the initial heap.
pub chunks-Placed :
    (di : DataInitializer) (fits : Fits di) (heap : HeapSpec) (rounds offs : ℕ) (before : PageMap)
    → di.offset ≤ offs
    → offs ≤ end_of di
    → end_of di ≤ offs + rounds
    → AllWhole before
    → (end_of di ≤ (heap.initial_size / 4096 + 1) * 4096) ⊎ (offs ≡ end_of di)
    → (after : PageMap) × (place_chunks heap (chunks_from rounds di offs (end_of di)) before
        ≡ ok after)
      × Placed di offs (end_of di) before after
unfolding chunks_from place_chunks
chunks-Placed di fits heap zero offs before lo hi enough whole room =
    (before, refl, record { whole = whole; bytes = λ x. ground arith })
chunks-Placed di fits heap (suc rounds) offs before lo hi enough whole room =
    elim (ℕ_cases offs (end_of di)) [
      | inl e ↦ (before, ground arith, record { whole = whole; bytes = λ x. ground arith })
      | inr ne ↦
          let more : offs < end_of di = omega arith in
          let p = placed-Placed di fits heap offs before lo more whole in
          let next = next_of offs (end_of di) in
          let (after, q, r) =
            chunks-Placed di fits heap rounds next (placed di fits heap offs before) (omega arith)
              (omega arith) (omega arith) p.whole (ground arith) in
          (
            after,
            ground (arith, place_chunk-placed di fits heap offs before lo more whole, q),
            record { whole = r.whole; bytes = λ x. ground (arith, r.bytes x, p.bytes x) },
          )
    ]

pub chunks_refused :
    (di : DataInitializer) (fits : Fits di) (heap : HeapSpec) (rounds offs : ℕ) (before : PageMap)
    → di.offset ≤ offs
    → offs < end_of di
    → end_of di ≤ offs + rounds
    → AllWhole before
    → (heap.initial_size / 4096 + 1) * 4096 < end_of di
    → place_chunks heap (chunks_from rounds di offs (end_of di)) before ≡ err init_data
unfolding chunks_from place_chunks
chunks_refused di fits heap zero offs before lo hi enough whole room = absurd (omega arith)
chunks_refused di fits heap (suc rounds) offs before lo hi enough whole room =
    elim (le_cases (offs / 4096) (heap.initial_size / 4096)) [
      | inl l ↦
          let p = placed-Placed di fits heap offs before lo hi whole in
          let rec =
            chunks_refused di fits heap rounds (next_of offs (end_of di))
              (placed di fits heap offs before) (omega arith) (omega arith) (omega arith) p.whole
              room in
          ground (arith, place_chunk-placed di fits heap offs before lo hi whole l, rec)
      | inr g ↦ ground (arith, place_chunk-refused di heap offs before g)
    ]
