-- ===== src/Lucetc/SparseData/Memory.antt =====
-- The pages of a module against the meaning of its data initializers.
use lucet.Prelude.{
  err, Option-cases, ℕ, zero, suc, ◌+◌, ◌-◌, ◌*◌, ◌/◌, ◌%◌, ◌≤◌, ◌<◌, ◌≡◌, ◌≢◌, ◌↔◌, ◌⊎◌, inl, inr,
  refl, arith, true, ◌&&◌, Option, none, List, [], ◌∷◌, ltb, leb, length, all, get_or,
  if◌then◌else◌, usize_mod, ok, ◌∙◌, sym, ok-cases, subst,
}
use lucet.LucetModule.LinearMemory.{HeapSpec, SparseData, is_page, get_page}
use lucet.LucetModule.LinearMemory
use lucet.LucetModule.LinearMemory.Pages.{AllPages, all_pages}
use lucet.Runtime.Mmap.Copy.{page_byte}
use lucet.Lucetc.Error.{Error, unsupported, init_data}
use lucet.Lucetc.SparseData.{
  DataInitializer, PageMap, place_all, pages_from, owned_sparse_data_from_initializers,
}
use lucet.Lucetc.SparseData.Bytes.{map_byte}
use lucet.Lucetc.SparseData.Split.{end_of, Fits, split-chunks_of}
use lucet.Lucetc.SparseData.Place.{AllWhole, chunks-Placed, chunks_refused}

-- The memory after the initializers have been written in their order.
abbrev pub initialized : List DataInitializer → (ℕ → ℕ) → ℕ → ℕ
initialized [] before x = before x
initialized (di ∷ dis) before x =
    initialized dis
      (λ y.
        if leb di.offset y && ltb y (end_of di)
        then get_or di.contents (y - di.offset) 0
        else before y)
      x

abbrev pub AllFit : List DataInitializer → Type 0
AllFit [] = Unit {0}
AllFit (di ∷ dis) = Fits di × AllFit dis

-- No initializer has a base, and each is empty or ends by `limit`.
abbrev pub AllWithin : ℕ → List DataInitializer → Type 0
AllWithin limit [] = Unit {0}
AllWithin limit (di ∷ dis) =
    (di.base ≡ none) × ((di.contents ≡ []) ⊎ (end_of di ≤ limit)) × AllWithin limit dis

initialized-eq :
    (dis : List DataInitializer) (f g : ℕ → ℕ) (x : ℕ)
    → f x ≡ g x
    → initialized dis f x ≡ initialized dis g x
initialized-eq [] f g x e = e
initialized-eq (di ∷ dis) f g x e = initialized-eq dis _ _ x (ground arith)

record Loaded (dis : List DataInitializer) (before after : PageMap) : Type 0 where
  whole : AllWhole after
  bytes : (x : ℕ) → map_byte after x ≡ initialized dis (map_byte before) x

module _ (heap : HeapSpec) where
  abbrev limit : ℕ
  limit = (heap.initial_size / 4096 + 1) * 4096

  place_all-Loaded :
      (dis : List DataInitializer) (before : PageMap)
      → AllFit dis
      → AllWhole before
      → AllWithin limit dis
      → (after : PageMap) × (place_all heap dis before ≡ ok after) × Loaded dis before after
  unfolding place_all
  place_all-Loaded [] before fits whole within =
      (before, refl, record { whole = whole; bytes = λ x. refl })
  place_all-Loaded (di ∷ dis) before fits whole within =
      let (mid, placed, p) =
        chunks-Placed di fits.0 heap (length di.contents) di.offset before (omega arith)
          (omega arith) (omega arith) whole (ground (arith, within.1)) in
      let (after, rest, l) = place_all-Loaded dis mid fits.1 p.whole within.2 in
      (
        after,
        ground (arith, within.0, split-chunks_of di fits.0, placed, rest),
        record { whole = l.whole; bytes = λ x. l.bytes x ∙ initialized-eq dis _ _ x (p.bytes x) },
      )

  -- Whether an initializer can be placed.
  within_cases :
      (di : DataInitializer)
      → ((di.base ≡ none) × ((di.contents ≡ []) ⊎ (end_of di ≤ limit)))
        ⊎ ((di.base ≢ none) ⊎ ((di.offset < end_of di) × (limit < end_of di)))
  within_cases di = ground arith

  place_all-ok :
      (dis : List DataInitializer) (before after : PageMap)
      → AllFit dis
      → AllWhole before
      → place_all heap dis before ≡ ok after
      → AllWithin limit dis
  unfolding place_all
  place_all-ok [] before after fits whole h = tt
  place_all-ok (di ∷ dis) before after fits whole h = elim (within_cases di) [
    | inl (base, room) ↦
        let (mid, placed, p) =
          chunks-Placed di fits.0 heap (length di.contents) di.offset before (omega arith)
            (omega arith) (omega arith) whole (ground (arith, room)) in
        let rest : place_all heap dis mid ≡ ok after =
          ground (arith, base, split-chunks_of di fits.0, placed, h) in
        (base, room, place_all-ok dis mid after fits.1 p.whole rest)
    | inr (inl bad) ↦ absurd (ground (arith, bad, h))
    | inr (inr (more, beyond)) ↦
        let refused =
          chunks_refused di fits.0 heap (length di.contents) di.offset before (omega arith) more
            (omega arith) whole beyond in
        absurd (ground (arith, split-chunks_of di fits.0, refused, h))
  ]

  -- Placing the initializers gives the pages or an error, and never panics.
  place_all_total :
      (dis : List DataInitializer) (before : PageMap)
      → AllFit dis
      → AllWhole before
      → ((after : PageMap) × (place_all heap dis before ≡ ok after))
        ⊎ ((e : Error) × (place_all heap dis before ≡ err e))
  unfolding place_all
  place_all_total [] before fits whole = inl (before, refl)
  place_all_total (di ∷ dis) before fits whole = elim (within_cases di) [
    | inl (base, room) ↦
        let (mid, placed, p) =
          chunks-Placed di fits.0 heap (length di.contents) di.offset before (omega arith)
            (omega arith) (omega arith) whole (ground (arith, room)) in
        elim (place_all_total dis mid fits.1 p.whole) [
          | inl (after, e) ↦ inl (after, ground (arith, base, split-chunks_of di fits.0, placed, e))
          | inr (x, e) ↦ inr (x, ground (arith, base, split-chunks_of di fits.0, placed, e))
        ]
    | inr (inl bad) ↦ inr (
      unsupported "cannot create sparse data: data initializer uses global as base",
      ground (arith, bad),
    )
    | inr (inr (more, beyond)) ↦
        let refused =
          chunks_refused di fits.0 heap (length di.contents) di.offset before (omega arith) more
            (omega arith) whole beyond in
        elim (Option-cases di.base) [
          | inl base ↦ inr (init_data, ground (arith, base, split-chunks_of di fits.0, refused))
          | inr (g, base) ↦ inr (
            unsupported "cannot create sparse data: data initializer uses global as base",
            ground (arith, base),
          )
        ]
  ]

-- The loop over the pages gives every page of the map.
record Pages (pagemap : PageMap) (from n : ℕ) (out : List (Option (List ℕ))) : Type 0 where
  run : pages_from pagemap from n ≡ ok out
  size : length out ≡ n
  all_whole : all is_page out ≡ true
  nth : (j k : ℕ) → j < n → k ≡ from + j → get_or out j none ≡ pagemap k

read_all_pages_lem :
    (pagemap : PageMap) (whole : AllWhole pagemap) (from n : ℕ)
    → (out : List (Option (List ℕ))) × Pages pagemap from n out
unfolding pages_from
read_all_pages_lem pagemap whole from zero = (
  [],
  record { run = refl; size = refl; all_whole = refl; nth = λ j k h e. absurd (omega arith) },
)
read_all_pages_lem pagemap whole from (suc n) =
    let (out, p) = read_all_pages_lem pagemap whole (from + 1) n in
    (
      pagemap from ∷ out,
      record {
        run = ground (arith, whole from, p.run);
        size = omega (arith, p.size);
        all_whole = ground (arith, whole from, p.all_whole);
        nth = first_or_rest pagemap out from n p.nth;
      },
    )
  where
    first_or_rest :
        (pagemap : PageMap) (out : List (Option (List ℕ))) (from n : ℕ)
        → ((j k : ℕ) → j < n → k ≡ from + 1 + j → get_or out j none ≡ pagemap k)
        → (j k : ℕ) → j < suc n
        → k ≡ from + j
        → get_or (pagemap from ∷ out) j none ≡ pagemap k
    first_or_rest pagemap out from n rest zero k h e = let q : k ≡ from = omega arith in rw q refl
    first_or_rest pagemap out from n rest (suc j) k h e = rest j k (omega arith) (omega arith)

-- What the compiler makes of the initializers of a module with a heap.
pub record IsImage (dis : List DataInitializer) (heap : HeapSpec) (d : SparseData) : Type 0 where
  pub size : length d.pages ≡ heap.initial_size / 4096
  pub pages : AllPages d
  pub contents : (x : ℕ) → x < heap.initial_size → page_byte d x 0 ≡ initialized dis (λ y. 0) x

owned-eq :
    (dis : List DataInitializer) (heap : HeapSpec) (after : PageMap) (out : List (Option (List ℕ)))
    → heap.initial_size % 4096 ≡ 0
    → heap.initial_size < usize_mod
    → place_all heap dis (λ k. none) ≡ ok after
    → Pages after 0 (heap.initial_size / 4096) out
    → owned_sparse_data_from_initializers dis heap ≡ ok (record { pages = out })
unfolding owned_sparse_data_from_initializers LinearMemory.new
owned-eq dis heap after out whole small placed p =
    ground (arith, placed, p.run, p.size, p.all_whole)

limit_is : (heap : HeapSpec) → heap.initial_size % 4096 ≡ 0 → limit heap ≡ heap.initial_size + 4096
limit_is heap whole = omega arith

-- The value of a byte of the finished pages is that of the map.
page_byte-map_byte :
    (after : PageMap) (n : ℕ) (out : List (Option (List ℕ))) (x : ℕ)
    → Pages after 0 n out
    → x / 4096 < n
    → page_byte (record { pages = out }) x 0 ≡ map_byte after x
unfolding get_page
page_byte-map_byte after n out x p h =
    let nth : get_or out (x / 4096) none ≡ after (x / 4096) =
      p.nth (x / 4096) (x / 4096) h (omega arith) in
    ground (arith, nth)

placed_first :
    (dis : List DataInitializer) (heap : HeapSpec) (d : SparseData)
    → owned_sparse_data_from_initializers dis heap ≡ ok d
    → (after : PageMap) × (place_all heap dis (λ k. none) ≡ ok after)
unfolding owned_sparse_data_from_initializers
placed_first dis heap d h = elim (ok-cases (place_all heap dis (λ k. none))) [
  | inl (after, e) ↦ (after, e)
  | inr bad ↦ absurd (ground arith)
]

module _ (dis : List DataInitializer) (heap : HeapSpec) (fits : AllFit dis)
    (whole : heap.initial_size % 4096 ≡ 0) (small : heap.initial_size < usize_mod) where
  abbrev n_pages : ℕ
  n_pages = heap.initial_size / 4096

  made :
      AllWithin (limit heap) dis
      → (after : PageMap) × (out : List (Option (List ℕ))) × Loaded dis (λ k. none) after
        × Pages after 0 n_pages out
        × (owned_sparse_data_from_initializers dis heap ≡ ok (record { pages = out }))
  made within =
      let (after, placed, l) = place_all-Loaded heap dis (λ k. none) fits (λ k. tt) within in
      let (out, p) = read_all_pages_lem after l.whole 0 n_pages in
      (after, out, l, p, owned-eq dis heap after out whole small placed p)

  within_limit :
      (d : SparseData)
      → owned_sparse_data_from_initializers dis heap ≡ ok d
      → AllWithin (limit heap) dis
  within_limit d h =
      let (after, placed) = placed_first dis heap d h in
      place_all-ok heap dis (λ k. none) after fits (λ k. tt) placed

  -- For a heap of whole pages and initializers that end well inside the address space, the
  -- compiler accepts the initializers exactly if none has a global as its base, and each is empty
  -- or ends at most one page behind the initial heap.
  pub owned_sparse_data-AllWithin :
      ((d : SparseData) × (owned_sparse_data_from_initializers dis heap ≡ ok d))
      ↔ AllWithin (heap.initial_size + 4096) dis
  owned_sparse_data-AllWithin = (
    λ x. subst (λ l. AllWithin l dis) (limit_is heap whole) (within_limit x.0 x.1),
    λ w.
        let (after, out, l, p, e) =
          made (subst (λ l. AllWithin l dis) (sym (limit_is heap whole)) w) in
        (record { pages = out }, e),
  )

  -- Else it refuses them with an error.
  pub owned_sparse_data_total :
      ((d : SparseData) × (owned_sparse_data_from_initializers dis heap ≡ ok d))
      ⊎ ((e : Error) × (owned_sparse_data_from_initializers dis heap ≡ err e))
  unfolding owned_sparse_data_from_initializers
  owned_sparse_data_total = elim (place_all_total heap dis (λ k. none) fits (λ k. tt)) [
    | inl (after, placed) ↦
        let (after', placed', l) =
          place_all-Loaded heap dis (λ k. none) fits (λ k. tt)
            (place_all-ok heap dis (λ k. none) after fits (λ k. tt) placed) in
        let (out, p) = read_all_pages_lem after' l.whole 0 n_pages in
        inl (record { pages = out }, owned-eq dis heap after' out whole small placed' p)
    | inr (e, refused) ↦ inr (e, ground (arith, refused))
  ]

  -- Where it accepts them, the pages give every byte of the initial heap the value that the
  -- initializers give it when they are written in their order, and zero where none does.
  pub owned_sparse_data-IsImage :
      (d : SparseData) → owned_sparse_data_from_initializers dis heap ≡ ok d → IsImage dis heap d
  unfolding get_page
  owned_sparse_data-IsImage d h =
      let (after, out, l, p, e) = made (within_limit d h) in
      let same : d ≡ record { pages = out } = ground arith in
      rw same (record {
        size = p.size;
        pages = λ k c. all_pages out k c p.all_whole;
        contents = λ x k. page_byte-map_byte after n_pages out x p (omega arith) ∙ l.bytes x;
      })

-- For a heap of whole pages and initializers that end well inside the address space: an
-- initializer without a base that lies wholly in the page behind the initial heap is accepted
-- before initializers that are, and leaves no trace, as the pages hold the same bytes as without
-- it.
pub owned_sparse_data-dropped :
    (di : DataInitializer) (dis : List DataInitializer) (heap : HeapSpec) (d : SparseData)
    → AllFit (di ∷ dis)
    → heap.initial_size % 4096 ≡ 0
    → heap.initial_size < usize_mod
    → di.base ≡ none
    → heap.initial_size ≤ di.offset
    → end_of di ≤ heap.initial_size + 4096
    → owned_sparse_data_from_initializers dis heap ≡ ok d
    → (d' : SparseData) × (owned_sparse_data_from_initializers (di ∷ dis) heap ≡ ok d')
      × ((x : ℕ) → x < heap.initial_size → page_byte d' x 0 ≡ page_byte d x 0)
owned_sparse_data-dropped di dis heap d fits whole small base beyond in_page h =
    let within = (owned_sparse_data-AllWithin dis heap fits.1 whole small).0 (d, h) in
    let (d', h') =
      (owned_sparse_data-AllWithin (di ∷ dis) heap fits whole small).1
        (base, inr in_page, within) in
    let image = owned_sparse_data-IsImage dis heap fits.1 whole small d h in
    let image' = owned_sparse_data-IsImage (di ∷ dis) heap fits whole small d' h' in
    (
      d',
      h',
      λ x k.
          image'.contents x k ∙ initialized-eq dis _ _ x (ground arith) ∙ sym (image.contents x k),
    )
