-- ===== src/LucetModule/LinearMemory/Pages.antt =====
-- The pages that a `SparseData` can hold.
use lucet.Prelude.{
  ℕ, zero, suc, ◌≡◌, arith, true, Option, some, none, List, [], ◌∷◌, length, get_or, all, ok,
}
use lucet.LucetModule.LinearMemory.{SparseData, is_page, new, get_page}

-- Every page that is given has the page size.
abbrev pub AllPages : SparseData → Type 0
AllPages d = (k : ℕ) (c : List ℕ) → get_page d k ≡ some c → length c ≡ 4096

pub all_pages :
    (pages : List (Option (List ℕ))) (k : ℕ) (c : List ℕ)
    → all is_page pages ≡ true
    → get_or pages k none ≡ some c
    → length c ≡ 4096
all_pages [] k c h e = cc
all_pages (p ∷ pages) zero c h e = ground arith
all_pages (p ∷ pages) (suc k) c h e = all_pages pages k c (ground arith) e

-- Data that `SparseData::new` accepts holds the pages that it was given, each of 4096 bytes.
pub new-AllPages :
    (pages : List (Option (List ℕ))) (d : SparseData)
    → new pages ≡ ok d
    → (d.pages ≡ pages) × AllPages d
unfolding new get_page
new-AllPages pages d h = (ground arith, λ k c e. all_pages d.pages k c (ground arith) e)
