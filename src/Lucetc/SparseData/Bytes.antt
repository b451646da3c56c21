-- ===== src/Lucetc/SparseData/Bytes.antt =====
-- The bytes of slices and of pages that are written over.
use lucet.Prelude.{
  ℕ, zero, suc, ◌+◌, ◌-◌, ◌/◌, ◌%◌, ◌≤◌, ◌<◌, ◌≡◌, refl, arith, ◌&&◌, Option, some, none, List, [],
  ◌∷◌, ltb, leb, length, take, drop, replicate, get_or, if◌then◌else◌, length-replicate,
}
use lucet.Lucetc.SparseData.{PageMap, page_or_new, overwrite, page_size}

pub get_or-take : (xs : List ℕ) (n j : ℕ) → j < n → get_or (take n xs) j 0 ≡ get_or xs j 0
get_or-take xs zero j h = absurd (omega (arith, h))
get_or-take [] (suc n) j h = refl
get_or-take (x ∷ xs) (suc n) zero h = refl
get_or-take (x ∷ xs) (suc n) (suc j) h = get_or-take xs n j (omega (arith, h))

pub get_or-drop : (xs : List ℕ) (n j k : ℕ) → k ≡ n + j → get_or (drop n xs) j 0 ≡ get_or xs k 0
get_or-drop xs zero j k h = let e : k ≡ j = omega (arith, h) in rw e refl
get_or-drop [] (suc n) j k h = refl
get_or-drop (x ∷ xs) (suc n) j zero h = absurd (omega (arith, h))
get_or-drop (x ∷ xs) (suc n) j (suc k) h = get_or-drop xs n j k (omega (arith, h))

pub length-overwrite :
    (page : List ℕ) (base : ℕ) (bytes : List ℕ) → length (overwrite page base bytes) ≡ length page
length-overwrite [] base bytes = refl
length-overwrite (p ∷ page) (suc base) bytes = omega (arith, length-overwrite page base bytes)
length-overwrite (p ∷ page) zero [] = refl
length-overwrite (p ∷ page) zero (b ∷ bytes) = omega (arith, length-overwrite page zero bytes)

pub get_or-overwrite :
    (page : List ℕ) (base : ℕ) (bytes : List ℕ) (j : ℕ)
    → base + length bytes ≤ length page
    → get_or (overwrite page base bytes) j 0 ≡ (
        if leb base j && ltb j (base + length bytes)
        then get_or bytes (j - base) 0
        else get_or page j 0)
get_or-overwrite [] base [] j h = ground arith
get_or-overwrite [] base (b ∷ bytes) j h = absurd (omega (arith, h))
get_or-overwrite (p ∷ page) (suc base) bytes zero h = ground arith
get_or-overwrite (p ∷ page) (suc base) bytes (suc j) h =
    ground (arith, get_or-overwrite page base bytes j)
get_or-overwrite (p ∷ page) zero [] j h = ground arith
get_or-overwrite (p ∷ page) zero (b ∷ bytes) zero h = ground arith
get_or-overwrite (p ∷ page) zero (b ∷ bytes) (suc j) h =
    ground (arith, get_or-overwrite page zero bytes j)

get_or-replicate : (n j : ℕ) → get_or (replicate {A = ℕ} n 0) j 0 ≡ 0
get_or-replicate zero j = refl
get_or-replicate (suc n) zero = refl
get_or-replicate (suc n) (suc j) = get_or-replicate n j

abbrev pub byte_of : Option (List ℕ) → ℕ → ℕ
byte_of none j = 0
byte_of (some page) j = get_or page j 0

-- The byte at an offset of linear memory.
abbrev pub map_byte : PageMap → ℕ → ℕ
map_byte pagemap x = byte_of (pagemap (x / 4096)) (x % 4096)

abbrev pub IsWhole : Option (List ℕ) → Type 0
IsWhole none = Unit {0}
IsWhole (some page) = length page ≡ page_size

pub length-page_or_new : (o : Option (List ℕ)) → IsWhole o → length (page_or_new o) ≡ page_size
length-page_or_new none w = length-replicate {A = ℕ} 4096 0
length-page_or_new (some page) w = w

pub page_or_new-byte : (o : Option (List ℕ)) (j : ℕ) → get_or (page_or_new o) j 0 ≡ byte_of o j
page_or_new-byte none j = get_or-replicate 4096 j
page_or_new-byte (some page) j = refl
