-- ===== src/LucetModule/VersionInfo/Encoding.antt =====
-- The encoding of a version, and which versions are compatible.
use lucet.Prelude.{
  ℕ, zero, suc, ◌+◌, ◌*◌, ◌/◌, ◌%◌, ◌≤◌, ◌<◌, ◌≡◌, ◌⊎◌, ◌↔◌, refl, ap, arith, true, false, List, [],
  ◌∷◌, ◌++◌, ltb, length, replicate, take, drop, ok, err, length-append, length-take, Bool-cases,
  inl, inr,
}
use lucet.LucetModule.VersionInfo.{
  VersionInfo, same_bytes, compatible_with, unexpected_eof, u16_bytes, read_u16, read_hash,
  write_to, read_from, current, hash_from, new,
}

-- Four 16-bit numbers and eight bytes of hash.
pub record IsVersion (v : VersionInfo) : Type 0 where
  pub major : v.major < 65536
  pub minor : v.minor < 65536
  pub patch : v.patch < 65536
  pub reserved : v.reserved < 65536
  pub hash : length v.version_hash ≡ 8

read_u16-u16_bytes :
    (n : ℕ) (rest : List ℕ) → n < 65536 → read_u16 (u16_bytes n ++ rest) ≡ ok (n, rest)
read_u16-u16_bytes n rest h = ap (λ k. ok (k, rest)) (omega arith)

take-append : (n : ℕ) (xs ys : List ℕ) → length xs ≡ n → take n (xs ++ ys) ≡ xs
take-append zero [] ys h = refl
take-append zero (x ∷ xs) ys h = absurd (omega arith)
take-append (suc n) [] ys h = absurd (omega arith)
take-append (suc n) (x ∷ xs) ys h = ap (λ l. x ∷ l) (take-append n xs ys (omega arith))

drop-append : (n : ℕ) (xs ys : List ℕ) → length xs ≡ n → drop n (xs ++ ys) ≡ ys
drop-append zero [] ys h = refl
drop-append zero (x ∷ xs) ys h = absurd (omega arith)
drop-append (suc n) [] ys h = absurd (omega arith)
drop-append (suc n) (x ∷ xs) ys h = drop-append n xs ys (omega arith)

read_hash-append :
    (hash rest : List ℕ) → length hash ≡ 8 → read_hash (hash ++ rest) ≡ ok (hash, rest)
read_hash-append hash rest h =
    let size = length-append hash rest in
    rw (take-append 8 hash rest h, drop-append 8 hash rest h) (ground (arith, size))

-- Reading a version of 16-bit numbers and an eight-byte hash that was written gives it back, with
-- the bytes behind it.
pub read_from-write_to :
    (v : VersionInfo) (rest : List ℕ) → IsVersion v → read_from (write_to v ++ rest) ≡ ok (v, rest)
unfolding read_from write_to
read_from-write_to v rest p =
    ground (arith, read_u16-u16_bytes v.major, read_hash-append v.version_hash rest p.hash)

abbrev pub AllBytes : List ℕ → Type 0
AllBytes [] = Unit {0}
AllBytes (b ∷ bytes) = (b < 256) × AllBytes bytes

-- The two bytes of a number that was read.
low_byte : (a b : ℕ) → a < 256 → (a + 256 * b) % 256 ≡ a
low_byte a b h = omega arith

high_byte : (a b : ℕ) → a < 256 → b < 256 → (a + 256 * b) / 256 % 256 ≡ b
high_byte a b ha hb = omega arith

take-drop : (n : ℕ) (xs : List ℕ) → take n xs ++ drop n xs ≡ xs
take-drop zero xs = refl
take-drop (suc n) [] = refl
take-drop (suc n) (x ∷ xs) = ap (λ l. x ∷ l) (take-drop n xs)

-- A version that was read: writing it gives the bytes back.
pub record WasRead (bytes : List ℕ) (x : VersionInfo × List ℕ) : Type 0 where
  pub run : read_from bytes ≡ ok x
  pub whole : IsVersion x.0
  pub again : write_to x.0 ++ x.1 ≡ bytes

header :
    (a b c d e f g h : ℕ) (rest : List ℕ)
    → AllBytes (a ∷ b ∷ c ∷ d ∷ e ∷ f ∷ g ∷ h ∷ rest)
    → 8 ≤ length rest
    → (x : VersionInfo × List ℕ) × WasRead (a ∷ b ∷ c ∷ d ∷ e ∷ f ∷ g ∷ h ∷ rest) x
unfolding read_from write_to
header a b c d e f g h rest (ha, (hb, (hc, (hd, (he, (hf, (hg, (hh, more)))))))) long =
    let enough : ltb (length rest) 8 ≡ false = ground arith in
    (
      (
        record {
          major = a + 256 * b;
          minor = c + 256 * d;
          patch = e + 256 * f;
          reserved = g + 256 * h;
          version_hash = take 8 rest;
        },
        drop 8 rest,
      ),
      record {
        run = rw enough refl;
        whole = record {
          major = omega arith;
          minor = omega arith;
          patch = omega arith;
          reserved = omega arith;
          hash = omega (arith, length-take {0} {A = ℕ} 8 rest);
        };
        again =
            rw
              (
                low_byte a b ha,
                high_byte a b ha hb,
                low_byte c d hc,
                high_byte c d hc hd,
                low_byte e f he,
                high_byte e f he hf,
                low_byte g h hg,
                high_byte g h hg hh,
                take-drop 8 rest,
              )
              refl;
      },
    )

-- A version is read from the first sixteen bytes, and writing it gives the bytes back; fewer bytes
-- are the error of an input that ends.
read_from-WasRead :
    (bytes : List ℕ)
    → AllBytes bytes
    → ((16 ≤ length bytes) × (x : VersionInfo × List ℕ) × WasRead bytes x)
      ⊎ ((length bytes < 16) × (read_from bytes ≡ err unexpected_eof))
unfolding read_from
read_from-WasRead [] all = inr (omega arith, refl)
read_from-WasRead (a ∷ []) all = inr (omega arith, refl)
read_from-WasRead (a ∷ b ∷ []) all = inr (omega arith, refl)
read_from-WasRead (a ∷ b ∷ c ∷ []) all = inr (omega arith, refl)
read_from-WasRead (a ∷ b ∷ c ∷ d ∷ []) all = inr (omega arith, refl)
read_from-WasRead (a ∷ b ∷ c ∷ d ∷ e ∷ []) all = inr (omega arith, refl)
read_from-WasRead (a ∷ b ∷ c ∷ d ∷ e ∷ f ∷ []) all = inr (omega arith, refl)
read_from-WasRead (a ∷ b ∷ c ∷ d ∷ e ∷ f ∷ g ∷ []) all = inr (omega arith, refl)
read_from-WasRead (a ∷ b ∷ c ∷ d ∷ e ∷ f ∷ g ∷ h ∷ rest) all =
    elim (Bool-cases (ltb (length rest) 8)) [
      | inl short ↦ inr (ground arith, rw short refl)
      | inr long ↦
          let (x, p) = header a b c d e f g h rest all (ground arith) in inl (ground arith, x, p)
    ]

pub same_bytes_iff : (xs ys : List ℕ) → (same_bytes xs ys ≡ true) ↔ (xs ≡ ys)
same_bytes_iff [] [] = (λ h. refl, λ h. refl)
same_bytes_iff [] (y ∷ ys) = (λ h. cc, λ h. cc)
same_bytes_iff (x ∷ xs) [] = (λ h. cc, λ h. cc)
same_bytes_iff (x ∷ xs) (y ∷ ys) =
    (λ h. ground (arith, same_bytes_iff xs ys), λ h. ground (arith, same_bytes_iff xs ys))

-- Two versions are compatible exactly if at least one of them has the mark of a version, their
-- numbers are equal, and the first has no hash or both have the same.
compatible_with_iff :
    (a b : VersionInfo)
    → (compatible_with a b ≡ true) ↔ (
        ((a.reserved ≡ 32768) ⊎ (b.reserved ≡ 32768))
        × (a.major ≡ b.major)
        × (a.minor ≡ b.minor)
        × (a.patch ≡ b.patch)
        × ((a.version_hash ≡ replicate 8 0) ⊎ (a.version_hash ≡ b.version_hash)))
unfolding compatible_with
compatible_with_iff a b = (
  λ h. ground (
    arith,
    same_bytes_iff a.version_hash (replicate 8 0),
    same_bytes_iff a.version_hash b.version_hash,
  ),
  λ h. ground (
    arith,
    same_bytes_iff a.version_hash (replicate 8 0),
    same_bytes_iff a.version_hash b.version_hash,
  ),
)

length-hash_from : (n : ℕ) (hash : List ℕ) → length (hash_from n hash) ≡ n
length-hash_from zero hash = refl
length-hash_from (suc n) [] = ap suc (length-hash_from n [])
length-hash_from (suc n) (b ∷ hash) = ap suc (length-hash_from n hash)

-- The version of a build is one, whatever the length of its hash, and compatible with itself.
pub current-IsVersion :
    (major minor patch : ℕ) (hash : List ℕ)
    → major < 65536
    → minor < 65536
    → patch < 65536
    → IsVersion (current major minor patch hash)
      × (compatible_with (current major minor patch hash) (current major minor patch hash) ≡ true)
unfolding current new
current-IsVersion major minor patch hash h1 h2 h3 = (
  record {
    major = h1;
    minor = h2;
    patch = h3;
    reserved = omega arith;
    hash = length-hash_from 8 hash;
  },
  (compatible_with_iff (current major minor patch hash) (current major minor patch hash)).1
      (inl refl, refl, refl, refl, inr refl),
)
