-- ===== src/LucetModule/VersionInfo.antt =====
-- lucet-module/src/version_info.rs: the version that a module carries, and its encoding.
pub mod Encoding
use lucet.Prelude.{
  ℕ, zero, suc, ◌+◌, ◌-◌, ◌*◌, ◌/◌, ◌%◌, Bool, true, false, not, ◌&&◌, ◌||◌, Option, none, some,
  List, [], ◌∷◌, ◌++◌, ◌==◌, ltb, length, min, replicate, take, drop, if◌then◌else◌, Result, ok,
  err, panic, ◌>>=◌,
}

pub record VersionInfo : Type 0 where
  pub major : ℕ
  pub minor : ℕ
  pub patch : ℕ
  pub reserved : ℕ
  pub version_hash : List ℕ

unfoldable pub new : ℕ → ℕ → ℕ → List ℕ → VersionInfo
new major minor patch version_hash = record {
  major = major;
  minor = minor;
  patch = patch;
  reserved = 32768;
  version_hash = version_hash;
}

abbrev pub valid : VersionInfo → Bool
valid v = v.reserved == 32768

-- Equality of byte strings.
abbrev pub same_bytes : List ℕ → List ℕ → Bool
same_bytes [] [] = true
same_bytes [] (y ∷ ys) = false
same_bytes (x ∷ xs) [] = false
same_bytes (x ∷ xs) (y ∷ ys) = x == y && same_bytes xs ys

unfoldable pub compatible_with : VersionInfo → VersionInfo → Bool
compatible_with self other =
    if not (valid self || valid other)
    then false
    else if self.major == other.major && (self.minor == other.minor && self.patch == other.patch)
    then if same_bytes self.version_hash (replicate 8 0)
      then true
      else same_bytes self.version_hash other.version_hash
    else false

-- The error of a read at the end of the input, and of a short write.
pub data IoError : Type 0 where
  unexpected_eof : IoError
  other : IoError

-- `write_u16::<LittleEndian>`
abbrev pub u16_bytes : ℕ → List ℕ
u16_bytes n = (n % 256) ∷ (n / 256 % 256) ∷ []

-- `read_u16::<LittleEndian>`
abbrev pub read_u16 : List ℕ → Result IoError (ℕ × List ℕ)
read_u16 [] = err unexpected_eof
read_u16 (a ∷ []) = err unexpected_eof
read_u16 (a ∷ b ∷ rest) = ok (a + 256 * b, rest)

-- `read_exact` into a buffer of eight bytes.
abbrev pub read_hash : List ℕ → Result IoError (List ℕ × List ℕ)
read_hash bytes =
    if ltb (length bytes) 8 then err unexpected_eof else ok (take 8 bytes, drop 8 bytes)

-- What is appended to a writer that takes all bytes, as a `Vec` does.
unfoldable pub write_to : VersionInfo → List ℕ
write_to v =
    u16_bytes v.major
    ++ (u16_bytes v.minor ++ (u16_bytes v.patch ++ (u16_bytes v.reserved ++ v.version_hash)))

-- The version at the start of a byte string, and the bytes behind it.
unfoldable pub read_from : List ℕ → Result IoError (VersionInfo × List ℕ)
read_from r = do
  (major, r1) ← read_u16 r
  (minor, r2) ← read_u16 r1
  (patch, r3) ← read_u16 r2
  (reserved, r4) ← read_u16 r3
  (version_hash, r5) ← read_hash r4
  ok (
    record {
      major = major;
      minor = minor;
      patch = patch;
      reserved = reserved;
      version_hash = version_hash;
    },
    r5,
  )

-- The first bytes of the hash, over a buffer of zeros.
abbrev pub hash_from : ℕ → List ℕ → List ℕ
hash_from zero current_hash = []
hash_from (suc n) [] = 0 ∷ hash_from n []
hash_from (suc n) (b ∷ current_hash) = b ∷ hash_from n current_hash

-- `major`, `minor` and `patch` are those of the package that is built.
unfoldable pub current : ℕ → ℕ → ℕ → List ℕ → VersionInfo
current major minor patch current_hash = new major minor patch (hash_from 8 current_hash)
