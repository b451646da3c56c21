-- ===== src/Lucetc/Table/Layout.antt =====
-- The bytes of a table and the addresses in it, against its entries.
use lucet.Prelude.{
  ℕ, zero, suc, ◌+◌, ◌-◌, ◌*◌, ◌/◌, ◌^◌, ◌<◌, ◌≤◌, ◌≡◌, refl, sym, ap, ◌∙◌, subst, arith, List, [],
  ◌∷◌, ◌++◌, some, length, take, drop, get_elem?, usize_mod, ok,
}
use native.Mathlib.Nat.{pow-suc}
use lucet.Lucetc.Wasm.{Clif, Exportable}
use lucet.Lucetc.Decls.Functions.{Declarer, ModuleDecls}
use lucet.Lucetc.Decls.Functions.Metadata.{get_func-eq-ok}
use lucet.Lucetc.ModuleInfo.Valid.{IsValid}
use lucet.Lucetc.Table.{Elem, func, empty, le_bytes, signature_index_of, write_entries}

-- The number that eight bytes stand for, as a guest reads it.
abbrev pub le_value : List ℕ → ℕ
le_value [] = 0
le_value (b ∷ bytes) = b + 256 * le_value bytes

-- The field at an offset of a table.
abbrev pub word_at : ℕ → List ℕ → ℕ
word_at offset bytes = le_value (take 8 (drop offset bytes))

module _ (c : Clif) (d : Declarer c) (decls : ModuleDecls c d) where
  abbrev pub AllFunctions : List Elem → Type 0
  AllFunctions [] = Unit {0}
  AllFunctions (empty ∷ elems) = AllFunctions elems
  AllFunctions (func k ∷ elems) = (k < length decls.function_names) × AllFunctions elems

  -- The number that the first word of a row holds: what the signatures are mapped to at the type of
  -- the function, or the greatest number where there is no function.
  abbrev pub IsSignature : Elem → ℕ → Type 0
  IsSignature empty sig = sig ≡ usize_mod - 1
  IsSignature (func k) sig =
      (f : Exportable ℕ) × (get_elem? decls.info.functions k ≡ some f)
      × (get_elem? decls.info.signature_mapping f.entity ≡ some sig)

  -- The places of the second words of the rows with a function, for the linker.
  abbrev pub addrs_of : ℕ → List Elem → List (ℕ × ℕ)
  addrs_of position [] = []
  addrs_of position (empty ∷ elems) = addrs_of (position + 16) elems
  addrs_of position (func k ∷ elems) = (position + 8, k) ∷ addrs_of (position + 16) elems

  pub record IsLayout (elems : List Elem) (position : ℕ) (out : List ℕ × List (ℕ × ℕ))
      : Type 0 where
    pub size : length out.0 ≡ 16 * length elems
    pub addresses : out.1 ≡ addrs_of position elems
    pub rows :
        (i : ℕ) (e : Elem)
        → get_elem? elems i ≡ some e
        → IsSignature e (word_at (16 * i) out.0) × (word_at (16 * i + 8) out.0 ≡ 0)

  le_value-le_bytes : (k n : ℕ) → n < 256 ^ k → le_value (le_bytes k n) ≡ n
  le_value-le_bytes zero n h = omega arith
  le_value-le_bytes (suc k) n h =
      let q = le_value-le_bytes k (n / 256) (omega (arith, pow-suc 256 k)) in omega (arith, q)

  signature_index_of_total :
      (k : ℕ)
      → IsValid c decls.info
      → length decls.function_names ≤ length decls.info.functions
      → k < length decls.function_names
      → (sig : ℕ) × (signature_index_of c d decls k ≡ ok sig)
        × IsSignature (func k) sig
        × (sig < length decls.info.signatures)
  unfolding signature_index_of
  signature_index_of_total k v fewer h =
      let (decl, found, entry) = get_func-eq-ok c d k decls v fewer h in
      (
        decl.signature_index,
        rw found refl,
        (entry.function, entry.function_at, entry.signature_at),
        entry.signature_bound,
      )

  -- The bytes of one row.
  abbrev row : ℕ → List ℕ → List ℕ
  row sig bytes = le_bytes 8 sig ++ (le_bytes 8 0 ++ bytes)

  rows_after : (sig k m : ℕ) (bytes : List ℕ) → k ≡ m + 16 → drop k (row sig bytes) ≡ drop m bytes
  rows_after sig k m bytes h =
      let e : k
          ≡ suc (
              suc (
                suc (
                  suc (suc (suc (suc (suc (suc (suc (suc (suc (suc (suc (suc (suc m))))))))))))))) =
        omega arith in
      rw e refl

  first_or_rest :
      (e : Elem) (elems : List Elem) (sig : ℕ) (bytes : List ℕ)
      → sig < usize_mod
      → IsSignature e sig
      → ((i : ℕ) (e' : Elem)
          → get_elem? elems i ≡ some e'
          → IsSignature e' (word_at (16 * i) bytes) × (word_at (16 * i + 8) bytes ≡ 0))
      → (i : ℕ) (e' : Elem) → get_elem? (e ∷ elems) i ≡ some e'
      → IsSignature e' (word_at (16 * i) (row sig bytes))
        × (word_at (16 * i + 8) (row sig bytes) ≡ 0)
  first_or_rest e elems sig bytes small this rest zero e' h =
      let same : e ≡ e' = ground arith in
      let value : sig ≡ word_at 0 (row sig bytes) = sym (le_value-le_bytes 8 sig small) in
      (
        subst (λ x. IsSignature x (word_at 0 (row sig bytes))) same
            (subst (IsSignature e) value this),
        refl,
      )
  first_or_rest e elems sig bytes small this rest (suc i) e' h =
      let (sig', null) = rest i e' h in
      (
        subst (λ l. IsSignature e' (le_value (take 8 l)))
            (sym (rows_after sig (16 * suc i) (16 * i) bytes (omega arith))) sig',
        ap (λ l. le_value (take 8 l))
              (rows_after sig (16 * suc i + 8) (16 * i + 8) bytes (omega arith))
            ∙ null,
      )

  -- Where a valid module has less than 2^64 signatures and no more names than functions, a table
  -- whose entries are functions with a name and whose rows end below 2^32 - 1 is written without a
  -- panic. Row `i` is at byte `16 * i`, and holds the unique signature that the module maps the type
  -- of the function of entry `i` to and a null pointer, or the greatest number and a null pointer
  -- where the entry is empty; and the linker is given the place of the second word of each row with
  -- a function.
  pub write_entries-IsLayout :
      (elems : List Elem) (position : ℕ)
      → IsValid c decls.info
      → length decls.function_names ≤ length decls.info.functions
      → length decls.info.signatures < usize_mod
      → AllFunctions elems
      → position + 16 * length elems < 4294967295
      → (out : List ℕ × List (ℕ × ℕ)) × (write_entries c d decls position elems ≡ ok out)
        × IsLayout elems position out
  unfolding write_entries
  write_entries-IsLayout [] position v fewer few all room =
      (([], []), refl, record { size = refl; addresses = refl; rows = λ i e h. cc })
  write_entries-IsLayout (empty ∷ elems) position v fewer few all room =
      let (out, run, l) =
        write_entries-IsLayout elems (position + 16) v fewer few all (omega arith) in
      (
        (row (usize_mod - 1) out.0, out.1),
        ground (arith, run),
        record {
          size = omega (arith, l.size);
          addresses = l.addresses;
          rows = first_or_rest empty elems (usize_mod - 1) out.0 (omega arith) refl l.rows;
        },
      )
  write_entries-IsLayout (func k ∷ elems) position v fewer few all room =
      let (out, run, l) =
        write_entries-IsLayout elems (position + 16) v fewer few all.1 (omega arith) in
      let (sig, found, is_sig, small) = signature_index_of_total k v fewer all.0 in
      (
        (row sig out.0, (position + 8, k) ∷ out.1),
        ground (arith, run, found),
        record {
          size = omega (arith, l.size);
          addresses = ap (λ l. (position + 8, k) ∷ l) l.addresses;
          rows = first_or_rest (func k) elems sig out.0 (omega (arith, small)) is_sig l.rows;
        },
      )
