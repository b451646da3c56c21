-- ===== src/Lucetc/Table/Elements.antt =====
-- The entries of a table against the meaning of its initializers, and its bytes against its entries.
use lucet.Prelude.{
  ℕ, zero, suc, ◌+◌, ◌-◌, ◌≤◌, ◌<◌, ◌≡◌, ◌≢◌, ◌⊎◌, ◌↔◌, refl, sym, ap, ◌∙◌, subst, arith, Bool,
  ◌&&◌, List, [], ◌∷◌, ◌==◌, ltb, leb, none, length, replicate, get_or, set, if◌then◌else◌,
  usize_mod, ok, length-replicate, inl, inr,
}
use lucet.Lucetc.Wasm.{Table, TableElems, TableElementType}
use lucet.Lucetc.ModuleInfo.Entries.{length-set}
use lucet.Lucetc.Table.{Elem, func, empty, write_elements, place_elems, table_elements}

abbrev covers : TableElems → ℕ → Bool
covers init i = leb init.offset i && ltb i (init.offset + length init.elements)

-- The entry at an index after the initializers have been written in their order.
abbrev pub entry_of : List TableElems → Elem → ℕ → Elem
entry_of [] before i = before
entry_of (init ∷ inits) before i =
    entry_of inits
      (if leb init.offset i && ltb i (init.offset + length init.elements)
        then func (get_or init.elements (i - init.offset) 0)
        else before)
      i

-- No initializer has a base, and each ends in the table.
abbrev pub AllInside : ℕ → List TableElems → Type 0
AllInside size [] = Unit {0}
AllInside size (init ∷ inits) =
    (init.base ≡ none) × (init.offset + length init.elements ≤ size) × AllInside size inits

get_or-set :
    (xs : List Elem) (i j : ℕ) (b : Elem)
    → get_or (set xs i b) j empty ≡ (if j == i && ltb i (length xs) then b else get_or xs j empty)
get_or-set [] i j b = ground arith
get_or-set (x ∷ xs) zero zero b = ground arith
get_or-set (x ∷ xs) zero (suc j) b = ground arith
get_or-set (x ∷ xs) (suc i) zero b = ground arith
get_or-set (x ∷ xs) (suc i) (suc j) b = ground (arith, get_or-set xs i j b)

length-write_elements :
    (at : ℕ) (es : List ℕ) (elems : List Elem) → length (write_elements at es elems) ≡ length elems
unfolding write_elements
length-write_elements at [] elems = refl
length-write_elements at (e ∷ es) elems =
    omega (
      arith,
      length-write_elements (at + 1) es (set elems at (func e)),
      length-set elems at (func e),
    )

get_or-write_elements :
    (at : ℕ) (es : List ℕ) (elems : List Elem) (j : ℕ)
    → at + length es ≤ length elems
    → get_or (write_elements at es elems) j empty ≡ (
        if leb at j && ltb j (at + length es)
        then func (get_or es (j - at) 0)
        else get_or elems j empty)
unfolding write_elements
get_or-write_elements at [] elems j room = ground arith
get_or-write_elements at (e ∷ es) elems j room =
    let rest =
      get_or-write_elements (at + 1) es (set elems at (func e)) j
        (omega (arith, length-set elems at (func e))) in
    elim (place_cases at j) [
      | inl same ↦
          let zero_ : j - at ≡ 0 = omega arith in
          ground (arith, rest, get_or-set elems at j (func e), zero_)
      | inr (inl below) ↦ ground (arith, rest, get_or-set elems at j (func e))
      | inr (inr above) ↦
          let next : j - at ≡ suc (j - (at + 1)) = omega arith in
          rw next (ground (arith, rest, get_or-set elems at j (func e)))
    ]
  where
    place_cases : (a b : ℕ) → (a ≡ b) ⊎ ((b < a) ⊎ (a < b))
    place_cases a b = ground arith

-- Whether an initializer can be placed.
inside_cases :
    (init : TableElems) (size : ℕ)
    → ((init.base ≡ none) × (init.offset + length init.elements ≤ size))
      ⊎ ((init.base ≢ none) ⊎ ((init.base ≡ none) × (size < init.offset + length init.elements)))
inside_cases init size = ground arith

-- An initializer whose end does not overflow: its offset has 32 bits.
abbrev pub AllShort : List TableElems → Type 0
AllShort [] = Unit {0}
AllShort (init ∷ inits) = (init.offset + length init.elements < usize_mod) × AllShort inits

record Placed (inits : List TableElems) (before after : List Elem) : Type 0 where
  size : length after ≡ length before
  entries :
      (i : ℕ) → i < length before → get_or after i empty ≡ entry_of inits (get_or before i empty) i

place_elems-Placed :
    (inits : List TableElems) (before : List Elem)
    → AllShort inits
    → AllInside (length before) inits
    → (after : List Elem) × (place_elems inits before ≡ ok after) × Placed inits before after
unfolding place_elems
place_elems-Placed [] before short inside =
    (before, refl, record { size = refl; entries = λ i h. refl })
place_elems-Placed (init ∷ inits) before short (base, room, inside) =
    let mid = write_elements init.offset init.elements before in
    let same = length-write_elements init.offset init.elements before in
    let (after, run, p) =
      place_elems-Placed inits mid short.1 (subst (λ n. AllInside n inits) (sym same) inside) in
    (
      after,
      ground (arith, base, run),
      record {
        size = omega (arith, p.size, same);
        entries = λ i h.
            p.entries i (omega (arith, same))
            ∙ ap (λ e. entry_of inits e i)
                (get_or-write_elements init.offset init.elements before i room);
      },
    )

place_elems-AllInside :
    (inits : List TableElems) (before after : List Elem)
    → AllShort inits
    → place_elems inits before ≡ ok after
    → AllInside (length before) inits
unfolding place_elems
place_elems-AllInside [] before after short h = tt
place_elems-AllInside (init ∷ inits) before after short h =
    elim (inside_cases init (length before)) [
      | inl (base, room) ↦
          let mid = write_elements init.offset init.elements before in
          let rest : place_elems inits mid ≡ ok after = ground (arith, base, h) in
          (
            base,
            room,
            subst (λ n. AllInside n inits) (length-write_elements init.offset init.elements before)
                (place_elems-AllInside inits mid after short.1 rest),
          )
      | inr (inl bad) ↦ absurd (ground (arith, bad, h))
      | inr (inr (base, beyond)) ↦ absurd (ground (arith, base, beyond, h))
    ]

-- The entries that the initializers give to a table of functions.
pub record IsTable (table : Table) (inits : List TableElems) (out : List Elem) : Type 0 where
  pub size : length out ≡ table.minimum
  pub entries : (i : ℕ) → i < table.minimum → get_or out i empty ≡ entry_of inits empty i

get_or-replicate : (n i : ℕ) → get_or (replicate n empty) i empty ≡ empty
get_or-replicate zero i = refl
get_or-replicate (suc n) zero = refl
get_or-replicate (suc n) (suc i) = get_or-replicate n i

module _ (table : Table) (inits : List TableElems) (funcs : table.ty ≡ TableElementType.func)
    (short : AllShort inits) where
  table_elements-placed :
      AllInside table.minimum inits
      → (out : List Elem) × (table_elements table inits ≡ ok out) × IsTable table inits out
  unfolding table_elements
  table_elements-placed inside =
      let start : List Elem = replicate table.minimum empty in
      let size : length start ≡ table.minimum = length-replicate {A = Elem} table.minimum empty in
      let (out, run, p) =
        place_elems-Placed inits start short (subst (λ n. AllInside n inits) (sym size) inside) in
      (
        out,
        ground (arith, run),
        record {
          size = omega (arith, p.size, size);
          entries = λ i h.
              p.entries i (omega (arith, size))
              ∙ ap (λ e. entry_of inits e i) (get_or-replicate table.minimum i);
        },
      )

  -- The table of functions is made exactly if no initializer has a global as its base and each ends
  -- in the table.
  pub table_elements-AllInside :
      ((out : List Elem) × (table_elements table inits ≡ ok out)) ↔ AllInside table.minimum inits
  unfolding table_elements
  table_elements-AllInside = (
    λ x.
        subst (λ n. AllInside n inits) (length-replicate {A = Elem} table.minimum empty)
          (place_elems-AllInside inits (replicate table.minimum empty) x.0 short
            (ground (arith, x.1))),
    λ inside. let (out, run, p) = table_elements-placed inside in (out, run),
  )

  -- Where the elements of a table of functions are made, from initializers whose ends do not
  -- overflow, there are as many as the table's minimum, and each is the function that the last
  -- initializer that covers its index gives it, or empty.
  pub table_elements-IsTable :
      (out : List Elem) → table_elements table inits ≡ ok out → IsTable table inits out
  table_elements-IsTable out h =
      let (out', run, p) = table_elements-placed (table_elements-AllInside.0 (out, h)) in
      let same : out' ≡ out = ground arith in subst (IsTable table inits) same p
