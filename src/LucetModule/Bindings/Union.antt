-- ===== src/LucetModule/Bindings/Union.antt =====
-- Extending bindings is their union, and fails exactly if they disagree.
use lucet.Prelude.{
  ◌≡◌, ◌≢◌, ◌⊎◌, inl, inr, refl, sym, arith, Option, none, some, [], ◌∷◌, String, if◌then◌else◌, ok,
  err, Option-cases,
}
use lucet.Prelude.Maps.{lookup, insert, Unique, lookup-insert, String_cases}
use text.Mathlib.Text.{◌==◌ as str_eq}
use text.Mathlib.TextEquality.{eq_iff}
use lucet.LucetModule.Bindings.{Error, Methods, Bindings, rebind_error, extend_methods, extend}

abbrev pub or_else : {A : Type 0} → Option A → Option A → Option A
or_else none b = b
or_else (some a) b = some a

-- Two maps agree where both have a key.
abbrev Agree : Methods → Methods → Type 0
Agree a b = (s x y : String) → lookup s a ≡ some x → lookup s b ≡ some y → x ≡ y

abbrev IsUnion : Methods → Methods → Methods → Type 0
IsUnion a b r = (s : String) → lookup s r ≡ or_else (lookup s a) (lookup s b)

-- A key at which two maps disagree.
abbrev Differ : Methods → Methods → Type 0
Differ a b =
    (s : String) × (x : String) × (y : String) × (lookup s a ≡ some x)
    × (lookup s b ≡ some y)
    × (x ≢ y)

extend_methods_cases :
    (others existing : Methods)
    → Unique others
    → (Agree existing others
        × (r : Methods) × (extend_methods others existing ≡ (ok tt, r))
        × IsUnion existing others r)
      ⊎ (Differ existing others
          × (e : Error) × (r : Methods) × (extend_methods others existing ≡ (err e, r)))
unfolding extend_methods
extend_methods_cases [] existing u = inl ((λ s x y h k. cc), existing, refl, λ s. ground arith)
extend_methods_cases ((name, b) ∷ more) existing (fresh, u) =
    elim (Option-cases (lookup name existing)) [
      | inl vacant ↦ elim (extend_methods_cases more (insert name b existing) u) [
        | inl (agree, r, run, union) ↦ inl (
          λ s x y h k. ground (arith, eq_iff name s, lookup-insert name s b existing, agree s x y),
          r,
          ground (arith, vacant, run),
          λ s. ground (arith, eq_iff name s, lookup-insert name s b existing, union s),
        )
        | inr ((s, x, y, h, k, ne), e, r, run) ↦ inr (
          (
            s,
            x,
            y,
            ground (arith, eq_iff name s, lookup-insert name s b existing),
            ground (arith, eq_iff name s, lookup-insert name s b existing),
            ne,
          ),
          e,
          r,
          ground (arith, vacant, run),
        )
      ]
      | inr (old, occupied) ↦ elim (String_cases b old) [
        | inl same ↦ elim (extend_methods_cases more existing u) [
          | inl (agree, r, run, union) ↦ inl (
            λ s x y h k. ground (arith, eq_iff name s, agree s x y),
            r,
            ground (arith, occupied, eq_iff b old, run),
            λ s. ground (arith, eq_iff name s, union s),
          )
          | inr ((s, x, y, h, k, ne), e, r, run) ↦ inr (
            (s, x, y, h, ground (arith, eq_iff name s), ne),
            e,
            r,
            ground (arith, occupied, eq_iff b old, run),
          )
        ]
        | inr different ↦ inr (
          (name, old, b, occupied, ground (arith, eq_iff name name), λ e. different (sym e)),
          rebind_error name b old,
          existing,
          ground (arith, occupied, eq_iff b old),
        )
      ]
    ]

-- The symbol of a module and a name.
abbrev symbol_in : Option Methods → String → Option String
symbol_in none s = none
symbol_in (some methods) s = lookup s methods

abbrev pub bound : Bindings → String → String → Option String
bound b m s = symbol_in (lookup m b) s

-- No module occurs twice, nor any name in a module, as in maps.
abbrev pub AllUnique : Bindings → Type 0
AllUnique [] = Unit {0}
AllUnique ((m, methods) ∷ b) = (lookup m b ≡ none) × Unique methods × AllUnique b

-- The two bind every name that both have to the same symbol.
abbrev pub AgreeAll : Bindings → Bindings → Type 0
AgreeAll a b = (m s x y : String) → bound a m s ≡ some x → bound b m s ≡ some y → x ≡ y

abbrev pub DifferAt : Bindings → Bindings → Type 0
DifferAt a b =
    (m : String) × (s : String) × (x : String) × (y : String) × (bound a m s ≡ some x)
    × (bound b m s ≡ some y)
    × (x ≢ y)

abbrev pub IsUnionAll : Bindings → Bindings → Bindings → Type 0
IsUnionAll a b r = (m s : String) → bound r m s ≡ or_else (bound a m s) (bound b m s)

abbrev Extended : Bindings → Bindings → Type 0
Extended self others =
    (AgreeAll self others
      × (r : Bindings) × (extend others self ≡ (ok tt, r))
      × IsUnionAll self others r)
    ⊎ (DifferAt self others × (e : Error) × (r : Bindings) × (extend others self ≡ (err e, r)))

bound-insert :
    (k m s : String) (v : Methods) (b : Bindings)
    → bound (insert k v b) m s ≡ (if str_eq k m then lookup s v else bound b m s)
bound-insert k m s v b = ground (arith, lookup-insert k m v b)

-- Extending by bindings in which no key is repeated makes their union if the two agree wherever
-- both have a symbol, and else fails with an error.
pub extend_cases : (others self : Bindings) → AllUnique others → Extended self others
unfolding extend
extend_cases [] self u = inl ((λ m s x y h k. cc), self, refl, λ m s. ground arith)
extend_cases ((name, methods) ∷ more) self (fresh, u, us) = elim (Option-cases (lookup name self)) [
  | inl vacant ↦ elim (extend_cases more (insert name methods self) us) [
    | inl (agree, r, run, union) ↦ inl (
      λ m s x y h k.
          ground (arith, eq_iff name m, bound-insert name m s methods self, agree m s x y),
      r,
      ground (arith, vacant, run),
      λ m s. ground (arith, eq_iff name m, bound-insert name m s methods self, union m s),
    )
    | inr ((m, s, x, y, h, k, ne), e, r, run) ↦ inr (
      (
        m,
        s,
        x,
        y,
        ground (arith, eq_iff name m, bound-insert name m s methods self),
        ground (arith, eq_iff name m, bound-insert name m s methods self),
        ne,
      ),
      e,
      r,
      ground (arith, vacant, run),
    )
  ]
  | inr (existing, occupied) ↦ elim (extend_methods_cases methods existing u) [
    | inl (agree, r, run, union) ↦ elim (extend_cases more (insert name r self) us) [
      | inl (agree', r', run', union') ↦ inl (
        λ m s x y h k.
            ground
              (arith, eq_iff name m, bound-insert name m s r self, agree s x y, agree' m s x y),
        r',
        ground (arith, occupied, run, run'),
        λ m s. ground (arith, eq_iff name m, bound-insert name m s r self, union s, union' m s),
      )
      | inr ((m, s, x, y, h, k, ne), e, r', run') ↦ inr (
        (
          m,
          s,
          x,
          y,
          ground (arith, eq_iff name m, bound-insert name m s r self),
          ground (arith, eq_iff name m, bound-insert name m s r self),
          ne,
        ),
        e,
        r',
        ground (arith, occupied, run, run'),
      )
    ]
    | inr ((s, x, y, h, k, ne), e, r, run) ↦ inr (
      (name, s, x, y, ground (arith, occupied), ground (arith, eq_iff name name), ne),
      e,
      insert name r self,
      ground (arith, occupied, run),
    )
  ]
]
