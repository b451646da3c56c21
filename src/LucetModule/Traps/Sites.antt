-- ===== src/LucetModule/Traps/Sites.antt =====
-- The trap of an address, against the sites of the functions that contain it.
use lucet.Prelude.{
  ℕ, zero, suc, ◌-◌, ◌<◌, ◌≡◌, ◌⊎◌, ◌↔◌, inl, inr, refl, sym, subst, ap, ◌∙◌, arith, true, false,
  none, some, List, [], ◌∷◌, get_elem?, u32_mod, Option-cases, Bool-cases,
}
use lucet.Runtime.Error.{TrapCode}
use lucet.LucetModule.Traps.{
  TrapSite, IsSorted, Memory, FunctionSpec, contains, relative_addr, lookup_addr, traps, trap_in,
  lookup_trapcode,
}

-- The relative address is given exactly inside the function, and is not truncated.
relative_addr_iff :
    (f : FunctionSpec) (addr offset : ℕ)
    → f.code_len < u32_mod
    → (relative_addr f addr ≡ some offset)
      ↔ ((contains f addr ≡ true) × (offset ≡ addr - f.code_addr))
unfolding relative_addr contains
relative_addr_iff f addr offset small = (λ h. ground arith, λ h. ground arith)

not_relative : (f : FunctionSpec) (addr : ℕ) → contains f addr ≡ false → relative_addr f addr ≡ none
unfolding relative_addr contains
not_relative f addr h = ground arith

module _ (m : Memory) where
  -- A site of the function for the address.
  pub record SiteAt (f : FunctionSpec) (rip : ℕ) (code : TrapCode) : Type 0 where
    pub sites : List TrapSite
    pub given : traps m f ≡ some sites
    pub index : ℕ
    pub site : TrapSite
    pub at : get_elem? sites index ≡ some site
    pub offset : site.offset ≡ rip - f.code_addr
    pub is_code : site.code ≡ code

  -- Functions of 32-bit length with sorted sites, no two of which contain the same address.
  abbrev pub IsManifest : List FunctionSpec → Type 0
  IsManifest [] = Unit {0}
  IsManifest (f ∷ manifest) =
      (f.code_len < u32_mod)
      × ((sites : List TrapSite) → traps m f ≡ some sites → IsSorted sites)
      × ((i rip : ℕ) (g : FunctionSpec)
          → get_elem? manifest i ≡ some g
          → contains f rip ≡ true
          → contains g rip ≡ false)
      × IsManifest manifest

  abbrev pub TrapsAt : List FunctionSpec → ℕ → TrapCode → Type 0
  TrapsAt manifest rip code =
      (i : ℕ) × (f : FunctionSpec) × (get_elem? manifest i ≡ some f)
      × (contains f rip ≡ true)
      × SiteAt f rip code

  abbrev Entry : List TrapSite → ℕ → TrapCode → Type 0
  Entry sites offset code =
      (i : ℕ) × (site : TrapSite) × (get_elem? sites i ≡ some site)
      × (site.offset ≡ offset)
      × (site.code ≡ code)

  order_cases : (i j : ℕ) → (i ≡ j) ⊎ ((i < j) ⊎ (j < i))
  order_cases i j = ground arith

  same_site :
      (sites : List TrapSite) (i j : ℕ) (a b : TrapSite)
      → IsSorted sites
      → get_elem? sites i ≡ some a
      → get_elem? sites j ≡ some b
      → a.offset ≡ b.offset
      → a ≡ b
  same_site sites i j a b sorted h k e = elim (order_cases i j) [
    | inl same ↦
        let h' : get_elem? sites j ≡ some a = ap (get_elem? sites) (sym same) ∙ h in ground arith
    | inr (inl lt) ↦ absurd (omega (arith, sorted i j a b h k lt, e))
    | inr (inr gt) ↦ absurd (omega (arith, sorted j i b a k h gt, e))
  ]

  lookup_addr_iff :
      (sites : List TrapSite) (offset : ℕ) (code : TrapCode)
      → IsSorted sites
      → (lookup_addr m sites offset ≡ some code) ↔ Entry sites offset code
  unfolding lookup_addr
  lookup_addr_iff sites offset code sorted = elim (Option-cases (m.binary_search sites offset)) [
    | inl missing ↦ (
      λ h. absurd (ground (arith, missing, h)),
      λ (i, site, at, e, c). absurd (m.absent sites offset i site sorted missing at e),
    )
    | inr (j, hit) ↦
        let (site, at, e) = m.found sites offset j sorted hit in
        (
          λ h. (j, site, at, e, ground (arith, hit, at, h)),
          λ (i, site', at', e', c).
              let same : site ≡ site' = same_site sites j i site site' sorted at at' (e ∙ sym e') in
              ground (arith, hit, at, same, c),
        )
  ]

  trap_in_iff :
      (f : FunctionSpec) (rip : ℕ) (code : TrapCode)
      → ((sites : List TrapSite) → traps m f ≡ some sites → IsSorted sites)
      → (trap_in m (traps m f) (rip - f.code_addr) ≡ some code) ↔ SiteAt f rip code
  trap_in_iff f rip code sorted = elim (Option-cases (traps m f)) [
    | inl missing ↦
        (λ h. absurd (ground (arith, missing, h)), λ s. absurd (ground (arith, missing, s.given)))
    | inr (sites, given) ↦
        let entry = lookup_addr_iff sites (rip - f.code_addr) code (sorted sites given) in
        (
          λ h.
              let (i, site, at, e, c) = entry.0 (ground (arith, given, h)) in
              record {
                sites = sites;
                given = given;
                index = i;
                site = site;
                at = at;
                offset = e;
                is_code = c;
              },
          λ s.
              let same : s.sites ≡ sites = ground (arith, given, s.given) in
              let at : get_elem? sites s.index ≡ some s.site =
                ap (λ l. get_elem? l s.index) (sym same) ∙ s.at in
              let found = entry.1 (s.index, s.site, at, s.offset, s.is_code) in
              ground (arith, given, found),
        )
  ]

  -- In a manifest of functions of 32-bit length with sorted sites, no two of which contain the
  -- same address: an address has a trap exactly if a function contains it and has a trap site at
  -- the address relative to its code, and it is the code of that site.
  pub lookup_trapcode-TrapsAt :
      (manifest : List FunctionSpec) (rip : ℕ) (code : TrapCode)
      → IsManifest manifest
      → (lookup_trapcode m manifest rip ≡ some code) ↔ TrapsAt manifest rip code
  unfolding lookup_trapcode
  lookup_trapcode-TrapsAt [] rip code good =
      (λ h. absurd (ground arith), λ (i, f, at, x, s). absurd (ground arith))
  lookup_trapcode-TrapsAt (f ∷ manifest) rip code (small, sorted, apart, good) =
      let later = lookup_trapcode-TrapsAt manifest rip code good in
      let here = trap_in_iff f rip code sorted in
      elim (Bool-cases (contains f rip)) [
        | inl inside ↦
            let relative = (relative_addr_iff f rip (rip - f.code_addr) small).1 (inside, refl) in
            (
              λ h. (0, f, refl, inside, here.0 (ground (arith, relative, h))),
              λ x. ground (
                arith,
                relative,
                here.1 (first_found f manifest rip code (λ i g at. apart i rip g at inside) x),
              ),
            )
        | inr outside ↦
            let relative : relative_addr f rip ≡ none = not_relative f rip outside in
            (
              λ h.
                  let (i, g, at, x, s) = later.0 (ground (arith, relative, h)) in
                  (suc i, g, at, x, s),
              λ x. ground (arith, relative, later.1 (later_found f manifest rip code outside x)),
            )
      ]
    where
      first_found :
          (f : FunctionSpec) (manifest : List FunctionSpec) (rip : ℕ) (code : TrapCode)
          → ((i : ℕ) (g : FunctionSpec) → get_elem? manifest i ≡ some g → contains g rip ≡ false)
          → TrapsAt (f ∷ manifest) rip code
          → SiteAt f rip code
      first_found f manifest rip code apart (zero, g, at, x, s) =
          let same : g ≡ f = ground arith in subst (λ y. SiteAt y rip code) same s
      first_found f manifest rip code apart (suc i, g, at, x, s) =
          absurd (ground (arith, apart i g at))

      later_found :
          (f : FunctionSpec) (manifest : List FunctionSpec) (rip : ℕ) (code : TrapCode)
          → contains f rip ≡ false
          → TrapsAt (f ∷ manifest) rip code
          → TrapsAt manifest rip code
      later_found f manifest rip code outside (zero, g, at, x, s) = absurd (ground arith)
      later_found f manifest rip code outside (suc i, g, at, x, s) = (i, g, at, x, s)
