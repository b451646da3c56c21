-- ===== src/Runtime/Uffd/Prepared.antt =====
-- What the set-up of a slot for a new instance does to its memory.
use lucet.Prelude.{
  ℕ, zero, suc, ◌+◌, ◌*◌, ◌/◌, ◌%◌, ◌<◌, ◌≡◌, refl, ◌∙◌, arith, Bool, true, false, ◌||◌, Option,
  some, none, List, [], ◌∷◌, ok, length, ◌==◌, ltb, usize_mod, add_usize, mul_usize, if◌then◌else◌,
  Bool-cases, Option-cases, inl, inr,
}
use lucet.Prelude.Effects.{Eff, continue-eq-ok, pure}
use lucet.LucetModule.LinearMemory.{HeapSpec, get_page}
use lucet.LucetModule.LinearMemory.Pages.{AllPages}
use lucet.Runtime.Error.{Error}
use lucet.Runtime.Module.{Module}
use lucet.Runtime.Slot.{Slot}
use lucet.Runtime.Limits.{Limits, is_misaligned}
use lucet.Runtime.Vm.{in_range}
use lucet.Runtime.Mmap.{initial_size_of}
use lucet.Runtime.Userfault.{Userfault, UserfaultLaws, Reply, done, no_entry, failed}
use lucet.Runtime.Uffd.{UffdConfig, Disposition, eager, lazy, zeropage, filled, settle}
use lucet.Runtime.Uffd.Retry.{zeropage-Filled}
use lucet.Runtime.Uffd.Region.{
  settle_expect, zero_ranges, init_list, store_pages, eager_heap, init_heap, prepare,
}

-- Whether one of the ranges holds an address.
abbrev pub covers : List (ℕ × ℕ) → ℕ → Bool
covers [] x = false
covers ((ptr, len) ∷ ranges) x = in_range x ptr (ptr + len) || covers ranges x

module _ (k : Userfault) where
  settle_expect-settle :
      (r : Option Reply × k.Mem)
      → (settle_expect k r).0 ≡ ok tt
      → ((settle k r).0 ≡ ok tt) × ((settle k r).1 ≡ (settle_expect k r).1)
  settle_expect-settle (none, m) h = absurd (ground arith)
  settle_expect-settle (some (done n), m) h = (refl, refl)
  settle_expect-settle (some no_entry, m) h = absurd (ground arith)
  settle_expect-settle (some failed, m) h = absurd (ground arith)

  -- The addresses of a test have a zeroed page now; the others are as they were.
  pub record Zeroed (test : ℕ → Bool) (m m' : k.Mem) : Type 0 where
    pub present : (x : ℕ) → k.present m' x ≡ (if test x then true else k.present m x)
    pub byte : (x : ℕ) → k.byte m' x ≡ (if test x then 0 else k.byte m x)

  module _ (laws : UserfaultLaws k) (config : UffdConfig) where
    abbrev zero_range : ℕ → ℕ → Eff k.Mem Error (Unit {0})
    zero_range ptr len =
        if ltb 0 len
        then (λ m. settle_expect k (zeropage k ptr len true config.enoent_retry_limit m))
        else pure tt

    zero_range-Zeroed :
        (ptr len : ℕ) (m : k.Mem)
        → (zero_range ptr len m).0 ≡ ok tt
        → Zeroed (λ x. in_range x ptr (ptr + len)) m (zero_range ptr len m).1
    zero_range-Zeroed ptr len m h = elim (Bool-cases (ltb 0 len)) [
      | inl some_ ↦
          let r = zeropage k ptr len true config.enoent_retry_limit m in
          let (done_, same) = settle_expect-settle r (rw some_ at h) in
          let f = zeropage-Filled k laws ptr len config.enoent_retry_limit true m done_ in
          rw (some_, ← same) (record { present = f.present; byte = f.byte })
      | inr none_ ↦ rw none_ (record { present = λ x. ground arith; byte = λ x. ground arith })
    ]

    pub zero_ranges-Zeroed :
        (ranges : List (ℕ × ℕ)) (m : k.Mem)
        → (zero_ranges k config ranges m).0 ≡ ok tt
        → Zeroed (covers ranges) m (zero_ranges k config ranges m).1
    unfolding zero_ranges
    zero_ranges-Zeroed [] m h = record { present = λ x. refl; byte = λ x. refl }
    zero_ranges-Zeroed ((ptr, len) ∷ ranges) m h =
        let (_, first, then_) =
          continue-eq-ok (zero_range ptr len m) (λ _. zero_ranges k config ranges) h in
        let z = zero_range-Zeroed ptr len m first in
        let rest = zero_ranges-Zeroed ranges (zero_range ptr len m).1 (rw then_ at h) in
        rw then_ (record {
          present = λ x. ground (arith, z.present x, rest.present x);
          byte = λ x. ground (arith, z.byte x, rest.byte x);
        })

  module _ (module_ : Module) (slot : Slot) (rounds p : ℕ) (m : k.Mem) where
    abbrev page_addr : ℕ
    page_addr = add_usize slot.heap (mul_usize p 4096)

    store_pages_end : store_pages k module_ slot zero p m ≡ (ok tt, m)
    unfolding store_pages
    store_pages_end = refl

    store_pages_skip :
        get_page module_.sparse_data p ≡ none
        → store_pages k module_ slot (suc rounds) p m ≡ store_pages k module_ slot rounds (p + 1) m
    unfolding store_pages
    store_pages_skip e = rw (store_pages, e) refl

    store_pages_store :
        (c : List ℕ)
        → get_page module_.sparse_data p ≡ some c
        → length c ≡ 4096
        → store_pages k module_ slot (suc rounds) p m
          ≡ store_pages k module_ slot rounds (p + 1) (k.store page_addr c m)
    unfolding store_pages
    store_pages_store c e l =
        let whole : (length c == 4096) ≡ true = ground (arith, l) in rw (store_pages, e, whole) refl

  -- A memory in which nothing but bytes of a range may have changed.
  pub record Within (start len : ℕ) (m m' : k.Mem) : Type 0 where
    pub present : (x : ℕ) → k.present m' x ≡ k.present m x
    pub byte : (x : ℕ) → in_range x start (start + len) ≡ false → k.byte m' x ≡ k.byte m x

  module _ (laws : UserfaultLaws k) (module_ : Module) (pages : AllPages module_.sparse_data)
      (slot : Slot) where
    -- The loop succeeds and writes to the pages of the initial heap only.
    store_pages-Within :
        (rounds p : ℕ) (m : k.Mem)
        → slot.heap + (p + rounds) * 4096 < usize_mod
        → ((store_pages k module_ slot rounds p m).0 ≡ ok tt)
          × Within slot.heap ((p + rounds) * 4096) m (store_pages k module_ slot rounds p m).1
    store_pages-Within zero p m l =
        rw (store_pages_end module_ slot 0 p m)
          (refl, record { present = λ x. refl; byte = λ x o. refl })
    store_pages-Within (suc rounds) p m l = elim (Option-cases (get_page module_.sparse_data p)) [
      | inl e ↦
          let shift : p + 1 + rounds ≡ p + suc rounds = omega arith in
          rw (store_pages_skip module_ slot rounds p m e, ← shift)
            (store_pages-Within rounds (p + 1) m (omega arith))
      | inr (c, e) ↦
          let len = pages p c e in
          let m1 : k.Mem = k.store (page_addr module_ slot rounds p m) c m in
          let (fine, w) = store_pages-Within rounds (p + 1) m1 (omega arith) in
          rw (store_pages_store module_ slot rounds p m c e len) (
            fine,
            record {
              present = λ x. w.present x ∙ laws.store_present _ c m x;
              byte = λ x o.
                  let addr : page_addr module_ slot rounds p m ≡ slot.heap + p * 4096 =
                    omega arith in
                  w.byte x (ground arith)
                  ∙ ground
                      (arith, laws.store_byte (page_addr module_ slot rounds p m) c m x, addr, len);
            },
          )
    ]

  -- A memory in which nothing outside a range has changed.
  pub record Outside (start len : ℕ) (m m' : k.Mem) : Type 0 where
    pub present : (x : ℕ) → in_range x start (start + len) ≡ false → k.present m' x ≡ k.present m x
    pub byte : (x : ℕ) → in_range x start (start + len) ≡ false → k.byte m' x ≡ k.byte m x

  -- Outside of the initial heap, a slot that was set up has a page of zeros where the
  -- configuration says so, and is as it was elsewhere.
  pub record IsPrepared (config : UffdConfig) (slot : Slot) (size : ℕ) (limits : Limits)
      (m m' : k.Mem) : Type 0 where
    pub present :
        (x : ℕ)
        → in_range x slot.heap (slot.heap + size) ≡ false
        → k.present m' x
          ≡ (if covers (init_list k config limits slot) x then true else k.present m x)
    pub byte :
        (x : ℕ)
        → in_range x slot.heap (slot.heap + size) ≡ false
        → k.byte m' x ≡ (if covers (init_list k config limits slot) x then 0 else k.byte m x)

  module _ (laws : UserfaultLaws k) (config : UffdConfig) (module_ : Module)
      (pages : AllPages module_.sparse_data) (slot : Slot) (size : ℕ)
      (fits : slot.heap + size < usize_mod) where
    eager_heap-Outside :
        (spec : Option HeapSpec) (m : k.Mem)
        → initial_size_of spec ≡ size
        → (eager_heap k config module_ slot spec m).0 ≡ ok tt
        → Outside slot.heap size m (eager_heap k config module_ slot spec m).1
    eager_heap-Outside none m e h = record { present = λ x o. refl; byte = λ x o. refl }
    eager_heap-Outside (some spec) m e h = elim (Bool-cases (spec.initial_size % 4096 == 0)) [
      | inl whole ↦
          let zeroes =
            filled k (zeropage k slot.heap spec.initial_size false config.enoent_retry_limit) in
          let stores = store_pages k module_ slot (spec.initial_size / 4096) 0 in
          let (_, first, then_) = continue-eq-ok (zeroes m) (λ _. stores) (rw whole at h) in
          let f =
            zeropage-Filled k laws slot.heap spec.initial_size config.enoent_retry_limit false m
              first in
          let (_, w) =
            store_pages-Within laws module_ pages slot (spec.initial_size / 4096) 0 (zeroes m).1
              (omega arith) in
          rw (whole, then_)
            (record {
              present = λ x o. w.present x ∙ ground (arith, f.present x, e);
              byte = λ x o. w.byte x (ground (arith, e)) ∙ ground (arith, f.byte x, e);
            })
      | inr partial ↦ absurd (ground (arith, partial, h))
    ]

    by_init :
        (init : Disposition) (m : k.Mem)
        → let run : Eff k.Mem Error (Unit {0}) = elim init [
          | eager ↦ eager_heap k config module_ slot module_.heap_spec
          | lazy ↦ pure tt
        ] in
          initial_size_of module_.heap_spec ≡ size
          → (run m).0 ≡ ok tt
          → Outside slot.heap size m (run m).1
    by_init eager m e h = eager_heap-Outside module_.heap_spec m e h
    by_init lazy m e h = record { present = λ x o. refl; byte = λ x o. refl }

    init_heap-Outside :
        (m : k.Mem)
        → initial_size_of module_.heap_spec ≡ size
        → (init_heap k config module_ slot m).0 ≡ ok tt
        → Outside slot.heap size m (init_heap k config module_ slot m).1
    unfolding init_heap
    init_heap-Outside = by_init config.heap_init

    pub prepare-IsPrepared :
        (limits : Limits) (m : k.Mem)
        → slot.heap % 4096 ≡ 0
        → initial_size_of module_.heap_spec ≡ size
        → (prepare k config limits module_ slot m).0 ≡ ok tt
        → IsPrepared config slot size limits m (prepare k config limits module_ slot m).1
    unfolding prepare
    prepare-IsPrepared limits m aligned e h =
        let at_ : is_misaligned slot.heap ≡ false = ground arith in
        let ranges = init_list k config limits slot in
        let zeroes = zero_ranges k config ranges in
        let heap = init_heap k config module_ slot in
        let (_, first, then_) = continue-eq-ok (zeroes m) (λ _. heap) (rw at_ at h) in
        let z = zero_ranges-Zeroed laws config ranges m first in
        let o = init_heap-Outside (zeroes m).1 e (rw (at_, then_) at h) in
        rw (at_, then_)
          (record {
            present = λ x out. o.present x out ∙ z.present x;
            byte = λ x out. o.byte x out ∙ z.byte x;
          })
