-- ===== src/Runtime/Userfault/Lazy.antt =====
-- A lazy memory as three functions of the page or the address, on which a call succeeds if its
-- range is aligned and not empty and, where pages are filled, has none yet.
use lucet.Prelude.{
  ℕ, zero, suc, ◌+◌, ◌-◌, ◌/◌, ◌%◌, ◌≡◌, refl, arith, Bool, true, false, not, ◌&&◌, ltb, ◌==◌,
  length, get_or, if◌then◌else◌, ◌<◌, ◌≤◌, Bool-cases, inl, inr,
}
use lucet.Runtime.Vm.{in_range}
use lucet.Runtime.Userfault.{
  Userfault, UserfaultLaws, SameMem, Filled, Reply, done, no_entry, failed,
}

pub record LazyMem : Type 0 where
  pub pages : ℕ → Bool
  pub bytes : ℕ → ℕ
  pub sleepers : ℕ → Bool

-- No page, and a thread asleep at the given address.
abbrev pub asleep_at : ℕ → LazyMem
asleep_at addr = record { pages = λ p. false; bytes = λ x. 0; sleepers = λ x. x == addr }

abbrev all_absent : (ℕ → Bool) → ℕ → ℕ → Bool
all_absent pages zero p = true
all_absent pages (suc n) p = not (pages p) && all_absent pages n (p + 1)

abbrev is_free : ℕ → ℕ → LazyMem → Bool
is_free a n m =
    a % 4096 == 0 && n % 4096 == 0 && ltb 0 n && all_absent m.pages (n / 4096) (a / 4096)

abbrev in_pages : ℕ → ℕ → ℕ → Bool
in_pages p a n = in_range p (a / 4096) ((a + n) / 4096)

abbrev fill : ℕ → ℕ → Bool → (ℕ → ℕ) → LazyMem → Reply × LazyMem
fill a n w source m =
    if is_free a n m
    then (
      done n,
      record {
        pages = λ p. if in_pages p a n then true else m.pages p;
        bytes = λ x. if in_range x a (a + n) then source x else m.bytes x;
        sleepers = λ x. if w && in_range x a (a + n) then false else m.sleepers x;
      },
    )
    else (failed, m)

abbrev is_whole : ℕ → ℕ → Bool
is_whole a n = a % 4096 == 0 && n % 4096 == 0 && ltb 0 n

abbrev pub lazy : Userfault
lazy = record {
  Mem = LazyMem;
  present = λ m x. m.pages (x / 4096);
  byte = λ m x. m.bytes x;
  asleep = λ m x. m.sleepers x;
  zeropage = λ a n w m. fill a n w (λ x. 0) m;
  copy = λ bs a n w m. fill a n w (λ x. get_or bs (x - a) 0) m;
  wake = λ a n m.
      (true, record m { sleepers = λ x. if in_range x a (a + n) then false else m.sleepers x });
  madvise = λ a n m.
      (is_whole a n, record m { pages = λ p. if in_pages p a n then false else m.pages p });
  unregister = λ a n m. (true, m);
  store = λ a bs m. record m {
    bytes = λ x. if in_range x a (a + length bs) then get_or bs (x - a) 0 else m.bytes x;
  };
}

in_pages-in_range :
    (a n x : ℕ) → is_whole a n ≡ true → in_pages (x / 4096) a n ≡ in_range x a (a + n)
in_pages-in_range a n x h = ground arith

all_absent-not :
    (pages : ℕ → Bool) (n p q : ℕ)
    → all_absent pages n p ≡ true
    → p ≤ q
    → q < p + n
    → pages q ≡ false
all_absent-not pages zero p q h l r = absurd (omega arith)
all_absent-not pages (suc n) p q h l r = elim (Bool-cases (ltb p q)) [
  | inl above ↦ all_absent-not pages n (p + 1) q (ground arith) (ground arith) (omega arith)
  | inr same ↦
      let e : q ≡ p = ground arith in let free : pages p ≡ false = ground arith in rw e free
]

is_free-absent :
    (a n x : ℕ) (m : LazyMem)
    → is_free a n m ≡ true
    → in_range x a (a + n) ≡ true
    → m.pages (x / 4096) ≡ false
is_free-absent a n x m h r =
    let free : all_absent m.pages (n / 4096) (a / 4096) ≡ true = ground arith in
    all_absent-not m.pages (n / 4096) (a / 4096) (x / 4096) free (ground arith) (ground arith)

module _ (a n l : ℕ) (w : Bool) (source : ℕ → ℕ) (m : LazyMem) (x : ℕ)
    (h : (fill a n w source m).0 ≡ done l) where
  fill-is_free : is_free a n m ≡ true
  fill-is_free = ground arith

  fill_absent : in_range x a (a + n) ≡ true → m.pages (x / 4096) ≡ false
  fill_absent = is_free-absent a n x m fill-is_free

  fill_present :
      (fill a n w source m).1.pages (x / 4096)
      ≡ (if in_range x a (a + n) then true else m.pages (x / 4096))
  fill_present = rw fill-is_free (ground (arith, fill-is_free, in_pages-in_range a n x))

  fill_byte :
      (fill a n w source m).1.bytes x ≡ (if in_range x a (a + n) then source x else m.bytes x)
  fill_byte = rw fill-is_free refl

  fill_asleep :
      (fill a n w source m).1.sleepers x
      ≡ (if w && in_range x a (a + n) then false else m.sleepers x)
  fill_asleep = rw fill-is_free refl

fill-Filled :
    (a n l : ℕ) (w : Bool) (source : ℕ → ℕ) (m : LazyMem)
    → (fill a n w source m).0 ≡ done l
    → Filled lazy a n w source m (fill a n w source m).1
fill-Filled a n l w source m h = record {
  absent = λ x. fill_absent a n l w source m x h;
  present = λ x. fill_present a n l w source m x h;
  byte = λ x. fill_byte a n l w source m x h;
  asleep = λ x. fill_asleep a n l w source m x h;
}

fill_retry :
    (a n : ℕ) (w : Bool) (source : ℕ → ℕ) (m : LazyMem)
    → (fill a n w source m).0 ≡ no_entry
    → SameMem lazy m (fill a n w source m).1
fill_retry a n w source m h = absurd (ground arith)

pub lazy-laws : UserfaultLaws lazy
lazy-laws = record {
  zeropage_fills = λ a n l w m h. fill-Filled a n l w (λ y. 0) m h;
  zeropage_retry = λ a n w m h. fill_retry a n w (λ y. 0) m h;
  copy_fills = λ bs a n l w m len h. fill-Filled a n l w (λ y. get_or bs (y - a) 0) m h;
  copy_retry = λ bs a n w m h. fill_retry a n w (λ y. get_or bs (y - a) 0) m h;
  wake_present = λ a n m x h. refl;
  wake_byte = λ a n m x h. refl;
  wake_asleep = λ a n m x h. refl;
  madvise_present = λ a n m x whole h. ground (arith, in_pages-in_range a n x);
  madvise_byte = λ a n m x whole h o. refl;
  store_present = λ a bs m x. refl;
  store_byte = λ a bs m x. refl;
}
