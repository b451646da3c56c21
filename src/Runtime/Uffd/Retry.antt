-- ===== src/Runtime/Uffd/Retry.antt =====
-- The retry loop of `zeropage` and `copy`: it returns, and how often it calls the kernel.
use lucet.Prelude.{
  ℕ, zero, suc, ◌+◌, ◌-◌, ◌≤◌, ◌<◌, ◌≡◌, refl, sym, List, [], length, get_or, ok, arith, Bool, some,
  Option, leb, max, Bool-cases, inl, inr, if◌then◌else◌, ◌⊎◌, ◌∙◌,
}
use lucet.Runtime.Userfault.{
  Userfault, UserfaultLaws, SameMem, Filled, Reply, done, no_entry, failed,
}
use lucet.Runtime.Uffd.{retry, zeropage, copy, settle, filled}

-- The memory after `n` calls, and what the call after those answers.
abbrev pub after : {M : Type 0} → (M → Reply × M) → ℕ → M → M
after ioctl zero m = m
after ioctl (suc n) m = after ioctl n (ioctl m).1

abbrev pub reply_after : {M : Type 0} → (M → Reply × M) → ℕ → M → Reply
reply_after ioctl n m = (ioctl (after ioctl n m)).0

-- What a run with `left` calls to go did: it returned the answer and the memory of its last call,
-- all calls before the last were answered by `ENOENT`, and the last one was not, or no call was left.
pub record Retried (M : Type 0) (ioctl : M → Reply × M) (left : ℕ) (m : M) (r : Option Reply × M)
    : Type 0 where
  pub before : ℕ
  pub bounded : before < left
  pub result : r ≡ (some (reply_after ioctl before m), after ioctl (suc before) m)
  pub retried : (i : ℕ) → i < before → reply_after ioctl i m ≡ no_entry
  pub settled : reply_after ioctl before m ≡ no_entry → suc before ≡ left

pub Reply-cases : (r : Reply) → ((r ≡ no_entry) ⊎ ((n : ℕ) × (r ≡ done n))) ⊎ (r ≡ failed)
Reply-cases no_entry = inl (inl refl)
Reply-cases (done n) = inl (inr (n, refl))
Reply-cases failed = inr refl

module _ {M : Type 0} (ioctl : M → Reply × M) (limit fuel retries : ℕ) (m : M) where
  abbrev returned : Reply → Option Reply × M
  returned r = (some r, (ioctl m).1)

  retry_failed : (ioctl m).0 ≡ failed → retry ioctl limit (suc fuel) retries m ≡ returned failed
  unfolding retry
  retry_failed e = rw (e, retry) refl

  retry_done :
      (n : ℕ) → (ioctl m).0 ≡ done n → retry ioctl limit (suc fuel) retries m ≡ returned (done n)
  unfolding retry
  retry_done n e = rw (e, retry) refl

  retry_again :
      (ioctl m).0 ≡ no_entry
      → retry ioctl limit (suc fuel) retries m ≡ (
          if leb limit (retries + 1)
          then returned no_entry
          else retry ioctl limit fuel (retries + 1) (ioctl m).1)
  unfolding retry
  retry_again e = rw (e, retry) refl

  last_call :
      (r : Reply) (left : ℕ)
      → (ioctl m).0 ≡ r
      → 0 < left
      → (r ≡ no_entry → 1 ≡ left)
      → Retried M ioctl left m (returned r)
  last_call r left e pos last = record {
    before = 0;
    bounded = pos;
    result = rw e refl;
    retried = λ i h. elim h [ ];
    settled = λ h. last (sym e ∙ h);
  }

one_more :
    {M : Type 0} (ioctl : M → Reply × M) (left : ℕ) (m : M) (r : Option Reply × M)
    → (ioctl m).0 ≡ no_entry
    → Retried M ioctl left (ioctl m).1 r
    → Retried M ioctl (suc left) m r
one_more ioctl left m r e t = record {
  before = suc t.before;
  bounded = omega (arith, t.bounded);
  result = t.result;
  retried = λ i h. earlier i h;
  settled = λ h. omega (arith, t.settled h);
}
  where
    earlier : (i : ℕ) → i < suc t.before → reply_after ioctl i m ≡ no_entry
    earlier zero h = e
    earlier (suc i) h = t.retried i (omega arith)

after-suc :
    {M : Type 0} (ioctl : M → Reply × M) (n : ℕ) (m : M)
    → after ioctl (suc n) m ≡ (ioctl (after ioctl n m)).1
after-suc ioctl zero m = refl
after-suc ioctl (suc n) m = after-suc ioctl n (ioctl m).1

module _ {M : Type 0} (ioctl : M → Reply × M) (limit : ℕ) where
  -- A loop with enough fuel for the calls to go returns after some of those calls.
  retry-Retried :
      (fuel retries : ℕ) (m : M)
      → limit ≤ retries + fuel
      → 0 < fuel
      → Retried M ioctl (max 1 (limit - retries)) m (retry ioctl limit fuel retries m)
  retry-Retried zero retries m h pos = elim pos [ ]
  retry-Retried (suc fuel) retries m h pos = elim (Reply-cases (ioctl m).0) [
    | inl (inl e) ↦ elim (Bool-cases (leb limit (retries + 1))) [
      | inl stop ↦
          rw (retry_again ioctl limit fuel retries m e, stop)
            (last_call ioctl limit fuel retries m no_entry (max 1 (limit - retries)) e (omega arith)
              (λ q. ground arith))
      | inr go ↦
          let rest = retry-Retried fuel (retries + 1) (ioctl m).1 (omega arith) (ground arith) in
          let left : suc (max 1 (limit - (retries + 1))) ≡ max 1 (limit - retries) = ground arith in
          rw (retry_again ioctl limit fuel retries m e, go, ← left) (one_more ioctl _ m _ e rest)
    ]
    | inl (inr (n, e)) ↦ rw (retry_done ioctl limit fuel retries m n e) (
        last_call ioctl limit fuel retries m (done n) (max 1 (limit - retries)) e (omega arith)
          (λ q. absurd (ground arith)))
    | inr e ↦ rw (retry_failed ioctl limit fuel retries m e) (
        last_call ioctl limit fuel retries m failed (max 1 (limit - retries)) e (omega arith)
          (λ q. absurd (ground arith)))
  ]

module _ (k : Userfault) (start len limit : ℕ) (wake : Bool) (m : k.Mem) where
  -- `zeropage` and `copy` return for every retry limit, after at least one ioctl and at most as many
  -- as the limit, or one if the limit is 0, with the answer of the last one; all before it were
  -- answered by `ENOENT`, and if the last one was as well, then that many were made.
  pub zeropage-copy-Retried :
      (src : List ℕ)
      → Retried k.Mem
          (k.zeropage start len wake)
          (max 1 limit)
          m
          (zeropage k start len wake limit m)
        × Retried k.Mem
            (k.copy src start len wake)
            (max 1 limit)
            m
            (copy k src start len wake limit m)
  unfolding zeropage copy
  zeropage-copy-Retried src =
      let e : max 1 (limit - 0) ≡ max 1 limit = omega arith in
      rw (← e) (
        retry-Retried (k.zeropage start len wake) limit (suc limit) 0 m (omega arith) (omega arith),
        retry-Retried (k.copy src start len wake) limit (suc limit) 0 m (omega arith) (omega arith),
      )

-- A memory that stays the same while an ioctl answers `ENOENT`.
module _ (k : Userfault) (ioctl : k.Mem → Reply × k.Mem)
    (same : (m : k.Mem) → (ioctl m).0 ≡ no_entry → SameMem k m (ioctl m).1) where
  after-SameMem :
      (n : ℕ) (m : k.Mem)
      → ((i : ℕ) → i < n → reply_after ioctl i m ≡ no_entry)
      → SameMem k m (after ioctl n m)
  after-SameMem zero m h = λ x. (refl, refl, refl)
  after-SameMem (suc n) m h =
      let first : SameMem k m (ioctl m).1 = same m (h 0 (omega arith)) in
      let rest = after-SameMem n (ioctl m).1 (λ i l. h (suc i) (omega arith)) in
      λ x. ((rest x).0 ∙ (first x).0, (rest x).1 ∙ (first x).1, (rest x).2 ∙ (first x).2)

Filled-SameMem :
    (k : Userfault) (start len : ℕ) (wake : Bool) (source : ℕ → ℕ) (m m' m'' : k.Mem)
    → SameMem k m m'
    → Filled k start len wake source m' m''
    → Filled k start len wake source m m''
Filled-SameMem k start len wake source m m' m'' s f = record {
  absent = λ x h. sym (s x).0 ∙ f.absent x h;
  present = λ x. rw (← (s x).0) (f.present x);
  byte = λ x. rw (← (s x).1) (f.byte x);
  asleep = λ x. rw (← (s x).2) (f.asleep x);
}

-- What a call that succeeds leaves, with the laws of its last ioctl.
settled-Filled :
    (k : Userfault) (ioctl : k.Mem → Reply × k.Mem) (left start len : ℕ) (wake : Bool)
    (source : ℕ → ℕ) (m : k.Mem) (r : Option Reply × k.Mem)
    → ((m : k.Mem) → (ioctl m).0 ≡ no_entry → SameMem k m (ioctl m).1)
    → ((m : k.Mem) (l : ℕ) → (ioctl m).0 ≡ done l → Filled k start len wake source m (ioctl m).1)
    → Retried k.Mem ioctl left m r
    → (settle k r).0 ≡ ok tt
    → Filled k start len wake source m (settle k r).1
settled-Filled k ioctl left start len wake source m r same fills t h =
    let n : ℕ = t.before in
    let m' : k.Mem = after ioctl n m in
    elim (Reply-cases (reply_after ioctl n m)) [
      | inl (inl e) ↦ absurd (ground (arith, t.result, e, h))
      | inl (inr (l, e)) ↦
          let final : (settle k r).1 ≡ after ioctl (suc n) m = ground (arith, t.result, e) in
          rw (final, after-suc ioctl n m)
            (Filled-SameMem k start len wake source m m' (ioctl m').1
              (after-SameMem k ioctl same n m t.retried) (fills m' l e))
      | inr e ↦ absurd (ground (arith, t.result, e, h))
    ]

module _ (k : Userfault) (laws : UserfaultLaws k) (start len limit : ℕ) (wake : Bool)
    (m : k.Mem) where
  pub zeropage-Filled :
      (filled k (zeropage k start len wake limit) m).0 ≡ ok tt
      → Filled k start len wake (λ x. 0) m (filled k (zeropage k start len wake limit) m).1
  zeropage-Filled =
      settled-Filled k (k.zeropage start len wake) (max 1 limit) start len wake (λ x. 0) m
        (zeropage k start len wake limit m) (laws.zeropage_retry start len wake)
        (λ m' l. laws.zeropage_fills start len l wake m')
        (zeropage-copy-Retried k start len limit wake m []).0

  pub copy-Filled :
      (src : List ℕ)
      → length src ≡ len
      → (filled k (copy k src start len wake limit) m).0 ≡ ok tt
      → Filled k start len wake
          (λ x. get_or src (x - start) 0)
          m
          (filled k (copy k src start len wake limit) m).1
  copy-Filled src whole =
      settled-Filled k (k.copy src start len wake) (max 1 limit) start len wake
        (λ x. get_or src (x - start) 0) m (copy k src start len wake limit m)
        (laws.copy_retry src start len wake) (λ m' l. laws.copy_fills src start len l wake m' whole)
        (zeropage-copy-Retried k start len limit wake m src).1
