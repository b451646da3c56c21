-- ===== src/Runtime/Vm/Plain.antt =====
-- A memory as two functions of the address, on which every call with aligned arguments succeeds.
use lucet.Prelude.{ℕ, ◌+◌, ◌-◌, ◌%◌, refl, Bool, false, ◌==◌, length, get_or, if◌then◌else◌}
use lucet.Runtime.Vm.{Vm, VmLaws, in_range}

pub record Plain : Type 0 where
  pub rw : ℕ → Bool
  pub bytes : ℕ → ℕ

-- Nothing accessible, all zero.
abbrev pub blank : Plain
blank = record { rw = λ x. false; bytes = λ x. 0 }

abbrev pub plain : Vm
plain = record {
  Mem = Plain;
  accessible = λ m x. m.rw x;
  byte = λ m x. m.bytes x;
  mprotect = λ a n flag m.
      (a % 4096 == 0, record m { rw = λ x. if in_range x a (a + n) then flag else m.rw x });
  madvise = λ a n m.
      (a % 4096 == 0, record m { bytes = λ x. if in_range x a (a + n) then 0 else m.bytes x });
  store = λ a bs m. record m {
    bytes = λ x. if in_range x a (a + length bs) then get_or bs (x - a) 0 else m.bytes x;
  };
}

pub plain-laws : VmLaws plain
plain-laws = record {
  mprotect_accessible = λ a n rw m x h k s. refl;
  mprotect_byte = λ a n rw m x s. refl;
  madvise_accessible = λ a n m x s. refl;
  madvise_byte = λ a n m x h k s. refl;
  store_accessible = λ a bs m x. refl;
  store_byte = λ a bs m x. refl;
}
