-- ===== src/Locks/Samples.antt =====
-- The small kernel is consistent.
use theynix.Base.{inl, inr, refl, ◌==◌, arith, Bool-cases}
use theynix.Kernel.Samples.{small_kernel, held_lock}
use theynix.Locks.Invariant.{IsConsistent}

pub small_kernel-IsConsistent : IsConsistent small_kernel
small_kernel-IsConsistent = record {
  held = λ i l e a. ground arith;
  idle = λ i l e a. ground arith;
  owned = λ i p h. (held_lock, ground arith, refl, ground arith);
  distinct =
      λ p. elim (Bool-cases (p == 2)) [ inl hit ↦ rw hit (refl, tt) | inr miss ↦ rw miss tt ];
  fresh = λ i h. ground arith;
  nonzero = refl;
  counting = omega arith;
}
