-- ===== src/Locks/Init.antt =====
-- KernelLockInit, and that each of the lock calls keeps the locks consistent.
use mathlib.Core.Option.{none, some, Option}
use theynix.Base.{
  ℕ, ◌+◌, ◌≡◌, inl, inr, Bool, true, false, Option, none, some, [], ◌∷◌, ◌++◌, ℤ, arith,
  Option-cases, find_by-append_one, find_by-append_some,
}
use theynix.Base.{ℕ, ◌≡◌, arith}
use theynix.Kernel.{Kernel, Lock, Outcome, returned, failed_assert, nothing}
use theynix.Locks.{
  lock_id, lock_new_lock, find_lock, kernel_lock_init, kernel_acquire, kernel_release,
}
use theynix.Locks.Invariant.{IsConsistent}
use theynix.Locks.Release.{kernel_release-IsConsistent}
use theynix.Locks.Acquire.{Leaves, kernel_acquire-IsConsistent}

new_lock-IsConsistent :
    (k : Kernel)
    → IsConsistent k
    → IsConsistent (record k {
      locks = k.locks ++ (lock_new_lock k.next_synch_resource_id ∷ []);
      next_synch_resource_id = k.next_synch_resource_id + 1;
    })
unfolding lock_new_lock
new_lock-IsConsistent k is =
    let n = k.next_synch_resource_id in
    let new = lock_new_lock n in
    let none_yet : find_lock n k ≡ none = is.fresh n (omega arith) in
    let old = λ (j : ℕ) (l : Lock) (e : find_lock j k ≡ some l).
      find_by-append_some lock_id j new l k.locks e in
    let missing =
      λ (j : ℕ) (e : find_lock j k ≡ none). find_by-append_one lock_id j new k.locks e in
    record {
      held = λ j l e a. elim (Option-cases (find_lock j k)) [
        | inl no_lock ↦ ground (arith, missing j no_lock)
        | inr (l', found) ↦ ground (arith, old j l' found, is.held j l)
      ];
      idle = λ j l e a. elim (Option-cases (find_lock j k)) [
        | inl no_lock ↦ ground (arith, missing j no_lock)
        | inr (l', found) ↦ ground (arith, old j l' found, is.idle j l)
      ];
      owned = λ j p h. let (l, e, a, o) = is.owned j p h in (l, old j l e, a, o);
      distinct = is.distinct;
      fresh = λ j h. ground (arith, is.fresh j, missing j);
      nonzero = ground (arith, is.counting, missing 0 is.nonzero);
      counting = omega arith;
    }

-- A new lock keeps the locks consistent.
pub kernel_lock_init-IsConsistent :
    (valid : Bool) (k : Kernel) → IsConsistent k → Leaves IsConsistent (kernel_lock_init valid k)
unfolding kernel_lock_init
kernel_lock_init-IsConsistent true k is = new_lock-IsConsistent k is
kernel_lock_init-IsConsistent false k is = is

-- The lock calls of a process.
pub data Call : Type 0 where
  init : Bool → Call
  acquire release : ℕ → Call

unfoldable pub release_outcome : Option (ℤ × Kernel) → Outcome
release_outcome none = failed_assert
release_outcome (some (rc, k)) = returned rc nothing k

unfoldable pub run_call : Call → Kernel → Outcome
unfolding release_outcome
run_call (init valid) k = kernel_lock_init valid k
run_call (acquire i) k = kernel_acquire i k
run_call (release i) k = release_outcome (kernel_release i k)

pub run_call-IsConsistent :
    (c : Call) (k : Kernel) → IsConsistent k → Leaves IsConsistent (run_call c k)
unfolding run_call
run_call-IsConsistent (init valid) k is = kernel_lock_init-IsConsistent valid k is
run_call-IsConsistent (acquire i) k is = kernel_acquire-IsConsistent i k is
run_call-IsConsistent (release i) k is =
    let (rc, k', e, is') = kernel_release-IsConsistent i k is in rw e is'
