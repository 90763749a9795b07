-- ===== src/Locks/Tests.antt =====
-- The lock calls on a small kernel.
use theynix.Base.{
  ℕ, ◌≡◌, ◌≢◌, inl, inr, refl, true, false, ◌==◌, none, some, List, [], ◌∷◌, ◌++◌, arith,
  if◌then◌else◌, Bool-cases, has,
}
use theynix.Kernel.{switched, nothing, returned, failed_assert, Lock, Kernel}
use theynix.Kernel.Samples.{small_kernel, held_lock}
use theynix.Locks.{error, success, find_lock, kernel_release, kernel_acquire}
use theynix.Locks.Samples.{small_kernel-IsConsistent}
use theynix.Locks.Release.{kernel_release-hands_over}
use theynix.Locks.Acquire.{kernel_acquire-branches}
use mathlib.Core.Path.{subst}
use theynix.Locks.Init.{Call, run_call, release, release_outcome}
use theynix.Locks.Queues.{IsQueued}
use theynix.Locks.Invariant.{IsConsistent}
use theynix.Locks.Steps.{locks_exclude, here, next, called, ticked, Reach}
use theynix.Kernel.{lock_handed, to_user, switch_to_next_proc, make_ready, change_proc}
use theynix.Kernel.Samples.{blank_pcb}
use theynix.Locks.{kernel_acquire_resumed, own, disown, change_lock, hand_over, release_found}
use theynix.Base.{arith, Bool-cases, inl, inr, ◌==◌, if◌then◌else◌, IsDistinct}

kernel_release-hands_over_example :
    (k' : Kernel) × (kernel_release 1 small_kernel ≡ some (success, k'))
    × ((k'.cvars ≡ small_kernel.cvars) × (k'.current_proc ≡ 2))
    × (held_lock.waiting_procs ≡ []
        → (find_lock 1 k' ≡ some (record held_lock { acquired = false }))
          × (k'.ready_queue ≡ 6 ∷ []))
    × ((q : ℕ) (qs : List ℕ)
        → held_lock.waiting_procs ≡ q ∷ qs
        → (find_lock 1 k' ≡ some (record held_lock { owner_id = q; waiting_procs = qs }))
          × (has 1 (k'.procs q).owned_lock_ids ≡ true)
          × (k'.ready_queue ≡ 6 ∷ q ∷ []))
kernel_release-hands_over_example =
    kernel_release-hands_over 1 small_kernel held_lock small_kernel-IsConsistent refl refl refl

-- The kernel once process 3 is scheduled.
abbrev turned : Kernel
turned = record small_kernel { current_proc = 3 }

turned-IsConsistent : IsConsistent turned
turned-IsConsistent = record {
  held = small_kernel-IsConsistent.held;
  idle = small_kernel-IsConsistent.idle;
  owned = small_kernel-IsConsistent.owned;
  distinct = small_kernel-IsConsistent.distinct;
  fresh = small_kernel-IsConsistent.fresh;
  nonzero = refl;
  counting = omega arith;
}

kernel_acquire-branches_example :
    let me : ℕ = 3 in
    (find_lock 1 turned ≡ none → kernel_acquire 1 turned ≡ returned error nothing turned)
    × (find_lock 1 turned ≡ some held_lock
        → (true ≡ true → 2 ≡ me → kernel_acquire 1 turned ≡ returned success nothing turned)
          × (true ≡ false
              → (k' : Kernel) × (kernel_acquire 1 turned ≡ returned success nothing k')
                × (find_lock 1 k' ≡ some (record held_lock { acquired = true; owner_id = me }))
                × (has 1 (k'.procs me).owned_lock_ids ≡ true))
          × (true ≡ true
              → 2 ≢ me
              → (k' : Kernel) × (kernel_acquire 1 turned ≡ switched k')
                × (find_lock 1 k'
                    ≡ some
                        (record held_lock { waiting_procs = held_lock.waiting_procs ++ (me ∷ []) }))
                × (k'.current_proc ≡ 6)))
kernel_acquire-branches_example = kernel_acquire-branches 1 turned held_lock turned-IsConsistent

-- Process 3 waits in KernelAcquire for lock 1.
abbrev queued : Kernel
queued = record small_kernel {
  procs = λ p.
      if p == 2
      then record blank_pcb { owned_lock_ids = 1 ∷ [] }
      else if p == 3
      then record blank_pcb { resume = lock_handed 1 }
      else blank_pcb;
}

queued-IsConsistent : IsConsistent queued
queued-IsConsistent = record {
  held = λ i l e a. ground arith;
  idle = λ i l e a. ground arith;
  owned = λ i p h. (held_lock, ground arith, refl, ground arith);
  distinct = λ p. elim (Bool-cases (p == 2)) [
    | inl hit ↦ rw hit (refl, tt)
    | inr miss ↦
        rw miss (elim (Bool-cases (p == 3)) [ inl hit ↦ rw hit tt | inr other ↦ rw other tt ])
  ];
  fresh = λ i h. ground arith;
  nonzero = refl;
  counting = omega arith;
}

queued-IsQueued : IsQueued queued
queued-IsQueued = record {
  once = (refl, tt);
  runs = refl;
  idles = refl;
  idle_resume = λ i e. ground arith;
  waits_once = λ i l e. elim (Bool-cases (1 == i)) [
    | inl hit ↦
        let same : held_lock ≡ l = ground arith in
        subst (λ (x : Lock). IsDistinct x.waiting_procs) same (refl, tt)
    | inr miss ↦ absurd (ground arith)
  ];
  waits = λ i p l e h. ground arith;
  handed = λ i p e h. ground arith;
}

-- Process 2 releases the lock.
abbrev released : Kernel
released = make_ready 3 (
    change_proc 3 (own 1) (
      change_lock 1 (λ l. record l { waiting_procs = []; owner_id = 3 })
        (change_proc 2 (disown 1) queued)))

-- It is interrupted, and so is process 6: process 3 runs.
abbrev third_runs : Kernel
third_runs =
    switch_to_next_proc to_user (make_ready 6 (switch_to_next_proc to_user (make_ready 2 released)))

turns : Reach queued third_runs
unfolding run_call release_outcome kernel_release release_found hand_over
turns =
    next
      (next (next here (called (release 1) released (omega arith) (λ i e. ground arith) refl))
        (ticked (λ i e. ground arith)))
      (ticked (λ i e. ground arith))

locks_exclude_example :
    ((i p q : ℕ)
      → has i (third_runs.procs p).owned_lock_ids ≡ true
      → has i (third_runs.procs q).owned_lock_ids ≡ true
      → (p ≡ q)
        × ((l : Lock) × (find_lock i third_runs ≡ some l) × (l.acquired ≡ true) × (l.owner_id ≡ p)))
    × ((c : Call) → run_call c third_runs ≢ failed_assert)
    × ((i : ℕ)
        → lock_handed 1 ≡ lock_handed i
        → kernel_acquire_resumed i third_runs ≡ returned success nothing third_runs)
locks_exclude_example = locks_exclude queued third_runs queued-IsConsistent queued-IsQueued turns
