-- ===== src/Processes/Exit.antt =====
-- The loop of KernelExit over the owned locks, and what an exit leaves behind.
use mathlib.Core.Path.{subst}
use theynix.Base.{
  ℕ, zero, suc, ◌≤◌, ◌≡◌, ◌≢◌, ◌∙◌, inl, inr, refl, sym, none, some, List, [], ◌∷◌, ◌++◌, ℤ, arith,
  length, List-cases, append-nil, append_assoc,
}
use theynix.VMem.Allocator.{FrameAllocator}
use theynix.Kernel.{init_pid, switched, Kernel, current}
use theynix.Processes.{exit_released, kernel_exit, finished, release_owned_locks, running}
use theynix.Locks.GiveUp.{Released, WaitsForNone, kernel_release-first}
use theynix.Locks.Invariant.{IsConsistent}
use theynix.Locks.Release.{kernel_release-IsConsistent, kernel_release-missing}
use theynix.Locks.{find_lock}

Released-trans : {a b c : Kernel} → Released a b → Released b c → Released a c
Released-trans {a} ab bc = record {
  same_proc = bc.same_proc ∙ ab.same_proc;
  same_pcbs = λ p. bc.same_pcbs p ∙ ab.same_pcbs p;
  woken = ab.woken ++ bc.woken;
  woken_last =
      ground (arith, ab.woken_last, bc.woken_last, append_assoc a.ready_queue ab.woken bc.woken);
}

Released-refl : (k : Kernel) → Released k k
Released-refl k = record {
  same_proc = refl;
  same_pcbs = λ p. refl;
  woken = [];
  woken_last = sym (append-nil k.ready_queue);
}

-- The loop of KernelExit ends within as many rounds as the process owns locks, if the locks are
-- consistent and the process waits for none: no assert fails, the process owns nothing any more, the
-- locks are consistent, and but for the lists of owned locks and new ready processes nothing of any
-- process has changed.
pub release_owned_locks-ends :
    (fuel : ℕ) (k : Kernel)
    → IsConsistent k
    → WaitsForNone k.current_proc k
    → length (current k).owned_lock_ids ≤ fuel
    → (k' : Kernel) × (release_owned_locks fuel k ≡ finished k')
      × IsConsistent k'
      × ((current k').owned_lock_ids ≡ [])
      × Released k k'
unfolding release_owned_locks
release_owned_locks-ends zero k is none_of le = (k, ground arith, is, ground arith, Released-refl k)
release_owned_locks-ends (suc fuel) k is none_of le = elim (List-cases (current k).owned_lock_ids) [
  | inl owns ↦ (k, ground arith, is, owns, Released-refl k)
  | inr (i, rest, owns) ↦
      let (k1, run, released, left, none_of1) = kernel_release-first i rest k is owns none_of in
      let (rc, k2, run', is2) = kernel_release-IsConsistent i k is in
      let is1 : IsConsistent k1 = subst IsConsistent (ground (arith, run, run')) is2 in
      let (k', ends, is', nothing_left, released') =
        release_owned_locks-ends fuel k1 is1 none_of1 (ground (arith, left, owns)) in
      (k', ground (arith, run), is', nothing_left, Released-trans released released')
]

-- That loop makes no progress on a lock that does not exist.
pub release_owned_locks-stuck :
    (fuel i : ℕ) (is : List ℕ) (k : Kernel)
    → (current k).owned_lock_ids ≡ i ∷ is
    → find_lock i k ≡ none
    → release_owned_locks fuel k ≡ running k
unfolding release_owned_locks
release_owned_locks-stuck zero i is k owns missing = rw (owns, release_owned_locks)
release_owned_locks-stuck (suc fuel) i is k owns missing =
    ground (
      arith,
      release_owned_locks-stuck fuel i is k owns missing,
      kernel_release-missing i k missing,
    )

pub kernel_exit-ends :
    (al : FrameAllocator) (fuel : ℕ) (status : ℤ) (k k' : Kernel) (s : al.State)
    → k.current_proc ≢ init_pid
    → release_owned_locks fuel k ≡ finished k'
    → let (k'', s') = exit_released al status k' s in
      kernel_exit al fuel status k s ≡ some (switched k'', s')
unfolding kernel_exit
kernel_exit-ends al fuel status k k' s user ends = ground arith

pub kernel_exit-runs_on :
    (al : FrameAllocator) (fuel : ℕ) (status : ℤ) (k k' : Kernel) (s : al.State)
    → k.current_proc ≢ init_pid
    → release_owned_locks fuel k ≡ running k'
    → kernel_exit al fuel status k s ≡ none
unfolding kernel_exit
kernel_exit-runs_on al fuel status k k' s user runs = ground arith
