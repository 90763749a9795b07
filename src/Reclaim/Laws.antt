-- ===== src/Reclaim/Laws.antt =====
-- What KernelReclaim leaves of a resource, and what becomes of a process that owned it.
use theynix.Base.{
  ℕ, ◌≡◌, ◌≢◌, inl, inr, refl, true, none, some, List, ◌∷◌, ℤ, arith, Option-cases, find_by,
  find_by-remove_ne, remove_by,
}
use theynix.VMem.Allocator.{FrameAllocator}
use theynix.Processes.Exit.{kernel_exit-runs_on, release_owned_locks-stuck}
use theynix.Reclaim.{kernel_reclaim}
use theynix.Locks.{find_lock, lock_id}
use theynix.Pipes.{find_pipe, pipe_id}
use theynix.Kernel.{Kernel, Lock, current, init_pid}
use theynix.Processes.{kernel_exit}
use theynix.CVars.{cvar_id, find_cvar}
use theynix.PMem.{error}

-- Whatever KernelReclaim returns, every lock, condition variable and pipe of another id is as it
-- was, and so are the processes, the running one and the ready queue.
pub kernel_reclaim-keeps_others :
    (i : ℕ) (k : Kernel)
    → let (rc, k') = kernel_reclaim i k in
      ((j : ℕ)
        → i ≢ j
        → (find_lock j k' ≡ find_lock j k)
          × (find_cvar j k' ≡ find_cvar j k)
          × (find_pipe j k' ≡ find_pipe j k))
      × (k'.procs ≡ k.procs)
      × (k'.ready_queue ≡ k.ready_queue)
      × (k'.current_proc ≡ k.current_proc)
unfolding kernel_reclaim
kernel_reclaim-keeps_others i k = elim (Option-cases (find_lock i k)) [
  | inr (l, found) ↦
      rw (found, kernel_reclaim)
        (λ j ne. (find_by-remove_ne lock_id i j k.locks ne, refl, refl), refl, refl, refl)
  | inl no_lock ↦ elim (Option-cases (find_cvar i k)) [
    | inr (c, found) ↦
        rw (no_lock, found, kernel_reclaim)
          (λ j ne. (refl, find_by-remove_ne cvar_id i j k.cvars ne, refl), refl, refl, refl)
    | inl no_cvar ↦ elim (Option-cases (find_pipe i k)) [
      | inr (p, found) ↦
          rw (no_lock, no_cvar, found, kernel_reclaim)
            (λ j ne. (refl, refl, find_by-remove_ne pipe_id i j k.pipes ne), refl, refl, refl)
      | inl no_pipe ↦
          rw (no_lock, no_cvar, no_pipe, kernel_reclaim)
            (λ j ne. (refl, refl, refl), refl, refl, refl)
    ]
  ]
]

-- A process other than init that reclaims the lock it acquired first, which is the only lock with
-- that id, gets ERROR, but the lock is gone; and when the process then exits, the loop over its
-- owned locks never ends, however many rounds it is given.
pub kernel_reclaim-hangs_exit :
    (al : FrameAllocator) (i : ℕ) (is : List ℕ) (l : Lock) (k : Kernel)
    → find_lock i k ≡ some l
    → l.acquired ≡ true
    → (current k).owned_lock_ids ≡ i ∷ is
    → find_by lock_id i (remove_by lock_id i k.locks) ≡ none
    → k.current_proc ≢ init_pid
    → (k' : Kernel) × (kernel_reclaim i k ≡ (error, k'))
      × (find_lock i k' ≡ none)
      × ((fuel : ℕ) (status : ℤ) (s : al.State) → kernel_exit al fuel status k' s ≡ none)
unfolding kernel_reclaim
kernel_reclaim-hangs_exit al i is l k found held owns only user =
    let k' = record k { locks = remove_by lock_id i k.locks } in
    (
      k',
      ground arith,
      only,
      λ fuel status s.
          kernel_exit-runs_on al fuel status k' k' s user
            (release_owned_locks-stuck fuel i is k' owns only),
    )
