-- ===== src/Locks/Queues.antt =====
-- Who runs, who is ready and who waits for a lock: what holds of the queues between two steps, and
-- that a switch keeps it.
use theynix.Base.{
  ℕ, ◌≡◌, ◌≢◌, ◌⊎◌, inl, inr, refl, true, false, ◌==◌, some, ◌∷◌, arith, if◌then◌else◌, IsDistinct,
  List-cases, has,
}
use theynix.Kernel.{Kernel, Lock, Resume, idle_pid, lock_handed, switch_to_next_proc}
use theynix.Locks.{find_lock}

abbrev pub resume_of : Kernel → ℕ → Resume
resume_of k p = (k.procs p).resume

-- The running process is not ready too, the idle process is on no queue, and no process is on one
-- twice. A process that waits for a lock does not run and is not ready, and will go on in the call
-- that waits for this lock. A process that will go on in such a call and is ready, or runs already,
-- has the lock on its list.
pub record IsQueued (k : Kernel) : Type 0 where
  pub once : IsDistinct k.ready_queue
  pub runs : has k.current_proc k.ready_queue ≡ false
  pub idles : has idle_pid k.ready_queue ≡ false
  pub idle_resume : (i : ℕ) → resume_of k idle_pid ≢ lock_handed i
  pub waits_once : (i : ℕ) (l : Lock) → find_lock i k ≡ some l → IsDistinct l.waiting_procs
  pub waits :
      (i p : ℕ) (l : Lock)
      → find_lock i k ≡ some l
      → has p l.waiting_procs ≡ true
      → (resume_of k p ≡ lock_handed i)
        × (has p k.ready_queue ≡ false)
        × (p ≢ k.current_proc)
        × (p ≢ idle_pid)
  pub handed :
      (i p : ℕ)
      → resume_of k p ≡ lock_handed i
      → has p (k.current_proc ∷ k.ready_queue) ≡ true
      → has i (k.procs p).owned_lock_ids ≡ true

-- The process will not go on in a call that waits for a lock.
abbrev pub IsBack : Resume → Type 0
IsBack r = (i : ℕ) → r ≢ lock_handed i

-- What a switch needs of the kernel: as `IsQueued`, but the process that gives up the processor may
-- be on a queue already, if `r` tells where it will go on.
pub record IsParked (r : Resume) (k : Kernel) : Type 0 where
  pub once : IsDistinct k.ready_queue
  pub idles : has idle_pid k.ready_queue ≡ false
  pub idle_resume : IsBack (resume_of k idle_pid)
  pub parked :
      (i : ℕ)
      → r ≡ lock_handed i
      → (has k.current_proc k.ready_queue ≡ false) × (k.current_proc ≢ idle_pid)
  pub waits_once : (i : ℕ) (l : Lock) → find_lock i k ≡ some l → IsDistinct l.waiting_procs
  pub waits :
      (i p : ℕ) (l : Lock)
      → find_lock i k ≡ some l
      → has p l.waiting_procs ≡ true
      → ((if k.current_proc == p then r else resume_of k p) ≡ lock_handed i)
        × (has p k.ready_queue ≡ false)
        × (p ≢ idle_pid)
  pub handed :
      (i p : ℕ)
      → resume_of k p ≡ lock_handed i
      → has p k.ready_queue ≡ true
      → has i (k.procs p).owned_lock_ids ≡ true

-- Who runs after a switch, and who is ready.
switch-queue :
    (r : Resume) (k : Kernel)
    → IsDistinct k.ready_queue
    → has idle_pid k.ready_queue ≡ false
    → let k' = switch_to_next_proc r k in
      IsDistinct k'.ready_queue
      × (has k'.current_proc k'.ready_queue ≡ false)
      × ((p : ℕ)
          → has p (k'.current_proc ∷ k'.ready_queue) ≡ true
          → (has p k.ready_queue ≡ true) ⊎ (p ≡ idle_pid))
switch-queue r k once idles = elim (List-cases k.ready_queue) [
  | inl empty ↦ rw empty (tt, refl, λ p h. ground arith)
  | inr (x, xs, queue) ↦
      rw queue
        (ground (arith, rw queue at once), ground (arith, rw queue at once), λ p h. ground arith)
]

pub switch-IsQueued : (r : Resume) (k : Kernel) → IsParked r k → IsQueued (switch_to_next_proc r k)
switch-IsQueued r k is =
    let k' = switch_to_next_proc r k in
    let (once, runs, within) = switch-queue r k is.once is.idles in
    let ready_less : (p : ℕ) → has p k.ready_queue ≡ false → has p k'.ready_queue ≡ false = λ p h.
      elim (List-cases k.ready_queue) [
        | inl empty ↦ ground arith
        | inr (x, xs, queue) ↦ ground arith
      ] in
    record {
      once = once;
      runs = runs;
      idles = ready_less idle_pid is.idles;
      idle_resume = λ i e. ground (arith, is.idle_resume i, is.parked i);
      waits_once = is.waits_once;
      waits = λ i p l e h.
          let (goes_on, not_ready, busy) = is.waits i p l e h in
          (
            ground arith,
            ready_less p not_ready,
            λ now. elim (within p (ground arith)) [
              | inl ready ↦ ground arith
              | inr idle ↦ busy idle
            ],
            busy,
          );
      handed = λ i p e h. elim (within p h) [
        | inl ready ↦ ground (arith, is.parked i, is.handed i p)
        | inr idle ↦ absurd (ground (arith, is.idle_resume i, is.parked i))
      ];
    }
