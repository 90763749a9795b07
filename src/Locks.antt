-- ===== src/Locks.antt =====
-- Lock.c, and the lock calls of SystemCalls.c: KernelLockInit, KernelAcquire, KernelRelease. The
-- check of the user's pointer, ValidateUserArg, comes in as its result.
pub mod Invariant
pub mod Queues
pub mod Turns
pub mod Steps
pub mod Release
pub mod GiveUp
pub mod Acquire
pub mod Init
pub mod Samples
mod Tests
use theynix.Base.{
  ℕ, ◌+◌, Bool, true, false, not, ◌&&◌, ◌||◌, Option, none, some, List, [], ◌∷◌, ◌++◌, ℤ, pos,
  negsuc, ◌==◌, if◌then◌else◌, find_by, change_by, has, remove,
}
use theynix.PMem.{success, error}
use theynix.Kernel.{
  Kernel, Lock, Pcb, Outcome, returned, switched, failed_assert, nothing, int, current, change_proc,
  make_ready, switch_to_next_proc, lock_handed,
}

abbrev pub lock_id : Lock → ℕ
lock_id l = l.id

-- ListFindById(locks, id)
abbrev pub find_lock : ℕ → Kernel → Option Lock
find_lock i k = find_by lock_id i k.locks

-- A write through the pointer that ListFindById gave.
abbrev pub change_lock : ℕ → (Lock → Lock) → Kernel → Kernel
change_lock i f k = record k { locks = change_by lock_id i f k.locks }

abbrev pub own : ℕ → Pcb → Pcb
own i p = record p { owned_lock_ids = p.owned_lock_ids ++ (i ∷ []) }

abbrev pub disown : ℕ → Pcb → Pcb
disown i p = record p { owned_lock_ids = remove i p.owned_lock_ids }

-- LockNewLock
pub lock_new_lock : ℕ → Lock
lock_new_lock next = record { id = next; owner_id = 0; waiting_procs = []; acquired = false }

pub kernel_lock_init : (pointer_valid : Bool) → Kernel → Outcome
unfolding lock_new_lock
kernel_lock_init pointer_valid k =
    let lock = lock_new_lock k.next_synch_resource_id in
    if pointer_valid
    then returned success (int (pos lock.id)) (record k {
      locks = k.locks ++ (lock ∷ []);
      next_synch_resource_id = k.next_synch_resource_id + 1;
    })
    else returned error nothing k

-- Whether ListFindById and ListRemoveById on `owned_lock_ids` give data that is not NULL: the data
-- is the id itself.
abbrev pub find_owned : ℕ → Pcb → Bool
find_owned i p = has i p.owned_lock_ids && not (i == 0)

acquire_found : ℕ → Lock → Kernel → Outcome
acquire_found i lock k =
    let me = k.current_proc in
    if lock.acquired && lock.owner_id == me
    then returned success nothing k
    else if not lock.acquired
    then returned success nothing (
        change_proc me (own lock.id)
          (change_lock i (λ l. record l { acquired = true; owner_id = me }) k))
    else switched (
        switch_to_next_proc (lock_handed i)
          (change_lock i (λ l. record l { waiting_procs = l.waiting_procs ++ (me ∷ []) }) k))

pub kernel_acquire : ℕ → Kernel → Outcome
unfolding acquire_found
kernel_acquire i k = elim (find_lock i k) [
  | none ↦ returned error nothing k
  | some lock ↦ acquire_found i lock k
]

-- KernelAcquire when the process is resumed, with its asserts. The source still has its pointer to the
-- lock, which is the one on the list as long as KernelReclaim does not take it off.
pub kernel_acquire_resumed : ℕ → Kernel → Outcome
kernel_acquire_resumed i k = elim (find_lock i k) [
  | none ↦ failed_assert
  | some lock ↦
      if lock.owner_id == k.current_proc && lock.acquired && find_owned i (current k)
      then returned success nothing k
      else failed_assert
]

-- The end of KernelRelease, once the lock is off the caller's list: nobody waits, or the first
-- waiting process becomes the owner and ready.
hand_over : ℕ → List ℕ → Kernel → Kernel
hand_over i [] k = change_lock i (λ l. record l { acquired = false }) k
hand_over i (p ∷ ps) k =
    make_ready p
      (change_proc p (own i) (change_lock i (λ l. record l { waiting_procs = ps; owner_id = p }) k))

release_found : ℕ → Lock → Kernel → Option (ℤ × Kernel)
unfolding hand_over
release_found i lock k =
    let me = k.current_proc in
    if not lock.acquired || not (lock.owner_id == me)
    then some (error, k)
    else if find_owned i (current k)
    then some (success, hand_over i lock.waiting_procs (change_proc me (disown i) k))
    else none

-- `none` is the failed `assert(released_lock)`.
pub kernel_release : ℕ → Kernel → Option (ℤ × Kernel)
unfolding release_found
kernel_release i k = elim (find_lock i k) [
  | none ↦ some (error, k)
  | some lock ↦ release_found i lock k
]
