-- ===== src/Locks/Invariant.antt =====
-- What holds of the locks and of the processes' lists of owned locks between two system calls.
use theynix.Base.{ℕ, ◌≤◌, ◌<◌, ◌≡◌, true, false, none, some, [], IsDistinct, has}
use theynix.Kernel.{Kernel, Lock}
use theynix.Locks.{find_lock}

-- A lock that is held is on its owner's list, and only there; a lock that is free has nobody
-- waiting; no list has a lock twice; ids from the counter on are unused, and no id
-- is 0.
pub record IsConsistent (k : Kernel) : Type 0 where
  pub held :
      (i : ℕ) (l : Lock)
      → find_lock i k ≡ some l
      → l.acquired ≡ true
      → has i (k.procs l.owner_id).owned_lock_ids ≡ true
  pub idle : (i : ℕ) (l : Lock) → find_lock i k ≡ some l → l.acquired ≡ false → l.waiting_procs ≡ []
  pub owned :
      (i p : ℕ)
      → has i (k.procs p).owned_lock_ids ≡ true
      → (l : Lock) × (find_lock i k ≡ some l) × (l.acquired ≡ true) × (l.owner_id ≡ p)
  pub distinct : (p : ℕ) → IsDistinct (k.procs p).owned_lock_ids
  pub fresh : (i : ℕ) → k.next_synch_resource_id ≤ i → find_lock i k ≡ none
  pub nonzero : find_lock 0 k ≡ none
  pub counting : 0 < k.next_synch_resource_id
