-- ===== src/Processes/Tests.antt =====
-- The calls on processes and time on a small kernel.
use theynix.Base.{
  ℕ, suc, ◌≡◌, ◌≢◌, refl, true, false, ◌==◌, none, some, List, [], ◌∷◌, pos, negsuc, arith,
  if◌then◌else◌, has, leb_ℤ,
}
use theynix.VMem.Allocator.{pmem_allocator}
use theynix.PMem.Samples.{two_free}
use theynix.Processes.{
  trap_clock, finished, kernel_delay, kernel_exit, kernel_wait_resumed, release_owned_locks,
}
use theynix.Processes.Clock.{Last, clock_ticks, kernel_delay-ticks, ticks_left, trap_clock-ticks}
use theynix.Kernel.{Kernel, current, int, nothing, returned, switched}
use theynix.Processes.Samples.{
  family-WaitsForNone, exiting, family, family-IsConsistent, waiting_parent,
}
use theynix.Locks.Invariant.{IsConsistent}
use theynix.Processes.Wait.{kernel_exit-tells_parent, kernel_exit-wait}
use theynix.Processes.Parent.{Told}
use theynix.PMem.{Machine, error, success}
use theynix.Processes.Exit.{release_owned_locks-ends}
use theynix.Locks.GiveUp.{Released}

release_owned_locks-ends_example :
    (k' : Kernel) × (release_owned_locks 1 family ≡ finished k')
    × IsConsistent k'
    × ((current k').owned_lock_ids ≡ [])
    × Released family k'
release_owned_locks-ends_example =
    release_owned_locks-ends 1 family family-IsConsistent family-WaitsForNone (omega arith)

kernel_exit-tells_parent_example :
    (k' : Kernel) × (s' : Machine) × (woken : List ℕ) × (kernel_exit pmem_allocator 1
        (pos 5)
        family
        two_free
      ≡ some (switched k', s'))
    × Told 2 7 waiting_parent (6 ∷ woken) k'
    × ((k'.procs 2).exit_status ≡ pos 5)
    × ((c : ℕ) → has c (9 ∷ []) ≡ true → (k'.procs c).live_parent ≡ none)
kernel_exit-tells_parent_example =
    kernel_exit-tells_parent pmem_allocator 1 (pos 5) 7 family two_free (omega arith)
      family-IsConsistent family-WaitsForNone (omega arith) refl (omega arith) refl refl

kernel_exit-wait_example :
    (k' : Kernel) × (s' : Machine) × (k'' : Kernel) × (kernel_exit pmem_allocator 1
        (pos 5)
        family
        two_free
      ≡ some (switched k', s'))
    × (has 7 (k'.current_proc ∷ k'.ready_queue) ≡ true)
    × (kernel_wait_resumed (record k' { current_proc = 7 }) ≡ returned success (int (pos 5)) k'')
kernel_exit-wait_example =
    kernel_exit-wait pmem_allocator 1 (pos 5) 7 family two_free (omega arith) family-IsConsistent
      family-WaitsForNone (omega arith) refl (omega arith) refl refl refl refl

-- Process 2 with two zombies.
abbrev bereaved : Kernel
bereaved = record family {
  procs = λ p. if p == 2 then record exiting { zombie_children = 7 ∷ 8 ∷ [] } else family.procs p;
}

trap_clock-ticks_example :
    ((q : ℕ)
      → has q (8 ∷ []) ≡ true
      → leb_ℤ (ticks_left family q) (pos 0) ≡ true
      → trap_clock family ≡ none)
    × (((q : ℕ) → has q (8 ∷ []) ≡ true → leb_ℤ (ticks_left family q) (pos 0) ≡ false)
        → (k' : Kernel) × (trap_clock family ≡ some k')
          × ((q : ℕ)
              → has q (8 ∷ []) ≡ true
              → (k'.procs q).clock_ticks_until_ready ≡ ticks_left family q)
          × ((q : ℕ) → has q (8 ∷ []) ≡ false → 2 ≢ q → k'.procs q ≡ family.procs q)
          × (k'.clock_block_procs ≡ 8 ∷ [])
          × (◌≡◌ {A = ℕ × List ℕ} (k'.current_proc, k'.ready_queue) (6, 2 ∷ [])))
trap_clock-ticks_example = trap_clock-ticks family (refl, tt)

kernel_delay-ticks_example :
    ((n : ℕ) → kernel_delay (negsuc n) family ≡ returned error nothing family)
    × (kernel_delay (pos 0) family ≡ returned success nothing family)
    × ((n : ℕ)
        → Last (suc n) family
        → (k' : Kernel) × (k'' : Kernel) × (kernel_delay (pos (suc n)) family ≡ switched k')
          × (◌≡◌ {A = ℕ × List ℕ} (k'.current_proc, k'.ready_queue) (6, []))
          × (clock_ticks n k' ≡ some k'')
          × (k''.clock_block_procs ≡ 8 ∷ 2 ∷ [])
          × ((k''.procs 2).clock_ticks_until_ready ≡ pos 1)
          × (trap_clock k'' ≡ none))
kernel_delay-ticks_example = kernel_delay-ticks family (refl, tt) refl
