-- ===== src/CVars/Tests.antt =====
-- The calls on condition variables on a small kernel.
use theynix.Base.{ℕ, ◌≡◌, ◌≢◌, ◌⊎◌, refl, true, false, none, some, List, [], ◌∷◌}
use theynix.Kernel.Samples.{small_kernel, held_lock, awaited_cvar}
use theynix.Locks.{find_lock}
use theynix.Locks.Samples.{small_kernel-IsConsistent}
use theynix.CVars.Laws.{
  kernel_cvar_broadcast-wakes_all, kernel_cvar_signal-wakes_first, kernel_cvar_wait-gives_up,
}
use theynix.Kernel.{CVar, Kernel, nothing, returned, switched}
use theynix.CVars.{find_cvar, kernel_cvar_broadcast, kernel_cvar_signal, kernel_cvar_wait}
use theynix.PMem.{error, success}

kernel_cvar_broadcast-wakes_all_example :
    (k' : Kernel) × (kernel_cvar_broadcast 2 small_kernel ≡ (success, k'))
    × (find_cvar 2 k' ≡ some (record awaited_cvar { waiting_procs = [] }))
    × (k'.ready_queue ≡ 6 ∷ 4 ∷ 5 ∷ [])
    × (k'.locks ≡ small_kernel.locks)
    × ((j : ℕ) → 2 ≢ j → find_cvar j k' ≡ find_cvar j small_kernel)
kernel_cvar_broadcast-wakes_all_example =
    kernel_cvar_broadcast-wakes_all 2 small_kernel awaited_cvar refl

kernel_cvar_signal-wakes_first_example :
    (find_cvar 2 small_kernel ≡ none → kernel_cvar_signal 2 small_kernel ≡ (error, small_kernel))
    × ((c : CVar)
        → find_cvar 2 small_kernel ≡ some c
        → (c.waiting_procs ≡ [] → kernel_cvar_signal 2 small_kernel ≡ (success, small_kernel))
          × ((p : ℕ) (ps : List ℕ)
              → c.waiting_procs ≡ p ∷ ps
              → (k' : Kernel) × (kernel_cvar_signal 2 small_kernel ≡ (success, k'))
                × (find_cvar 2 k' ≡ some (record c { waiting_procs = ps }))
                × (k'.ready_queue ≡ 6 ∷ p ∷ [])))
kernel_cvar_signal-wakes_first_example = kernel_cvar_signal-wakes_first 2 small_kernel

kernel_cvar_wait-gives_up_example :
    (true ≡ true
      → held_lock.owner_id ≡ 2
      → (k' : Kernel) × (kernel_cvar_wait 2 1 small_kernel ≡ switched k')
        × (find_cvar 2 k' ≡ some (record awaited_cvar { waiting_procs = 4 ∷ 5 ∷ 2 ∷ [] }))
        × (held_lock.waiting_procs ≡ []
            → (find_lock 1 k' ≡ some (record held_lock { acquired = false }))
              × (◌≡◌ {A = ℕ × List ℕ} (k'.current_proc, k'.ready_queue) (6, [])))
        × ((q : ℕ) (qs : List ℕ)
            → held_lock.waiting_procs ≡ q ∷ qs
            → (find_lock 1 k' ≡ some (record held_lock { owner_id = q; waiting_procs = qs }))
              × (◌≡◌ {A = ℕ × List ℕ} (k'.current_proc, k'.ready_queue) (6, q ∷ []))))
    × ((true ≡ false) ⊎ (held_lock.owner_id ≢ 2)
        → kernel_cvar_wait 2 1 small_kernel ≡ returned error nothing small_kernel)
kernel_cvar_wait-gives_up_example =
    kernel_cvar_wait-gives_up 2 1 small_kernel awaited_cvar held_lock small_kernel-IsConsistent refl
      refl
