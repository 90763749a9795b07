-- ===== src/Reclaim.antt =====
-- KernelReclaim of SystemCalls.c.
pub mod Laws
mod Tests
use theynix.Base.{
  remove_by, is_empty, ℕ, zero, suc, ◌+◌, ◌-◌, ◌*◌, ◌/◌, ◌%◌, ◌^◌, ◌≤◌, ◌<◌, ◌≡◌, ◌≢◌, ◌∙◌, ◌⊎◌,
  inl, inr, refl, sym, ap, Bool, true, false, not, ◌&&◌, ◌||◌, ◌==◌, Option, none, some, List, [],
  ◌∷◌, ◌++◌, ℤ, pos, negsuc, arith, if◌then◌else◌, ltb, leb, Bool-cases, Option-cases, length, take,
  drop, update,
}
use theynix.Pipes.{find_pipe, pipe_id}
use theynix.CVars.{cvar_id, find_cvar}
use theynix.Locks.{find_lock, lock_id}
use theynix.PMem.{error, success}
use theynix.Kernel.{Kernel}

-- ListRemoveById gives the node's data when it finds it; the checks come after the removal.
pub kernel_reclaim : ℕ → Kernel → ℤ × Kernel
kernel_reclaim i k = elim (find_lock i k) [
  | some l ↦ (
    if l.acquired || not (is_empty l.waiting_procs) then error else success,
    record k { locks = remove_by lock_id i k.locks },
  )
  | none ↦ elim (find_cvar i k) [
    | some c ↦ (
      if not (is_empty c.waiting_procs) then error else success,
      record k { cvars = remove_by cvar_id i k.cvars },
    )
    | none ↦ elim (find_pipe i k) [
      | some p ↦ (
        if not (is_empty p.waiting_to_read) then error else success,
        record k { pipes = remove_by pipe_id i k.pipes },
      )
      | none ↦ (error, k)
    ]
  ]
]
