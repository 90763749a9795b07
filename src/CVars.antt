-- ===== src/CVars.antt =====
-- CVar.c, and the calls of SystemCalls.c on condition variables. The check of the user's pointer,
-- ValidateUserArg, comes in as its result.
pub mod Laws
mod Tests
use theynix.Base.{
  eqb_ℤ, change_by, find_by, ℕ, zero, suc, ◌+◌, ◌-◌, ◌*◌, ◌/◌, ◌%◌, ◌^◌, ◌≤◌, ◌<◌, ◌≡◌, ◌≢◌, ◌∙◌,
  ◌⊎◌, inl, inr, refl, sym, ap, Bool, true, false, not, ◌&&◌, ◌||◌, ◌==◌, Option, none, some, List,
  [], ◌∷◌, ◌++◌, ℤ, pos, negsuc, arith, if◌then◌else◌, ltb, leb, Bool-cases, Option-cases, length,
  take, drop, update,
}
use theynix.PMem.{success, error}
use theynix.Kernel.{
  switched, failed_assert, int, nothing, cvar_woken, returned, make_ready, switch_to_next_proc,
  Kernel, CVar, Outcome,
}
use theynix.Locks.{kernel_release, kernel_acquire}

abbrev pub cvar_id : CVar → ℕ
cvar_id c = c.id

abbrev pub find_cvar : ℕ → Kernel → Option CVar
find_cvar i k = find_by cvar_id i k.cvars

-- A write through the pointer that ListFindById gave.
abbrev pub change_cvar : ℕ → (CVar → CVar) → Kernel → Kernel
change_cvar i f k = record k { cvars = change_by cvar_id i f k.cvars }

-- CVarNewCVar
pub cvar_new_cvar : ℕ → CVar
cvar_new_cvar next = record { id = next; waiting_procs = [] }

pub kernel_cvar_init : (pointer_valid : Bool) → Kernel → Outcome
unfolding cvar_new_cvar
kernel_cvar_init pointer_valid k =
    let cvar = cvar_new_cvar k.next_synch_resource_id in
    if pointer_valid
    then returned success (int (pos cvar.id)) (record k {
      cvars = k.cvars ++ (cvar ∷ []);
      next_synch_resource_id = k.next_synch_resource_id + 1;
    })
    else returned error nothing k

-- ListDequeue(cvar->waiting_procs), and the process becomes ready.
signal_first : ℕ → List ℕ → Kernel → Kernel
signal_first i [] k = k
signal_first i (p ∷ ps) k = make_ready p (change_cvar i (λ c. record c { waiting_procs = ps }) k)

pub kernel_cvar_signal : ℕ → Kernel → ℤ × Kernel
unfolding signal_first
kernel_cvar_signal i k = elim (find_cvar i k) [
  | none ↦ (error, k)
  | some cvar ↦ (success, signal_first i cvar.waiting_procs k)
]

-- The loop of KernelCvarBroadcast, over the processes that wait.
broadcast_loop : ℕ → List ℕ → Kernel → Kernel
broadcast_loop i [] k = k
broadcast_loop i (p ∷ ps) k =
    broadcast_loop i ps (make_ready p (change_cvar i (λ c. record c { waiting_procs = ps }) k))

pub kernel_cvar_broadcast : ℕ → Kernel → ℤ × Kernel
unfolding broadcast_loop
kernel_cvar_broadcast i k = elim (find_cvar i k) [
  | none ↦ (error, k)
  | some cvar ↦ (success, broadcast_loop i cvar.waiting_procs k)
]

-- KernelCvarWait once the lock has been released, up to the context switch.
abbrev pub wait_on : (cvar lock : ℕ) → Kernel → Kernel
wait_on i j k =
    switch_to_next_proc (cvar_woken j)
      (change_cvar i (λ c. record c { waiting_procs = c.waiting_procs ++ (k.current_proc ∷ []) }) k)

pub kernel_cvar_wait : (cvar lock : ℕ) → Kernel → Outcome
kernel_cvar_wait i j k = elim (find_cvar i k) [
  | none ↦ returned error nothing k
  | some cvar ↦ elim (kernel_release j k) [
    | none ↦ failed_assert
    | some (rc, k') ↦
        if eqb_ℤ rc error then returned error nothing k' else switched (wait_on i j k')
  ]
]

-- What KernelCvarWait does when the process is resumed: it takes the lock again.
pub kernel_cvar_wait_resumed : (lock : ℕ) → Kernel → Outcome
kernel_cvar_wait_resumed j k = kernel_acquire j k
