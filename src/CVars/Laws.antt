-- ===== src/CVars/Laws.antt =====
-- Who is woken by a signal and by a broadcast, and what waiting gives up.
use theynix.Base.{
  ℕ, ◌≡◌, ◌≢◌, ◌∙◌, ◌⊎◌, refl, sym, ap, true, false, ◌==◌, none, some, List, [], ◌∷◌, ◌++◌, arith,
  if◌then◌else◌, append-nil, append_assoc, find_by-change,
}
use mathlib.Core.Option
use theynix.Locks.{find_lock}
use theynix.Locks.Invariant.{IsConsistent}
use theynix.Kernel.Switch.{switch_to_next_proc-keeps}
use theynix.Locks.Release.{kernel_release-hands_over, kernel_release-refused}
use theynix.Kernel.{next_proc, Lock, Kernel, CVar}
use theynix.CVars.{
  wait_on, cvar_woken, nothing, cvar_id, returned, switched, make_ready, error, success,
  kernel_cvar_signal, kernel_cvar_wait, kernel_cvar_broadcast, change_cvar, broadcast_loop,
  find_cvar,
}

find-change :
    (i j : ℕ) (f : CVar → CVar) (k : Kernel)
    → ((c : CVar) → (f c).id ≡ c.id)
    → find_cvar j (change_cvar i f k)
      ≡ (if i == j then Option.map f (find_cvar j k) else find_cvar j k)
find-change i j f k same = find_by-change cvar_id i j f k.cvars same

broadcast_loop-lem :
    (i : ℕ) (ps : List ℕ) (k : Kernel) (c : CVar)
    → find_cvar i k ≡ some c
    → c.waiting_procs ≡ ps
    → let k' = broadcast_loop i ps k in
      (find_cvar i k' ≡ some (record c { waiting_procs = [] }))
      × (k'.ready_queue ≡ k.ready_queue ++ ps)
      × (k'.locks ≡ k.locks)
      × ((j : ℕ) → i ≢ j → find_cvar j k' ≡ find_cvar j k)
unfolding broadcast_loop
broadcast_loop-lem i [] k c found waits =
    (ground arith, sym (append-nil k.ready_queue), refl, λ j ne. refl)
broadcast_loop-lem i (p ∷ ps) k c found waits =
    let rest : CVar → CVar = λ d. record d { waiting_procs = ps } in
    let k1 = make_ready p (change_cvar i rest k) in
    let (e, ready, locks, others) =
      broadcast_loop-lem i ps k1 (rest c) (ground (arith, find-change i i rest k (λ d. refl)))
        refl in
    (
      e,
      ready ∙ append_assoc k.ready_queue (p ∷ []) ps,
      locks,
      λ j ne. others j ne ∙ ground (arith, find-change i j rest k (λ d. refl)),
    )

-- A broadcast makes every process that waits on the variable ready, in the order in which they
-- came, leaves nobody waiting on it, and touches no lock and no other variable.
pub kernel_cvar_broadcast-wakes_all :
    (i : ℕ) (k : Kernel) (c : CVar)
    → find_cvar i k ≡ some c
    → (k' : Kernel) × (kernel_cvar_broadcast i k ≡ (success, k'))
      × (find_cvar i k' ≡ some (record c { waiting_procs = [] }))
      × (k'.ready_queue ≡ k.ready_queue ++ c.waiting_procs)
      × (k'.locks ≡ k.locks)
      × ((j : ℕ) → i ≢ j → find_cvar j k' ≡ find_cvar j k)
unfolding kernel_cvar_broadcast
kernel_cvar_broadcast-wakes_all i k c found =
    let (e, ready, locks, others) = broadcast_loop-lem i c.waiting_procs k c found refl in
    (broadcast_loop i c.waiting_procs k, rw (found, kernel_cvar_broadcast), e, ready, locks, others)

-- A signal returns ERROR for an unknown variable. For a known one it returns SUCCESS: with nobody
-- waiting nothing changes, and otherwise just the process that has waited longest becomes ready.
pub kernel_cvar_signal-wakes_first :
    (i : ℕ) (k : Kernel)
    → (find_cvar i k ≡ none → kernel_cvar_signal i k ≡ (error, k))
      × ((c : CVar)
          → find_cvar i k ≡ some c
          → (c.waiting_procs ≡ [] → kernel_cvar_signal i k ≡ (success, k))
            × ((p : ℕ) (ps : List ℕ)
                → c.waiting_procs ≡ p ∷ ps
                → (k' : Kernel) × (kernel_cvar_signal i k ≡ (success, k'))
                  × (find_cvar i k' ≡ some (record c { waiting_procs = ps }))
                  × (k'.ready_queue ≡ k.ready_queue ++ (p ∷ []))))
unfolding kernel_cvar_signal
kernel_cvar_signal-wakes_first i k = (
  λ missing. rw (missing, kernel_cvar_signal),
  λ c found. (
    λ nobody. ground arith,
    λ p ps waits.
        let rest : CVar → CVar = λ d. record d { waiting_procs = ps } in
        (
          make_ready p (change_cvar i rest k),
          ground arith,
          ground (arith, find-change i i rest k (λ d. refl)),
          refl,
        ),
  ),
)

-- Waiting on a known variable with a lock that the caller holds: the lock is given up, the caller
-- stands at the end of the variable's queue, and the first process of the ready queue runs, behind
-- which the process that got the lock, if any, stands last. With a lock that is free, or that another
-- process owns, it returns ERROR, and nothing changes.
pub kernel_cvar_wait-gives_up :
    (i j : ℕ) (k : Kernel) (c : CVar) (l : Lock)
    → IsConsistent k
    → find_cvar i k ≡ some c
    → find_lock j k ≡ some l
    → (l.acquired ≡ true
        → l.owner_id ≡ k.current_proc
        → (k' : Kernel) × (kernel_cvar_wait i j k ≡ switched k')
          × (find_cvar i k'
              ≡ some (record c { waiting_procs = c.waiting_procs ++ (k.current_proc ∷ []) }))
          × (l.waiting_procs ≡ []
              → (find_lock j k' ≡ some (record l { acquired = false }))
                × ((k'.current_proc, k'.ready_queue) ≡ next_proc k.ready_queue))
          × ((q : ℕ) (qs : List ℕ)
              → l.waiting_procs ≡ q ∷ qs
              → (find_lock j k' ≡ some (record l { owner_id = q; waiting_procs = qs }))
                × ((k'.current_proc, k'.ready_queue) ≡ next_proc (k.ready_queue ++ (q ∷ [])))))
      × ((l.acquired ≡ false) ⊎ (l.owner_id ≢ k.current_proc)
          → kernel_cvar_wait i j k ≡ returned error nothing k)
unfolding kernel_cvar_wait
kernel_cvar_wait-gives_up i j k c l is found known = (
  λ taken mine.
      let (k1, e, (cvars, me), free, hands) = kernel_release-hands_over j k l is known taken mine in
      let wait =
        λ (d : CVar). record d { waiting_procs = d.waiting_procs ++ (k1.current_proc ∷ []) } in
      let k2 = change_cvar i wait k1 in
      let keeps = switch_to_next_proc-keeps (cvar_woken j) k2 in
      (
        wait_on i j k1,
        ground (arith, e),
        ground (arith, find-change i i wait k1 (λ d. refl), keeps, cvars, me),
        λ none_waits. (ground (arith, keeps, free none_waits), ap next_proc (free none_waits).1),
        λ q qs waits. (ground (arith, keeps, hands q qs waits), ap next_proc (hands q qs waits).2),
      ),
  λ other. ground (arith, kernel_release-refused j k l known other),
)
