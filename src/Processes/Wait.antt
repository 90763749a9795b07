-- ===== src/Processes/Wait.antt =====
-- KernelExit and KernelWait as the two ends of the report of an exit status.
use mathlib.Core.Path.{subst}
use theynix.Base.{
  ℕ, zero, suc, ◌≤◌, ◌≡◌, ◌≢◌, ◌∙◌, refl, ap, true, false, Option, none, some, List, [], ◌∷◌, ◌++◌,
  ℤ, arith, if◌then◌else◌, length, has, has-append, remove,
}
use theynix.VMem.Allocator.{FrameAllocator}
use theynix.Processes.{collect, exit_released, kernel_exit, kernel_wait, kernel_wait_resumed}
use theynix.Processes.Exit.{kernel_exit-ends, release_owned_locks-ends}
use theynix.Kernel.{
  Outcome, Kernel, Pcb, change_proc, child_exited, current, init_pid, int, next_proc, nothing,
  returned, switch_to_next_proc, switched,
}
use theynix.Locks.GiveUp.{WaitsForNone, but_locks}
use theynix.Locks.Invariant.{IsConsistent}
use theynix.PMem.{error, success}
use theynix.Processes.Parent.{exit_released-Told, Told}

Told-same :
    (me parent : ℕ) (pa pb : Pcb) (ready : List ℕ) (k : Kernel)
    → but_locks pa ≡ but_locks pb
    → Told me parent pa ready k
    → Told me parent pb ready k
Told-same me parent pa pb ready k same told = record {
  zombie = told.zombie ∙ ap (λ p. p.zombie_children ++ (me ∷ [])) same;
  not_live = told.not_live ∙ ap (λ p. remove me p.live_children) same;
  waits_no_more = told.waits_no_more;
  next =
      told.next
      ∙ ap (λ p. next_proc (if p.waiting_on_children then ready ++ (parent ∷ []) else ready)) same;
}

next_proc-has :
    (p : ℕ) (xs : List ℕ) → let (q, rest) = next_proc (xs ++ (p ∷ [])) in has p (q ∷ rest) ≡ true
next_proc-has p [] = ground arith
next_proc-has p (x ∷ xs) = ground (arith, has-append p xs (p ∷ []))

-- A process other than init that exits, with its locks consistent and waiting for none, within as
-- many rounds as it owns locks ends up among the zombies of its parent with its status, is a live
-- child no more, and leaves its children without a parent. If the parent waits for a child, it stops
-- waiting and stands at the end of the ready queue, behind the processes that the locks woke; and
-- the next process of the ready queue runs. The parent is assumed to be another process, and neither
-- of the two a child of the process.
pub kernel_exit-tells_parent :
    (al : FrameAllocator) (fuel : ℕ) (status : ℤ) (parent : ℕ) (k : Kernel) (s : al.State)
    → k.current_proc ≢ init_pid
    → IsConsistent k
    → WaitsForNone k.current_proc k
    → length (current k).owned_lock_ids ≤ fuel
    → (current k).live_parent ≡ some parent
    → parent ≢ k.current_proc
    → has parent (current k).live_children ≡ false
    → has k.current_proc (current k).live_children ≡ false
    → (k' : Kernel) × (s' : al.State) × (woken : List ℕ) × (kernel_exit al fuel status k s
        ≡ some (switched k', s'))
      × Told k.current_proc parent (k.procs parent) (k.ready_queue ++ woken) k'
      × ((k'.procs k.current_proc).exit_status ≡ status)
      × ((c : ℕ) → has c (current k).live_children ≡ true → (k'.procs c).live_parent ≡ none)
kernel_exit-tells_parent al fuel status parent k s user is none_of le child other stranger self =
    let me = k.current_proc in
    let (k1, ends, is1, nothing_left, rel) = release_owned_locks-ends fuel k is none_of le in
    let same : but_locks (k1.procs k1.current_proc) ≡ but_locks (current k) =
      rw rel.same_proc (rel.same_pcbs me) in
    let kids = ap (λ p. p.live_children) same in
    let (told, status_of, orphans) =
      exit_released-Told al status parent k1 s (ap (λ p. p.live_parent) same ∙ child)
        (rw rel.same_proc other) (ap (has parent) kids ∙ stranger)
        (ap (λ m. has m (current k1).live_children) rel.same_proc ∙ ap (has me) kids ∙ self) in
    let (k', s') = exit_released al status k1 s in
    (
      k',
      s',
      rel.woken,
      kernel_exit-ends al fuel status k k1 s user ends,
      Told-same me parent (k1.procs parent) (k.procs parent) _ k' (rel.same_pcbs parent) (
          subst (λ r. Told me parent (k1.procs parent) r k') rel.woken_last
            (subst (λ m. Told m parent (k1.procs parent) k1.ready_queue k') rel.same_proc told)),
      subst (λ m. (k'.procs m).exit_status ≡ status) rel.same_proc status_of,
      λ c h. orphans c (ap (has c) kids ∙ h),
    )

-- The status that a call has stored, and the kernel after it.
abbrev pub stored_status : Outcome → Option (ℤ × Kernel)
stored_status (returned rc (int status) k) = some (status, k)
stored_status (returned rc _ k) = none
stored_status _ = none

-- The statuses that so many calls of KernelWait in a row store, if all of them store one.
pub wait_times : ℕ → Kernel → Option (List ℤ × Kernel)
wait_times zero k = some ([], k)
wait_times (suc n) k = elim (stored_status (kernel_wait true k)) [
  | none ↦ none
  | some (status, k') ↦ elim (wait_times n k') [
    | none ↦ none
    | some (rest, k'') ↦ some (status ∷ rest, k'')
  ]
]

abbrev pub statuses : List ℕ → (procs : ℕ → Pcb) → List ℤ
statuses [] procs = []
statuses (c ∷ cs) procs = (procs c).exit_status ∷ statuses cs procs

-- Nothing changes but the zombies of the running process.
pub record Collected (k k' : Kernel) : Type 0 where
  same_current : k'.current_proc ≡ k.current_proc
  same_ready : k'.ready_queue ≡ k.ready_queue
  same_live : (current k').live_children ≡ (current k).live_children
  others : (q : ℕ) → q ≢ k.current_proc → k'.procs q ≡ k.procs q
  no_zombies : (current k').zombie_children ≡ []

-- KernelWait with a bad pointer returns ERROR; with a zombie child it stores the status of the one
-- that exited first and takes just that one off the list; with no child at all it returns ERROR;
-- and with live children only the caller is marked as waiting and will go on where KernelWait looks
-- for a zombie again, no other process changes, and the next process of the ready queue runs.
pub kernel_wait-branches :
    (k : Kernel)
    → (kernel_wait false k ≡ returned error nothing k)
      × ((child : ℕ) (rest : List ℕ)
          → (current k).zombie_children ≡ child ∷ rest
          → (k' : Kernel) × (kernel_wait true k
              ≡ returned success (int (k.procs child).exit_status) k')
            × (kernel_wait_resumed k ≡ kernel_wait true k)
            × ((current k').zombie_children ≡ rest)
            × (k'.ready_queue ≡ k.ready_queue))
      × ((current k).zombie_children ≡ []
          → ((current k).live_children ≡ [] → kernel_wait true k ≡ returned error nothing k)
            × ((c : ℕ) (cs : List ℕ)
                → (current k).live_children ≡ c ∷ cs
                → (k' : Kernel) × (kernel_wait true k ≡ switched k')
                  × ((k'.current_proc, k'.ready_queue) ≡ next_proc k.ready_queue)
                  × (k'.procs k.current_proc
                      ≡ record (current k) { waiting_on_children = true; resume = child_exited })
                  × ((q : ℕ) → q ≢ k.current_proc → k'.procs q ≡ k.procs q)))
unfolding kernel_wait kernel_wait_resumed collect
kernel_wait-branches k = (
  refl,
  λ child rest zombies. (
    change_proc k.current_proc (λ p. record p { zombie_children = rest }) k,
    ground arith,
    ground arith,
    ground arith,
    refl,
  ),
  λ none_dead. (
    λ none_live. ground arith,
    λ c cs live. (
      switch_to_next_proc child_exited
          (change_proc k.current_proc (λ p. record p { waiting_on_children = true }) k),
      ground arith,
      refl,
      ground arith,
      λ q ne. ground arith,
    ),
  ),
)

-- What KernelWait does when it has to wait: the caller is marked and will go on behind the switch, no
-- other process changes, and the first process of the ready queue runs.
pub record Waits (k k' : Kernel) : Type 0 where
  queue : (k'.current_proc, k'.ready_queue) ≡ next_proc k.ready_queue
  marked :
      k'.procs k.current_proc
      ≡ record (current k) { waiting_on_children = true; resume = child_exited }
  others : (q : ℕ) → q ≢ k.current_proc → k'.procs q ≡ k.procs q

-- When a process exits while its parent waits with no zombie, and the parent is resumed, KernelWait
-- gives it SUCCESS and the status of the exit.
pub kernel_exit-wait :
    (al : FrameAllocator) (fuel : ℕ) (status : ℤ) (parent : ℕ) (k : Kernel) (s : al.State)
    → k.current_proc ≢ init_pid
    → IsConsistent k
    → WaitsForNone k.current_proc k
    → length (current k).owned_lock_ids ≤ fuel
    → (current k).live_parent ≡ some parent
    → parent ≢ k.current_proc
    → has parent (current k).live_children ≡ false
    → has k.current_proc (current k).live_children ≡ false
    → (k.procs parent).zombie_children ≡ []
    → (k.procs parent).waiting_on_children ≡ true
    → (k' : Kernel) × (s' : al.State) × (k'' : Kernel) × (kernel_exit al fuel status k s
        ≡ some (switched k', s'))
      × (has parent (k'.current_proc ∷ k'.ready_queue) ≡ true)
      × (kernel_wait_resumed (record k' { current_proc = parent })
          ≡ returned success (int status) k'')
unfolding kernel_wait_resumed collect
kernel_exit-wait al fuel status parent k s user is none_of le child other stranger self alone
      waits =
    let (k', s', woken, ends, told, status_of, orphans) =
      kernel_exit-tells_parent al fuel status parent k s user is none_of le child other stranger
        self in
    let only : (k'.procs parent).zombie_children ≡ k.current_proc ∷ [] =
      told.zombie ∙ ap (λ zs. zs ++ (k.current_proc ∷ [])) alone in
    (
      k',
      s',
      change_proc parent (λ p. record p { zombie_children = [] })
          (record k' { current_proc = parent }),
      ends,
      ap (λ (c, r). has parent (c ∷ r)) (told.next ∙ rw waits)
          ∙ next_proc-has parent (k.ready_queue ++ woken),
      ground (arith, only, status_of),
    )
