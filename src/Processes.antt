-- ===== src/Processes.antt =====
-- The calls of SystemCalls.c on processes and time, KernelExit, KernelWait, KernelGetPid and
-- KernelDelay, and the clock of Traps.c. A call comes in two parts where it blocks: the second one
-- is what the process does when it is resumed.
pub mod Exit
pub mod Parent
pub mod Wait
pub mod Clock
pub mod Samples
mod Tests
use theynix.Base.{
  ℕ, zero, suc, ◌+◌, ◌-◌, ◌*◌, ◌/◌, ◌%◌, ◌^◌, ◌≤◌, ◌<◌, ◌≡◌, ◌≢◌, ◌∙◌, ◌⊎◌, inl, inr, refl, sym, ap,
  Bool, true, false, not, ◌&&◌, ◌||◌, ◌==◌, Option, none, some, List, [], ◌∷◌, ◌++◌, ℤ, pos, negsuc,
  arith, if◌then◌else◌, ltb, leb, Bool-cases, Option-cases, length, take, drop, update, eqb_ℤ, has,
  is_empty, is_neg, leb_ℤ, remove,
}
use theynix.VMem.Allocator.{FrameAllocator}
use theynix.Kernel.{
  switched, Kernel, Outcome, change_proc, child_exited, current, delay_over, failed_assert, halted,
  idle_pid, init_pid, int, make_ready, nothing, returned, switch_to_next_proc, to_user,
}
use theynix.Locks.{kernel_release}
use theynix.PMem.{error, success}
use theynix.VMem.{free_region_0_stack_pages, free_region_1_page_table}

-- How the loop of KernelExit over the owned locks stands after some rounds.
pub data Release : Type 0 where
  finished : Kernel → Release
  running : Kernel → Release
  assert_failed : Release

-- `while(!ListEmpty(current_proc->owned_lock_ids))`, for at most `fuel` rounds.
pub release_owned_locks : (fuel : ℕ) → Kernel → Release
release_owned_locks zero k = if is_empty (current k).owned_lock_ids then finished k else running k
release_owned_locks (suc fuel) k = elim (current k).owned_lock_ids [
  | [] ↦ finished k
  | i ∷ is ↦ elim (kernel_release i k) [
    | none ↦ assert_failed
    | some (rc, k') ↦ release_owned_locks fuel k'
  ]
]

-- The loop over the live children: each one's parent pointer becomes NULL.
pub orphan_children : List ℕ → Kernel → Kernel
orphan_children [] k = k
orphan_children (c ∷ cs) k =
    orphan_children cs (change_proc c (λ p. record p { live_parent = none }) k)

-- The last part of KernelExit, before the switch: the parent learns of it. A PCB that is freed is
-- left as it is, and nothing refers to it any more.
pub tell_parent : Option ℕ → Kernel → Kernel
tell_parent none k = k
tell_parent (some parent) k =
    let me = k.current_proc in
    let k1 =
      change_proc parent
        (λ p. record p {
          live_children = remove me p.live_children;
          zombie_children = p.zombie_children ++ (me ∷ []);
        })
        k in
    if (k1.procs parent).waiting_on_children
    then make_ready parent (change_proc parent (λ p. record p { waiting_on_children = false }) k1)
    else k1

module _ (al : FrameAllocator) where
  -- KernelExit from the end of the loop over the locks to the last switch.
  pub exit_released : (status : ℤ) → Kernel → al.State → Kernel × al.State
  unfolding orphan_children tell_parent
  exit_released status k s =
      let me = k.current_proc in
      let k1 = orphan_children (current k).live_children k in
      let (t, s') = free_region_1_page_table al ((current k1).region_1_page_table, s) in
      let (kt, s'') = free_region_0_stack_pages al ((current k1).kernel_stack_page_table, s') in
      let k2 =
        change_proc me
          (λ p. record p {
            live_children = [];
            zombie_children = [];
            exit_status = status;
            region_1_page_table = t;
            kernel_stack_page_table = kt;
          })
          k1 in
      (switch_to_next_proc to_user (tell_parent (current k2).live_parent k2), s'')

  -- `none` when the loop over the owned locks has not ended after `fuel` rounds.
  pub kernel_exit : (fuel : ℕ) (status : ℤ) → Kernel → al.State → Option (Outcome × al.State)
  unfolding release_owned_locks exit_released
  kernel_exit fuel status k s =
      if k.current_proc == init_pid then some (halted, s) else elim (release_owned_locks fuel k) [
        | finished k' ↦ let (k'', s') = exit_released status k' s in some (switched k'', s')
        | running k' ↦ none
        | assert_failed ↦ some (failed_assert, s)
      ]

-- What KernelWait does with the child that it takes from the zombies.
collect : ℕ → List ℕ → Kernel → Outcome
collect child rest k =
    returned success (int (k.procs child).exit_status)
      (change_proc k.current_proc (λ p. record p { zombie_children = rest }) k)

pub kernel_wait : (pointer_valid : Bool) → Kernel → Outcome
unfolding collect
kernel_wait pointer_valid k =
    if not pointer_valid then returned error nothing k else elim (current k).zombie_children [
      | child ∷ rest ↦ collect child rest k
      | [] ↦
          if is_empty (current k).live_children
          then returned error nothing k
          else switched (
              switch_to_next_proc child_exited
                (change_proc k.current_proc (λ p. record p { waiting_on_children = true }) k))
    ]

-- KernelWait after the switch, with `assert(child)`.
pub kernel_wait_resumed : Kernel → Outcome
unfolding collect
kernel_wait_resumed k = elim (current k).zombie_children [
  | child ∷ rest ↦ collect child rest k
  | [] ↦ failed_assert
]

pub kernel_get_pid : Kernel → ℕ
kernel_get_pid k = k.current_proc

-- `clock_ticks` is the int of the call.
pub kernel_delay : (clock_ticks : ℤ) → Kernel → Outcome
kernel_delay clock_ticks k =
    let me = k.current_proc in
    if is_neg clock_ticks
    then returned error nothing k
    else if eqb_ℤ clock_ticks (pos 0)
    then returned success nothing k
    else let k1 = change_proc me (λ p. record p { clock_ticks_until_ready = clock_ticks }) k in
      switched (
        switch_to_next_proc delay_over
          (record k1 { clock_block_procs = k1.clock_block_procs ++ (me ∷ []) }))

-- `--x`; the least `int` is out of reach, since a count goes below 0 never.
abbrev pub pred_ℤ : ℤ → ℤ
pred_ℤ (pos zero) = negsuc 0
pred_ℤ (pos (suc n)) = pos n
pred_ℤ (negsuc n) = negsuc (suc n)

pub decrement_ticks_remaining : ℕ → Kernel → Kernel
decrement_ticks_remaining p k =
    let ticks = pred_ℤ (k.procs p).clock_ticks_until_ready in
    let k1 = change_proc p (λ q. record q { clock_ticks_until_ready = ticks }) k in
    if leb_ℤ ticks (pos 0)
    then make_ready p (record k1 { clock_block_procs = remove p k1.clock_block_procs })
    else k1

-- The walk of ListMap with DecrementTicksRemaining over the blocked processes. A process that is
-- woken is removed from the list and its node freed, and ListMap then reads `i->next` in the freed
-- node: that is `none`, since C says nothing of what happens.
pub decrement_all : List ℕ → Kernel → Option Kernel
unfolding decrement_ticks_remaining
decrement_all [] k = some k
decrement_all (p ∷ ps) k =
    let k' = decrement_ticks_remaining p k in
    let rest = decrement_all ps k' in if has p k'.clock_block_procs then rest else none

-- `none` is the read of a freed node.
pub trap_clock : Kernel → Option Kernel
unfolding decrement_all
trap_clock k = elim (decrement_all k.clock_block_procs k) [
  | none ↦ none
  | some k1 ↦
      let k2 = if k1.current_proc == idle_pid then k1 else make_ready k1.current_proc k1 in
      some (switch_to_next_proc to_user k2)
]
