-- ===== src/Processes/Clock.antt =====
-- Traps.c and KernelDelay: what the call and a clock interrupt do to the processes that are blocked
-- for a time.
use theynix.Base.{
  ℕ, zero, suc, ◌+◌, ◌≡◌, ◌≢◌, ◌∙◌, inl, inr, refl, sym, true, false, ◌==◌, Option, none, some,
  List, [], ◌∷◌, ◌++◌, ℤ, pos, negsuc, arith, if◌then◌else◌, Bool-cases, IsDistinct, has,
  has-remove, leb_ℤ,
}
use mathlib.Core.Path.{subst}
use theynix.Base.{IsDistinct-append_one, Option, has-append, sym, zero, ◌+◌}
use theynix.Processes.{kernel_delay, trap_clock, decrement_all, decrement_ticks_remaining, pred_ℤ}
use theynix.Kernel.{
  Kernel, Pcb, change_proc, delay_over, idle_pid, make_ready, next_proc, nothing, returned,
  switch_to_next_proc, switched, to_user,
}
use theynix.PMem.{error, success}

-- What the next interrupt makes of the ticks of a process.
abbrev pub ticks_left : Kernel → ℕ → ℤ
ticks_left k q = pred_ℤ (k.procs q).clock_ticks_until_ready

-- The PCB with one tick less.
abbrev pub ticked : Pcb → Pcb
ticked p = record p { clock_ticks_until_ready = pred_ℤ p.clock_ticks_until_ready }

decrement_all-ends :
    (ps : List ℕ) (k : Kernel) (q : ℕ)
    → IsDistinct ps
    → IsDistinct k.clock_block_procs
    → ((r : ℕ) → has r ps ≡ true → has r k.clock_block_procs ≡ true)
    → has q ps ≡ true
    → leb_ℤ (ticks_left k q) (pos 0) ≡ true
    → decrement_all ps k ≡ none
unfolding decrement_all decrement_ticks_remaining
decrement_all-ends [] k q d dk within h over = cc
decrement_all-ends (p ∷ ps) k q d dk within h over =
    elim (Bool-cases (leb_ℤ (ticks_left k p) (pos 0))) [
      | inl ends ↦ ground (arith, has-remove p p k.clock_block_procs dk)
      | inr goes_on ↦
          let k' = change_proc p ticked k in
          let later =
            decrement_all-ends ps k' q d.1 dk (λ r i. within r (ground arith)) (ground arith)
              (ground arith) in
          ground (arith, within p)
    ]

-- Nothing changes but the ticks of the processes of the list.
record Ticked (ps : List ℕ) (k k' : Kernel) : Type 0 where
  blocked : (q : ℕ) → has q ps ≡ true → k'.procs q ≡ ticked (k.procs q)
  others : (q : ℕ) → has q ps ≡ false → k'.procs q ≡ k.procs q
  same_blocked : k'.clock_block_procs ≡ k.clock_block_procs
  same_ready : k'.ready_queue ≡ k.ready_queue
  same_current : k'.current_proc ≡ k.current_proc

decrement_all-Ticked :
    (ps : List ℕ) (k : Kernel)
    → IsDistinct ps
    → ((q : ℕ) → has q ps ≡ true → has q k.clock_block_procs ≡ true)
    → ((q : ℕ) → has q ps ≡ true → leb_ℤ (ticks_left k q) (pos 0) ≡ false)
    → (k' : Kernel) × (decrement_all ps k ≡ some k') × Ticked ps k k'
unfolding decrement_all decrement_ticks_remaining
decrement_all-Ticked [] k d within go_on = (
  k,
  refl,
  record {
    blocked = λ q h. ground arith;
    others = λ q h. refl;
    same_blocked = refl;
    same_ready = refl;
    same_current = refl;
  },
)
decrement_all-Ticked (p ∷ ps) k d within go_on =
    let k1 = change_proc p ticked k in
    let first = go_on p (ground arith) in
    let (k', run, t) =
      decrement_all-Ticked ps k1 d.1 (λ q h. within q (ground arith))
        (λ q h. ground (arith, go_on q)) in
    (
      k',
      ground (arith, first, run, within p),
      record {
        blocked = λ q h. ground (arith, t.blocked q, t.others q);
        others = λ q h. ground (arith, t.others q);
        same_blocked = t.same_blocked;
        same_ready = t.same_ready;
        same_current = t.same_current;
      },
    )

-- A clock interrupt with no process blocked twice. If the ticks of a blocked process are over with it,
-- ListMap reads a freed node. Otherwise each blocked process has one tick less and stays blocked, no
-- PCB of another process but the interrupted one changes; the interrupted process stands at the end
-- of the ready queue, unless it is the idle process; and the first process of the queue runs.
pub trap_clock-ticks :
    (k : Kernel)
    → IsDistinct k.clock_block_procs
    → let me = k.current_proc in
      let ready = if me == idle_pid then k.ready_queue else k.ready_queue ++ (me ∷ []) in
      ((q : ℕ)
        → has q k.clock_block_procs ≡ true
        → leb_ℤ (ticks_left k q) (pos 0) ≡ true
        → trap_clock k ≡ none)
      × (((q : ℕ) → has q k.clock_block_procs ≡ true → leb_ℤ (ticks_left k q) (pos 0) ≡ false)
          → (k' : Kernel) × (trap_clock k ≡ some k')
            × ((q : ℕ)
                → has q k.clock_block_procs ≡ true
                → (k'.procs q).clock_ticks_until_ready ≡ ticks_left k q)
            × ((q : ℕ) → has q k.clock_block_procs ≡ false → me ≢ q → k'.procs q ≡ k.procs q)
            × (k'.clock_block_procs ≡ k.clock_block_procs)
            × ((k'.current_proc, k'.ready_queue) ≡ next_proc ready))
unfolding trap_clock
trap_clock-ticks k d = (
  λ q h over. ground (arith, decrement_all-ends k.clock_block_procs k q d d (λ r i. i) h over),
  λ go_on.
      let (k1, run, t) = decrement_all-Ticked k.clock_block_procs k d (λ q h. h) go_on in
      elim (Bool-cases (k.current_proc == idle_pid)) [
        | inl idle ↦ (
          switch_to_next_proc to_user k1,
          ground (arith, run, t.same_current),
          λ q h. ground (arith, t.blocked q h),
          λ q h ne. ground (arith, t.others q h, t.same_current),
          t.same_blocked,
          ground (arith, t.same_ready),
        )
        | inr busy ↦ (
          switch_to_next_proc to_user (make_ready k1.current_proc k1),
          ground (arith, run, t.same_current),
          λ q h. ground (arith, t.blocked q h),
          λ q h ne. ground (arith, t.others q h, t.same_current),
          t.same_blocked,
          ground (arith, t.same_ready, t.same_current),
        )
      ],
)

-- How many clock interrupts, one after the other; `none` if one reads a freed node.
pub clock_ticks : ℕ → Kernel → Option Kernel
unfolding trap_clock
clock_ticks zero k = some k
clock_ticks (suc n) k = elim (trap_clock k) [ none ↦ none | some k' ↦ clock_ticks n k' ]

-- Every blocked process has at least so many ticks.
abbrev pub Last : ℕ → Kernel → Type 0
Last n k =
    (q : ℕ)
    → has q k.clock_block_procs ≡ true
    → (more : ℕ) × ((k.procs q).clock_ticks_until_ready ≡ pos (n + more))

clock_ticks-blocked :
    (n q : ℕ) (k : Kernel)
    → IsDistinct k.clock_block_procs
    → has q k.clock_block_procs ≡ true
    → (k.procs q).clock_ticks_until_ready ≡ pos (suc n)
    → Last (suc n) k
    → (k' : Kernel) × (clock_ticks n k ≡ some k')
      × (k'.clock_block_procs ≡ k.clock_block_procs)
      × ((k'.procs q).clock_ticks_until_ready ≡ pos 1)
      × (trap_clock k' ≡ none)
unfolding clock_ticks
clock_ticks-blocked zero q k d blocked ticks last =
    (k, refl, refl, ticks, (trap_clock-ticks k d).0 q blocked (ground arith))
clock_ticks-blocked (suc n) q k d blocked ticks last =
    let (k1, run, less, others, same, switch) =
      (trap_clock-ticks k d).1 (λ p h. let (more, e) = last p h in ground arith) in
    let (k', runs, same', ticks', over) =
      clock_ticks-blocked n q k1 (subst IsDistinct (sym same) d) (ground arith)
        (ground (arith, less q blocked))
        (λ p h. let (more, e) = last p (ground arith) in (more, ground (arith, less p))) in
    (k', ground arith, same' ∙ same, ticks', over)

-- KernelDelay returns ERROR for a negative number of ticks and SUCCESS for 0, at once. Otherwise it
-- blocks the caller and runs the next process of the ready queue. If every process that is blocked
-- already has at least as many ticks as the caller asked for, the caller stays blocked through the
-- clock interrupts before the last of them, with one tick left; and the last one, which is to wake
-- it, reads a freed node. It is assumed that no process is blocked twice, and the caller not yet.
pub kernel_delay-ticks :
    (k : Kernel)
    → IsDistinct k.clock_block_procs
    → has k.current_proc k.clock_block_procs ≡ false
    → ((n : ℕ) → kernel_delay (negsuc n) k ≡ returned error nothing k)
      × (kernel_delay (pos 0) k ≡ returned success nothing k)
      × ((n : ℕ)
          → Last (suc n) k
          → (k' : Kernel) × (k'' : Kernel) × (kernel_delay (pos (suc n)) k ≡ switched k')
            × ((k'.current_proc, k'.ready_queue) ≡ next_proc k.ready_queue)
            × (clock_ticks n k' ≡ some k'')
            × (k''.clock_block_procs ≡ k.clock_block_procs ++ (k.current_proc ∷ []))
            × ((k''.procs k.current_proc).clock_ticks_until_ready ≡ pos 1)
            × (trap_clock k'' ≡ none))
unfolding kernel_delay
kernel_delay-ticks k d awake = (
  λ n. refl,
  refl,
  λ n last.
      let me = k.current_proc in
      let k1 = change_proc me (λ p. record p { clock_ticks_until_ready = pos (suc n) }) k in
      let k2 = record k1 { clock_block_procs = k1.clock_block_procs ++ (me ∷ []) } in
      let k3 = switch_to_next_proc delay_over k2 in
      let (k', runs, same, ticks, over) =
        clock_ticks-blocked n me k3 (IsDistinct-append_one me k.clock_block_procs d awake)
          (ground (arith, has-append me k.clock_block_procs (me ∷ []))) (ground arith)
          (λ q h. elim (Bool-cases (me == q)) [
            | inl hit ↦ (0, ground arith)
            | inr miss ↦
                let (more, e) =
                  last q (ground (arith, has-append q k.clock_block_procs (me ∷ []))) in
                (more, ground arith)
          ]) in
      (k3, k', ground arith, refl, runs, same, ticks, over),
)
