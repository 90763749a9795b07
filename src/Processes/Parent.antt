-- ===== src/Processes/Parent.antt =====
-- What an exit does to the children and to the parent of the process.
use mathlib.Core.Path.{subst}
use theynix.Base.{
  ℕ, ◌≡◌, ◌≢◌, ◌∙◌, inl, inr, refl, ap, true, false, ◌==◌, none, some, List, [], ◌∷◌, ◌++◌, ℤ,
  arith, if◌then◌else◌, Bool-cases, has, remove,
}
use theynix.VMem.Allocator.{FrameAllocator}
use theynix.Kernel.{Pcb, current, next_proc, switch_to_next_proc, to_user, Kernel, change_proc}
use theynix.Processes.{exit_released, tell_parent, orphan_children}
use theynix.VMem.{PageTable, free_region_0_stack_pages, free_region_1_page_table}

orphan_children-keeps :
    (cs : List ℕ) (k : Kernel)
    → let k' = orphan_children cs k in
      (k'.current_proc ≡ k.current_proc)
      × (k'.ready_queue ≡ k.ready_queue)
      × ((p : ℕ) → has p cs ≡ true → (k'.procs p).live_parent ≡ none)
      × ((p : ℕ) → has p cs ≡ false → k'.procs p ≡ k.procs p)
      × ((p : ℕ) → (k.procs p).live_parent ≡ none → (k'.procs p).live_parent ≡ none)
      × ((p : ℕ)
          → record (k'.procs p) { live_parent = none } ≡ record (k.procs p) { live_parent = none })
unfolding orphan_children
orphan_children-keeps [] k = (refl, refl, λ p h. ground arith, λ p h. refl, λ p h. h, λ p. refl)
orphan_children-keeps (c ∷ cs) k =
    let k1 = change_proc c (λ p. record p { live_parent = none }) k in
    let (me, ready, gone, kept, stays, rest) = orphan_children-keeps cs k1 in
    (
      me,
      ready,
      λ p h. elim (Bool-cases (has p cs)) [
        | inl later ↦ gone p later
        | inr first ↦ stays p (ground (arith))
      ],
      λ p h. kept p (ground arith) ∙ ground arith,
      λ p h. stays p (ground arith),
      λ p. rest p ∙ elim (Bool-cases (c == p)) [ inl hit ↦ ground arith | inr miss ↦ ground arith ],
    )

-- What the parent and the ready queue look like after the exit of a child: `ready` is the ready
-- queue before, and `pa` the parent's PCB before.
pub record Told (me parent : ℕ) (pa : Pcb) (ready : List ℕ) (k' : Kernel) : Type 0 where
  pub zombie : (k'.procs parent).zombie_children ≡ pa.zombie_children ++ (me ∷ [])
  pub not_live : (k'.procs parent).live_children ≡ remove me pa.live_children
  pub waits_no_more : (k'.procs parent).waiting_on_children ≡ false
  pub next :
      (k'.current_proc, k'.ready_queue)
      ≡ next_proc (if pa.waiting_on_children then ready ++ (parent ∷ []) else ready)

tell_parent-Told :
    (parent : ℕ) (k : Kernel)
    → parent ≢ k.current_proc
    → Told k.current_proc parent
        (k.procs parent)
        k.ready_queue
        (switch_to_next_proc to_user (tell_parent (some parent) k))
unfolding tell_parent
tell_parent-Told parent k other = elim (Bool-cases (k.procs parent).waiting_on_children) [
  | inl waits ↦ record {
    zombie = ground arith;
    not_live = ground arith;
    waits_no_more = ground arith;
    next = ground arith;
  }
  | inr busy ↦ record {
    zombie = ground arith;
    not_live = ground arith;
    waits_no_more = ground arith;
    next = ground arith;
  }
]

tell_parent-others :
    (parent p : ℕ) (k : Kernel)
    → let k' = switch_to_next_proc to_user (tell_parent (some parent) k) in
      ((k'.procs p).exit_status ≡ (k.procs p).exit_status)
      × ((k'.procs p).live_parent ≡ (k.procs p).live_parent)
unfolding tell_parent
tell_parent-others parent p k = elim (Bool-cases (k.procs parent).waiting_on_children) [
  | inl waits ↦ (ground arith, ground arith)
  | inr busy ↦ (ground arith, ground arith)
]

-- The caller's PCB once its frames are freed.
abbrev emptied : PageTable → PageTable → ℤ → Pcb → Pcb
emptied t kt status p = record p {
  live_children = [];
  zombie_children = [];
  exit_status = status;
  region_1_page_table = t;
  kernel_stack_page_table = kt;
}

emptied-Told :
    (t kt : PageTable) (status : ℤ) (parent me : ℕ) (pa : Pcb) (ready : List ℕ) (k : Kernel)
    → k.current_proc ≡ me
    → k.ready_queue ≡ ready
    → k.procs parent ≡ pa
    → (k.procs me).live_parent ≡ some parent
    → parent ≢ me
    → let k2 = change_proc me (emptied t kt status) k in
      let k' = switch_to_next_proc to_user (tell_parent (current k2).live_parent k2) in
      Told me parent pa ready k'
      × ((k'.procs me).exit_status ≡ status)
      × ((c : ℕ) → (k.procs c).live_parent ≡ none → (k'.procs c).live_parent ≡ none)
emptied-Told t kt status parent me pa ready k same_me same_ready same_pa child other =
    let k2 = change_proc me (emptied t kt status) k in
    let mine : (current k2).live_parent ≡ some parent = ground arith in
    let same : k2.procs parent ≡ pa = ground (arith, same_pa) in
    let k' = switch_to_next_proc to_user (tell_parent (some parent) k2) in
    let told = tell_parent-Told parent k2 (rw same_me other) in
    rw mine (
      subst (λ q. Told me parent q ready k') same
          (subst (λ r. Told me parent (k2.procs parent) r k') same_ready
            (subst (λ m. Told m parent (k2.procs parent) k.ready_queue k') same_me told)),
      (tell_parent-others parent me k2).0 ∙ ground arith,
      λ c orphan. (tell_parent-others parent c k2).1 ∙ ground arith,
    )

pub exit_released-Told :
    (al : FrameAllocator) (status : ℤ) (parent : ℕ) (k : Kernel) (s : al.State)
    → (current k).live_parent ≡ some parent
    → parent ≢ k.current_proc
    → has parent (current k).live_children ≡ false
    → has k.current_proc (current k).live_children ≡ false
    → let (k', s') = exit_released al status k s in
      Told k.current_proc parent (k.procs parent) k.ready_queue k'
      × ((k'.procs k.current_proc).exit_status ≡ status)
      × ((c : ℕ) → has c (current k).live_children ≡ true → (k'.procs c).live_parent ≡ none)
unfolding exit_released
exit_released-Told al status parent k s child other stranger self =
    let me = k.current_proc in
    let k1 = orphan_children (current k).live_children k in
    let (same_me, same_ready, gone, kept, stays, rest) =
      orphan_children-keeps (current k).live_children k in
    let (t, s') = free_region_1_page_table al ((current k1).region_1_page_table, s) in
    let (kt, s'') = free_region_0_stack_pages al ((current k1).kernel_stack_page_table, s') in
    let (told, status_of, orphans) =
      emptied-Told t kt status parent me (k.procs parent) k.ready_queue k1 same_me same_ready
        (kept parent stranger) (ap (λ p. p.live_parent) (kept me self) ∙ child) other in
    (told, status_of, λ c h. orphans c (gone c h))
