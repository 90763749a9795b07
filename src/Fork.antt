-- ===== src/Fork.antt =====
-- KernelFork of SystemCalls.c, the constructors of PCB.c, and the part of
-- CopyRegion1PageTableAndData of Kernel.c that takes the frames. The saved user registers have no
-- part in the model.
pub mod Frames
pub mod Take
pub mod Stack
pub mod Child
pub mod Steps
pub mod Laws
mod Tests
use mathlib.Core.Option
use theynix.Base.{
  ℕ, zero, suc, ◌+◌, ◌-◌, ◌*◌, ◌/◌, ◌%◌, ◌^◌, ◌≤◌, ◌<◌, ◌≡◌, ◌≢◌, ◌∙◌, ◌⊎◌, inl, inr, refl, sym, ap,
  Bool, true, false, not, ◌&&◌, ◌||◌, ◌==◌, Option, none, some, List, [], ◌∷◌, ◌++◌, ℤ, pos, negsuc,
  arith, if◌then◌else◌, ltb, leb, Bool-cases, Option-cases, length, take, drop, update, eqb_ℤ,
}
use theynix.VMem.{
  create_region_1_page_table, free_valid_pages, invalid_pte, num_kernel_pages, PageTable,
  num_pages_reg_1,
}
use theynix.VMem.Allocator.{FrameAllocator}
use theynix.Kernel.{
  switch_to_proc, change_proc, current, fork_parent, make_ready, to_user, Kernel, Pcb,
}
use theynix.PageCopy.{Mmu, copy_prots, copy_region_1_data}
use theynix.PMem.{error, prot_read_write, success}

-- PROT_WRITE
abbrev pub prot_write : ℕ
prot_write = 2

-- A process that was never run, whose fields calloc has set to 0. CreateRegion1PageTable gives it
-- its first table.
abbrev pub new_blank_pcb : Pcb
new_blank_pcb = record {
  kernel_context_initialized = false;
  region_1_page_table = create_region_1_page_table;
  kernel_stack_page_table = λ page. invalid_pte;
  live_parent = none;
  live_children = [];
  zombie_children = [];
  owned_lock_ids = [];
  waiting_on_children = false;
  lowest_user_stack_page = 0;
  user_brk_page = 0;
  exit_status = pos 0;
  clock_ticks_until_ready = pos 0;
  tty_receive_len = 0;
  tty_receive_buffer = [];
  tty_transmit_len = 0;
  tty_transmit_pointer = [];
  resume = to_user;
}

-- What KernelFork returns once the process that runs has been switched to.
pub kernel_fork_resumed : (child_pid : ℕ) → Kernel → ℤ
kernel_fork_resumed child_pid k = if child_pid == k.current_proc then pos 0 else pos child_pid

-- KernelFork when there is memory: the child is linked, and runs.
pub start_child : (child_pid : ℕ) → Pcb → Kernel → Kernel
start_child child_pid child k =
    let me = k.current_proc in
    let k1 = record k {
      procs =
          update k.procs child_pid
            (record child { live_parent = some me; kernel_context_initialized = false });
    } in
    let k2 =
      change_proc me (λ p. record p { live_children = p.live_children ++ (child_pid ∷ []) }) k1 in
    switch_to_proc (fork_parent child_pid) child_pid (make_ready me k2)

module _ (al : FrameAllocator) where
  -- The loop that gives back the first `rounds` frames of a kernel stack, from page `page` on.
  pub release_stack_pages : (page rounds : ℕ) → PageTable × al.State → PageTable × al.State
  release_stack_pages page zero v = v
  release_stack_pages page (suc rounds) (t, s) =
      release_stack_pages (page + 1) rounds
        (update t page (record (t page) { valid = false }), al.release_used (t page).pfn s)

  -- The loop of NewBlankPCBWithPageTables from page `page` on; `false` stands for NULL.
  pub new_stack_pages : (page rounds : ℕ) → PageTable × al.State → Bool × PageTable × al.State
  unfolding release_stack_pages
  new_stack_pages page zero (t, s) = (true, t, s)
  new_stack_pages page (suc rounds) (t, s) =
      let (rc, pte, s') = al.get_unused (t page) s in
      let (t', s'') = release_stack_pages 0 page (update t page pte, s') in
      let rest =
        new_stack_pages (page + 1) rounds
          (update t page (record pte { valid = true; prot = prot_read_write }), s') in
      if eqb_ℤ rc error then (false, t', s'') else rest

  pub new_blank_pcb_with_page_tables : al.State → Option Pcb × al.State
  unfolding new_stack_pages
  new_blank_pcb_with_page_tables s =
      let (made, t, s') = new_stack_pages 0 num_kernel_pages (λ page. invalid_pte, s) in
      (if made then some (record new_blank_pcb { kernel_stack_page_table = t }) else none, s')

  -- The first loop of CopyRegion1PageTableAndData from page `page` on.
  pub take_frames :
      (source : PageTable) (page rounds : ℕ) → PageTable × al.State → ℤ × PageTable × al.State
  take_frames source page zero (t, s) = (success, t, s)
  take_frames source page (suc rounds) (t, s) =
      let (rc, pte, s') = al.get_unused (record (t page) { valid = true; prot = prot_write }) s in
      let t2 = update t page pte in
      let (t', s'') = free_valid_pages al 0 page (t2, s') in
      let rest =
        take_frames source (page + 1) rounds (if (source page).valid then (t2, s') else (t, s)) in
      if (source page).valid && eqb_ℤ rc error then (error, t', s'') else rest

  -- The kernel, next_pid, the free frames and the bytes of all frames.
  pub record ForkState : Type 0 where
    pub kernel : Kernel
    pub next_pid : ℕ
    pub free : al.State
    pub frames : ℕ → ℕ → ℕ

  -- CopyRegion1PageTableAndData; `none` is a fault of the copy.
  pub copy_region_1_page_table_and_data :
      (source dest : PageTable)
      → al.State
      → (frames : ℕ → ℕ → ℕ) → Option (ℤ × PageTable × al.State × (ℕ → ℕ → ℕ))
  copy_region_1_page_table_and_data source dest s frames =
      let (rc, t, s') = take_frames source 0 num_pages_reg_1 (dest, s) in
      if eqb_ℤ rc error
      then some (error, t, s', frames)
      else Option.map {A = Mmu} (λ u. (success, copy_prots source t, s', u.frames))
          (copy_region_1_data source t
            (record { table = source; loaded = source; frames = frames }))

  -- The returned code is that of the process that runs then.
  pub kernel_fork : ForkState → Option (ℤ × ForkState)
  kernel_fork c =
      let k = c.kernel in
      let me = current k in
      let child_pid = c.next_pid in
      let (made, s1) = new_blank_pcb_with_page_tables c.free in
      elim made [
        | none ↦ some (error, record c { next_pid = child_pid + 1; free = s1 })
        | some blank ↦
            let child = record blank {
              waiting_on_children = false;
              lowest_user_stack_page = me.lowest_user_stack_page;
              user_brk_page = me.user_brk_page;
            } in
            Option.map
              (λ (rc, t, s2, frames).
                let k' = start_child child_pid (record child { region_1_page_table = t }) k in
                if eqb_ℤ rc error
                then (error, record c { next_pid = child_pid + 1; free = s2 })
                else (
                  kernel_fork_resumed child_pid k',
                  record { kernel = k'; next_pid = child_pid + 1; free = s2; frames = frames },
                ))
              (copy_region_1_page_table_and_data me.region_1_page_table child.region_1_page_table s1
                c.frames)
      ]
