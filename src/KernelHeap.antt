-- ===== src/KernelHeap.antt =====
-- The kernel's own heap and its data at the start: SetKernelBrk and InitBookkeepingStructs of
-- Kernel.c, MapNewRegion0Page and UnmapUsedRegion0Page of VMem.c. A failed `assert` is `none`.
pub mod Grow
pub mod Start
mod Tests
use mathlib.Core.Option
use theynix.Base.{
  ℕ, zero, suc, ◌+◌, ◌-◌, ◌*◌, ◌/◌, ◌%◌, ◌^◌, ◌≤◌, ◌<◌, ◌≡◌, ◌≢◌, ◌∙◌, ◌⊎◌, inl, inr, refl, sym, ap,
  Bool, true, false, not, ◌&&◌, ◌||◌, ◌==◌, Option, none, some, List, [], ◌∷◌, ◌++◌, ℤ, pos, negsuc,
  arith, if◌then◌else◌, ltb, leb, Bool-cases, Option-cases, length, take, drop, update, eqb_ℤ, min,
}
use theynix.AddressSpace.{addr_to_page}
use theynix.Ttys.{num_terminals, tty_init}
use theynix.PMem.{error, kernel_stack_base_page, prot_read_write, success}
use theynix.VMem.Allocator.{FrameAllocator}
use theynix.VMem.{PageTable}
use theynix.Kernel.{Kernel}

-- VMEM_0_LIMIT / PAGESIZE
abbrev pub num_pages_reg_0 : ℕ
num_pages_reg_0 = 128

-- region_0_page_table, kernel_brk_page and virtual_memory_enabled
pub record Heap : Type 0 where
  pub region_0_page_table : PageTable
  pub kernel_brk_page : ℕ
  pub virtual_memory_enabled : Bool

-- ADDR_TO_PAGE(addr - 1) + 1, in unsigned 32-bit arithmetic
pub kernel_brk_page_of : ℕ → ℕ
kernel_brk_page_of addr = addr_to_page ((addr + 2 ^ 32 - 1) % 2 ^ 32) + 1

module _ (al : FrameAllocator) where
  pub map_new_region_0_page :
      (page : ℕ) → PageTable × al.State → Option (ℤ × (PageTable × al.State))
  map_new_region_0_page page (t, s) =
      let (rc, pte, s') = al.get_unused (t page) s in
      if ltb page num_pages_reg_0 && not (t page).valid
      then some (
          if eqb_ℤ rc error
          then (error, (update t page pte, s'))
          else (success, (update t page (record pte { valid = true; prot = prot_read_write }), s')))
      else none

  pub unmap_used_region_0_page : (page : ℕ) → PageTable × al.State → Option (PageTable × al.State)
  unmap_used_region_0_page page (t, s) =
      if ltb page num_pages_reg_0 && (t page).valid
      then some (update t page (record (t page) { valid = false }), al.release_used (t page).pfn s)
      else none

  -- The loop of SetKernelBrk that grows the heap, from page `page` on.
  pub grow_heap : (page rounds : ℕ) → PageTable × al.State → Option (ℤ × (PageTable × al.State))
  unfolding map_new_region_0_page
  grow_heap page zero v = some (success, v)
  grow_heap page (suc rounds) v = elim (map_new_region_0_page page v) [
    | none ↦ none
    | some (rc, v') ↦ elim (eqb_ℤ rc error) [
      | true ↦ some (error, v')
      | false ↦ grow_heap (page + 1) rounds v'
    ]
  ]

  -- The loop that shrinks it: `above` is the page above `page_to_free`.
  pub shrink_heap : (above rounds : ℕ) → PageTable × al.State → Option (PageTable × al.State)
  unfolding unmap_used_region_0_page
  shrink_heap above zero v = some v
  shrink_heap above (suc rounds) v = elim (ltb (above - 1) kernel_stack_base_page) [
    | false ↦ shrink_heap (above - 1) rounds v
    | true ↦ elim (unmap_used_region_0_page (above - 1) v) [
      | none ↦ none
      | some v' ↦ shrink_heap (above - 1) rounds v'
    ]
  ]

  pub set_kernel_brk : (addr : ℕ) → Heap → al.State → Option (ℤ × Heap × al.State)
  unfolding kernel_brk_page_of grow_heap shrink_heap
  set_kernel_brk addr h s =
      let new = kernel_brk_page_of addr in
      let old = h.kernel_brk_page in
      let t = h.region_0_page_table in
      if ltb (kernel_stack_base_page * 2 ^ 13) addr
      then some (error, h, s)
      else if not h.virtual_memory_enabled
      then some (success, record h { kernel_brk_page = new }, s)
      else if ltb old new
      then Option.map
          (λ (rc, (t', s')).
            if eqb_ℤ rc error
            then (error, record h { region_0_page_table = t' }, s')
            else (success, record h { region_0_page_table = t'; kernel_brk_page = new }, s'))
          (grow_heap old (min new kernel_stack_base_page - old) (t, s))
      else Option.map
          (λ (t', s'). (success, record h { region_0_page_table = t'; kernel_brk_page = new }, s'))
          (shrink_heap old (old - new) (t, s))

-- InitBookkeepingStructs, on what the globals hold at the start of the program.
pub init_bookkeeping_structs : Kernel → Kernel
init_bookkeeping_structs k = record k {
  locks = [];
  cvars = [];
  pipes = [];
  ready_queue = [];
  clock_block_procs = [];
  ttys = λ i. if ltb i num_terminals then tty_init else k.ttys i;
}
