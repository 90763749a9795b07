-- ===== src/AddressSpace.antt =====
-- The user part of a process's address space: KernelBrk of SystemCalls.c, and TrapMemory of
-- Traps.c, which grows the user stack. Killing a process stands for the message to the console and
-- the call of KernelExit, which never returns to the process.
pub mod Layout
pub mod Brk
pub mod Stack
mod Tests
use theynix.Base.{
  ℕ, zero, suc, ◌+◌, ◌-◌, ◌/◌, ◌%◌, ◌^◌, true, false, ◌&&◌, ◌||◌, not, Option, none, some, ℤ, eqb_ℤ,
  ltb, leb, if◌then◌else◌, update,
}
use mathlib.Core.Option
use theynix.PMem.{Pte, success, error, prot_read_write}
use theynix.VMem.{PageTable, num_pages_reg_1, map_new_region_1_pages, unmap_region_1_pages}
use theynix.VMem.Allocator.{FrameAllocator}

-- VMEM_1_BASE and VMEM_1_LIMIT
abbrev pub vmem_1_base : ℕ
vmem_1_base = 0x100000

abbrev pub vmem_1_limit : ℕ
vmem_1_limit = 0x200000

-- ADDR_TO_PAGE, that is `>> PAGESHIFT`
abbrev pub addr_to_page : ℕ → ℕ
addr_to_page addr = addr / 2 ^ 13

abbrev pub region_1_base_page : ℕ
region_1_base_page = 128

-- The fields of a PCB that describe its region 1.
pub record Space : Type 0 where
  pub region_1_page_table : PageTable
  pub lowest_user_stack_page : ℕ
  pub user_brk_page : ℕ

-- `ADDR_TO_PAGE(addr - 1) + 1 - REGION_1_BASE_PAGE`, in unsigned 32-bit arithmetic.
pub brk_page_of : ℕ → ℕ
brk_page_of addr =
    (addr_to_page ((addr + 2 ^ 32 - 1) % 2 ^ 32) + 1 + 2 ^ 32 - region_1_base_page) % 2 ^ 32

-- Why TrapMemory kills a process.
pub data Reason : Type 0 where
  out_of_range no_free_frames met_heap unmapped_stack_page : Reason

-- `bad_permissions` is the `exit(-1)` of the last branch, and `overread` a read behind the end of
-- the page table.
pub data Outcome (S : Type 0) : Type 0 where
  grew : Space → S → Outcome S
  killed : Reason → Space → S → Outcome S
  bad_permissions overread : Outcome S

module _ (al : FrameAllocator) where
  pub kernel_brk : (addr : ℕ) → Space → al.State → Option (ℤ × Space × al.State)
  kernel_brk addr sp s =
      let new = brk_page_of addr in
      let t = sp.region_1_page_table in
      let old = sp.user_brk_page in
      if leb sp.lowest_user_stack_page new
      then some (error, sp, s)
      else if ltb old new
      then Option.map
          (λ (rc, (t', s')).
            if eqb_ℤ rc error
            then (error, record sp { region_1_page_table = t' }, s')
            else (success, record sp { region_1_page_table = t'; user_brk_page = new }, s'))
          (map_new_region_1_pages al old (new - old) prot_read_write (t, s))
      else if ltb new old
      then Option.map
          (λ (t', s'). (success, record sp { region_1_page_table = t'; user_brk_page = new }, s'))
          (unmap_region_1_pages al new (old - new) (t, s))
      else some (success, record sp { user_brk_page = new }, s)

  -- The loop of TrapMemory: `above` is the page above `page_to_alloc`.
  pub grow_user_stack :
      (above rounds : ℕ) → PageTable → al.State → Option (ℤ × PageTable × al.State)
  grow_user_stack above zero t s = some (success, t, s)
  grow_user_stack above (suc rounds) t s =
      let page_to_alloc = above - 1 in
      let (rc, pte, s') = al.get_unused (t page_to_alloc) s in
      let rest =
        grow_user_stack page_to_alloc rounds
          (update t page_to_alloc (record pte { valid = true; prot = prot_read_write })) s' in
      if eqb_ℤ rc error
      then some (error, update t page_to_alloc pte, s')
      else if pte.valid
      then none
      else rest

  -- `none` is a failed `assert`.
  pub trap_memory : (addr : ℕ) → Space → al.State → Option (Outcome al.State)
  unfolding grow_user_stack
  trap_memory addr sp s =
      let t = sp.region_1_page_table in
      let addr_page = addr_to_page (addr - vmem_1_base) in
      let below_current_stack = ltb addr_page sp.lowest_user_stack_page in
      let above_heap = ltb sp.user_brk_page addr_page in
      if ltb vmem_1_limit addr || ltb addr vmem_1_base
      then some (killed out_of_range sp s)
      else if leb num_pages_reg_1 addr_page
      then some overread
      else if (t addr_page).valid
      then some bad_permissions
      else if below_current_stack && above_heap
      then Option.map
          (λ (rc, t', s').
            if eqb_ℤ rc error
            then killed no_free_frames (record sp { region_1_page_table = t' }) s'
            else grew (record sp { region_1_page_table = t'; lowest_user_stack_page = addr_page })
                s')
          (grow_user_stack sp.lowest_user_stack_page (sp.lowest_user_stack_page - addr_page) t s)
      else some (if not above_heap then killed met_heap sp s else killed unmapped_stack_page sp s)
