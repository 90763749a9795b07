-- ===== src/VMem.antt =====
-- VMem.c: pages of region 1 and of a kernel stack, mapped to frames and unmapped. A page table is a
-- function from page numbers to entries. The frames come from PMem.c, which these functions see as
-- a `FrameAllocator`; an `assert` that fails is `none`. The TLB flushes have no part in the tables.
pub mod Allocator
pub mod Unmap
pub mod Map
pub mod Free
pub mod Prot
pub mod Samples
mod Tests
use theynix.Base.{
  ℕ, zero, suc, ◌+◌, ◌-◌, ◌<◌, true, false, not, ◌&&◌, Option, none, some, ℤ, pos, negsuc, eqb_ℤ,
  ltb, if◌then◌else◌, update,
}
use theynix.PMem.{Pte, success, error}
use mathlib.Core.Option
use Allocator.{FrameAllocator}

-- NUM_PAGES_REG_1 is VMEM_1_SIZE / PAGESIZE, and NUM_KERNEL_PAGES is KERNEL_STACK_MAXSIZE / PAGESIZE.
abbrev pub num_pages_reg_1 : ℕ
num_pages_reg_1 = 128

abbrev pub num_kernel_pages : ℕ
num_kernel_pages = 2

abbrev pub PageTable : Type 0
PageTable = ℕ → Pte

abbrev pub invalid_pte : Pte
invalid_pte = record { valid = false; prot = 0; pfn = 0 }

-- CreateRegion1PageTable: `calloc`, and every valid bit reset.
abbrev pub create_region_1_page_table : PageTable
create_region_1_page_table page = invalid_pte

module _ (al : FrameAllocator) where
  abbrev Vm : Type 0
  Vm = PageTable × al.State

  -- A loop of UnmapRegion1Pages from page `page` on, by the number of rounds.
  pub unmap_region_1_pages : (page rounds : ℕ) → Vm → Option Vm
  unmap_region_1_pages page zero v = some v
  unmap_region_1_pages page (suc rounds) (t, s) =
      let rest =
        unmap_region_1_pages (page + 1) rounds
          (update t page (record (t page) { valid = false }), al.release_used (t page).pfn s) in
      if ltb page num_pages_reg_1 && (t page).valid then rest else none

  -- MapNewRegion1Pages from page `page` on; the pages from `start` up to it are mapped already.
  pub map_new_region_1_pages_from : (start page rounds prot : ℕ) → Vm → Option (ℤ × Vm)
  unfolding unmap_region_1_pages
  map_new_region_1_pages_from start page zero prot v = some (success, v)
  map_new_region_1_pages_from start page (suc rounds) prot (t, s) =
      let (rc, pte, s') = al.get_unused (t page) s in
      let rollback : Option (ℤ × Vm) =
        Option.map (λ v. (error, v))
          (unmap_region_1_pages start (page - start) (update t page pte, s')) in
      let rest =
        map_new_region_1_pages_from start (page + 1) rounds prot
          (update t page (record pte { valid = true; prot = prot }), s') in
      if ltb page num_pages_reg_1 && not (t page).valid
      then if eqb_ℤ rc error then rollback else rest
      else none

  pub map_new_region_1_pages : (start num_pages prot : ℕ) → Vm → Option (ℤ × Vm)
  unfolding map_new_region_1_pages_from
  map_new_region_1_pages start num_pages prot =
      map_new_region_1_pages_from start start num_pages prot

  -- The loop of FreeRegion1PageTable and FreeRegion0StackPages from page `page` on.
  pub free_valid_pages : (page rounds : ℕ) → Vm → Vm
  free_valid_pages page zero v = v
  free_valid_pages page (suc rounds) (t, s) = free_valid_pages (page + 1) rounds (
      if (t page).valid
      then (update t page (record (t page) { valid = false }), al.release_used (t page).pfn s)
      else (t, s))

  pub free_region_1_page_table : Vm → Vm
  unfolding free_valid_pages
  free_region_1_page_table = free_valid_pages 0 num_pages_reg_1

  pub free_region_0_stack_pages : Vm → Vm
  unfolding free_valid_pages
  free_region_0_stack_pages = free_valid_pages 0 num_kernel_pages

-- ChangeProtRegion1Pages from page `page` on.
pub change_prot_region_1_pages : (page rounds prot : ℕ) → PageTable → Option PageTable
change_prot_region_1_pages page zero prot t = some t
change_prot_region_1_pages page (suc rounds) prot t =
    let rest =
      change_prot_region_1_pages (page + 1) rounds prot
        (update t page (record (t page) { prot = prot })) in
    if ltb page num_pages_reg_1 && (t page).valid then rest else none
