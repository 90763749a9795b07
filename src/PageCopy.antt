-- ===== src/PageCopy.antt =====
-- The copies of pages in Kernel.c: the data of region 1 that a fork copies, the kernel stack that a
-- process gets at its first switch, and SaveKernelContextAndSwitch. An `Mmu` is the page table of
-- one region with the frames. A frame is a function from
-- offsets to bytes. The hardware goes by the entries that it has loaded, which a flush renews from
-- the page table. An access to a page without the right valid and protection bits is `none`.
pub mod Bytes
pub mod Down
pub mod Region1
pub mod Stack
mod Tests
use mathlib.Core.Option
use theynix.Base.{
  ℕ, zero, suc, ◌+◌, ◌-◌, ◌*◌, ◌/◌, ◌%◌, ◌^◌, ◌≤◌, ◌<◌, ◌≡◌, ◌≢◌, ◌∙◌, ◌⊎◌, inl, inr, refl, sym, ap,
  Bool, true, false, not, ◌&&◌, ◌||◌, ◌==◌, Option, none, some, List, [], ◌∷◌, ◌++◌, ℤ, pos, negsuc,
  arith, if◌then◌else◌, ltb, leb, Bool-cases, Option-cases, length, take, drop, update,
}
use theynix.PMem.{Pte, kernel_stack_base_page}
use theynix.VMem.{num_kernel_pages, PageTable, num_pages_reg_1}
use theynix.Kernel.{current}

pub record Mmu : Type 0 where
  pub table : PageTable
  pub loaded : PageTable
  pub frames : ℕ → ℕ → ℕ

-- PROT_READ and PROT_WRITE are bits 0 and 1.
abbrev pub readable : Pte → Bool
readable e = e.valid && (e.prot % 2 == 1)

abbrev pub writable : Pte → Bool
writable e = e.valid && (e.prot / 2 % 2 == 1)

abbrev pub page_size : ℕ
page_size = 8192

-- An entry of the table, and WriteRegister(REG_TLB_FLUSH, ...) for its page.
abbrev pub set_and_flush : (page : ℕ) → Pte → Mmu → Mmu
set_and_flush page e u = record u { table = update u.table page e; loaded = update u.loaded page e }

-- The loop of CopyRegion0PageData and CopyRegion1PageData from offset `i` on.
pub copy_bytes : (i rounds source dest : ℕ) → Mmu → Option Mmu
copy_bytes i zero source dest u = some u
copy_bytes i (suc rounds) source dest u =
    let a = u.loaded source in
    let b = u.loaded dest in
    let byte = u.frames a.pfn i in
    let rest =
      copy_bytes (i + 1) rounds source dest
        (record u { frames = update u.frames b.pfn (update (u.frames b.pfn) i byte) }) in
    if readable a && writable b then rest else none

pub copy_page_data : (source dest : ℕ) → Mmu → Option Mmu
unfolding copy_bytes
copy_page_data source dest u = copy_bytes 0 page_size source dest u

-- The loops that map page `i + 1` of a region to the frame of `dest i` and copy page `i` there, for
-- the pages below `n`, from the last one down. The pages start at `base`; the loop for a kernel
-- stack copies `always`, the one for region 1 only pages that are valid.
pub copy_down : (always : Bool) (base : ℕ) (dest : PageTable) (n : ℕ) → Mmu → Option Mmu
copy_down always base dest zero u = some u
copy_down always base dest (suc i) u =
    let rest = copy_down always base dest i in
    if always || (u.table (base + i)).valid
    then elim (copy_page_data (base + i) (base + i + 1) (set_and_flush (base + i + 1) (dest i) u)) [
      | none ↦ none
      | some u' ↦ rest u'
    ]
    else rest u

-- The first lines of both copies: the last page goes through page 0, which is mapped back.
pub copy_last : (always : Bool) (base : ℕ) (source dest : PageTable) (last : ℕ) → Mmu → Option Mmu
copy_last always base source dest last u =
    let back = set_and_flush base (source 0) in
    if always || (u.table (base + last)).valid
    then Option.map back (copy_page_data (base + last) base (set_and_flush base (dest last) u))
    else some (back u)

-- What CopyRegion1PageTableAndData does once it has the frames of `dest`: the tables it points the
-- hardware to are the copy of `source` and `source` itself.
pub copy_region_1_data : (source dest : PageTable) → Mmu → Option Mmu
copy_region_1_data source dest u =
    elim (copy_last false 0 source dest (num_pages_reg_1 - 1)
      (record u { table = source; loaded = source })) [
        | none ↦ none
        | some u1 ↦
            Option.map {A = Mmu} (λ u2. record u2 { table = source; loaded = source })
              (copy_down false 0 dest (num_pages_reg_1 - 1) u1)
      ]

-- The last loop over the pages: the protections.
abbrev pub copy_prots : (source dest : PageTable) → PageTable
copy_prots source dest page =
    if ltb page num_pages_reg_1 && (source page).valid
    then record (dest page) { prot = (source page).prot }
    else dest page

-- CopyKernelStackPageTableAndData; `table` is region_0_page_table.
pub copy_kernel_stack : (source dest : PageTable) → Mmu → Option Mmu
copy_kernel_stack source dest u =
    elim (copy_last true kernel_stack_base_page source dest (num_kernel_pages - 1) u) [
      | none ↦ none
      | some u1 ↦ copy_down true kernel_stack_base_page dest (num_kernel_pages - 1) u1
    ]

-- UseKernelStackForProc
abbrev pub use_kernel_stack_for_proc : PageTable → Mmu → Mmu
use_kernel_stack_for_proc stack u = record u {
  table = λ page.
      if leb kernel_stack_base_page page && ltb page (kernel_stack_base_page + num_kernel_pages)
      then stack (page - kernel_stack_base_page)
      else u.table page;
}

-- The fields of a PCB that a switch works on.
pub record StackOwner {ℓ} (C : Type ℓ) : Type ℓ where
  pub kernel_context : C
  pub kernel_context_initialized : Bool
  pub kernel_stack_page_table : PageTable

-- SaveKernelContextAndSwitch: the two processes as they are left, and the context to go on with.
pub save_kernel_context_and_switch {ℓ} :
    {C : Type ℓ}
    → C
    → (current_p next_p : StackOwner C) → Mmu
    → Option (StackOwner C × StackOwner C × C × Mmu)
unfolding copy_kernel_stack
save_kernel_context_and_switch {C = C} context current_p next_p u =
    let saved = record current_p { kernel_context = context } in
    let go : StackOwner C → Mmu → StackOwner C × StackOwner C × C × Mmu = λ p v.
      let v' = use_kernel_stack_for_proc p.kernel_stack_page_table v in
      (saved, p, p.kernel_context, record v' { loaded = v'.table }) in
    if next_p.kernel_context_initialized
    then some (go next_p u)
    else Option.map
        (go (record next_p { kernel_context = context; kernel_context_initialized = true }))
        (copy_kernel_stack current_p.kernel_stack_page_table next_p.kernel_stack_page_table u)
