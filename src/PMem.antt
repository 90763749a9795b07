-- ===== src/PMem.antt =====
-- PMem.c: the free physical frames as a doubly linked list kept inside the frames themselves.
-- A frame is read and written through the first page of region 1, so entry 0 of the current region
-- 1 page table is borrowed and put back. What the hardware maps at that page is what entry 0 held
-- at the last flush of the TLB (include/hardware.h says that a changed entry wants a flush).
pub mod FreeList
pub mod Access
pub mod Queue
pub mod Init
pub mod Samples
mod Tests
use theynix.Base.{
  ℕ, zero, suc, ◌+◌, ◌-◌, ◌%◌, ◌/◌, ◌^◌, Bool, true, false, ℤ, pos, negsuc, is_neg, eqb_ℤ,
  if◌then◌else◌, update,
}

-- `struct pte`: one valid bit, three protection bits, 24 bits of frame number.
pub record Pte : Type 0 where
  pub valid : Bool
  pub prot : ℕ
  pub pfn : ℕ

-- An `int` stored in the bit field `pfn`.
abbrev pub to_pfn : ℤ → ℕ
to_pfn (pos n) = n % 2 ^ 24
to_pfn (negsuc n) = 2 ^ 24 - 1 - n % 2 ^ 24

-- The globals of PMem.c, entry 0 of the page table at REG_PTBR1, the frame that the TLB maps at
-- VMEM_1_BASE, and the physical memory: frame, then index of the `int` in it.
pub record Machine : Type 0 where
  pub free_frames_head : ℤ
  pub free_frames_tail : ℤ
  pub entry : Pte
  pub mapped : ℕ
  pub frames : ℕ → ℕ → ℤ

abbrev pub success : ℤ
success = pos 0

abbrev pub error : ℤ
error = negsuc 0

-- PROT_READ | PROT_WRITE
abbrev pub prot_read_write : ℕ
prot_read_write = 3

-- WriteRegister(REG_TLB_FLUSH, VMEM_1_BASE)
abbrev pub flush : Machine → Machine
flush m = record m { mapped = m.entry.pfn }

abbrev pub set_entry : Pte → Machine → Machine
set_entry e m = flush (record m { entry = e })

abbrev pub map_first_page : ℤ → Machine → Machine
map_first_page frame =
    set_entry (record { valid = true; prot = prot_read_write; pfn = to_pfn frame })

-- `frame_ptrs[i]`, with `frame_ptrs` at VMEM_1_BASE
abbrev pub read_word : ℕ → Machine → ℤ
read_word i m = m.frames m.mapped i

abbrev pub write_word : ℕ → ℤ → Machine → Machine
write_word i v m = record m { frames = update m.frames m.mapped (update (m.frames m.mapped) i v) }

-- `if (next_frame_b >= 0) { ... }`
abbrev pub write_next : Bool → ℤ → Machine → Machine
write_next a_was_tail next m =
    if is_neg next
    then m
    else let m' = write_word 0 next m in
      if a_was_tail then record m' { free_frames_tail = next } else m'

-- `if (prev_frame_c >= 0) { ... }`
abbrev pub write_prev : Bool → ℤ → Machine → Machine
write_prev a_was_head prev m =
    if is_neg prev
    then m
    else let m' = write_word 1 prev m in
      if a_was_head then record m' { free_frames_head = prev } else m'

pub set_next_and_prev : ℤ → ℤ → ℤ → Machine → Machine
set_next_and_prev frame_a next_frame_b prev_frame_c m =
    let a_was_tail = eqb_ℤ frame_a m.free_frames_tail in
    let a_was_head = eqb_ℤ frame_a m.free_frames_head in
    let m1 = map_first_page frame_a m in
    let m2 = write_next a_was_tail next_frame_b m1 in
    let m3 = write_prev a_was_head prev_frame_c m2 in set_entry m.entry m3

-- `if (free_frames_head < 0) { ... }`
abbrev pub start_if_empty : ℤ → Machine → Machine
start_if_empty frame m =
    if is_neg m.free_frames_head
    then record m { free_frames_head = frame; free_frames_tail = frame }
    else m

pub add_to_linked_list : ℤ → Machine → Machine
add_to_linked_list frame m =
    let m0 = start_if_empty frame m in
    let prev_tail = m0.free_frames_tail in
    let m1 = set_next_and_prev m0.free_frames_tail frame (negsuc 0) m0 in
    set_next_and_prev frame (negsuc 0) prev_tail m1

pub release_used_frame : ℤ → Machine → Machine
unfolding add_to_linked_list
release_used_frame frame_number m = add_to_linked_list frame_number m

pub get_next_free_frame_number : ℤ → Machine → ℤ × Machine
get_next_free_frame_number frame m =
    if eqb_ℤ frame m.free_frames_tail
    then (negsuc 0, m)
    else let m1 = map_first_page frame m in (read_word 0 m1, set_entry m.entry m1)

-- The return code, the entry that `pte_ptr` points to, and the machine.
pub get_unused_frame : Pte → Machine → ℤ × Pte × Machine
unfolding get_next_free_frame_number
get_unused_frame pte m =
    if is_neg m.free_frames_head
    then (error, pte, m)
    else let pte' = record pte { pfn = to_pfn m.free_frames_head } in
      if eqb_ℤ m.free_frames_head m.free_frames_tail
      then (success, pte', record m { free_frames_head = negsuc 0; free_frames_tail = negsuc 0 })
      else let (next_frame_number, m') = get_next_free_frame_number m.free_frames_head m in
        (success, pte', record m' { free_frames_head = next_frame_number })

-- `for (i = start; ...; i++) AddToLinkedList(i)`, by the number of rounds.
pub add_frames : ℕ → ℕ → Machine → Machine
add_frames start zero m = m
add_frames start (suc rounds) m = add_frames (start + 1) rounds (add_to_linked_list (pos start) m)

-- ADDR_TO_PAGE(KERNEL_STACK_BASE) and ADDR_TO_PAGE(KERNEL_STACK_LIMIT)
abbrev pub kernel_stack_base_page : ℕ
kernel_stack_base_page = 126

abbrev pub kernel_stack_limit_page : ℕ
kernel_stack_limit_page = 128

-- PMEM_BASE is 0 and PAGESHIFT 13; `max_frame` is -1 if there is no whole frame.
pub initialize_physical_memory_management : (kernel_brk_page pmem_size : ℕ) → Machine → Machine
unfolding add_frames
initialize_physical_memory_management kernel_brk_page pmem_size m =
    let frame_count = pmem_size / 2 ^ 13 in
    let m0 = record m {
      free_frames_head = pos kernel_brk_page;
      free_frames_tail = pos kernel_brk_page;
    } in
    let below =
      add_frames (kernel_brk_page + 1) (kernel_stack_base_page - (kernel_brk_page + 1)) m0 in
    add_frames (kernel_stack_limit_page + 1) (frame_count - (kernel_stack_limit_page + 1)) below
