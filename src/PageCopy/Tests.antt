-- ===== src/PageCopy/Tests.antt =====
-- A process with two pages in region 1, at its ends, and two kernel stacks.
use theynix.Base.{ℕ, ◌+◌, ◌-◌, ◌≡◌, true, false, ◌==◌, some, arith, if◌then◌else◌}
use theynix.VMem.{PageTable}
use theynix.PageCopy.{StackOwner, copy_region_1_data, Mmu}
use theynix.PageCopy.Region1.{copy_region_1_data-AllCopied}
use theynix.PageCopy.Down.{AllCopied, IsApart}

-- Pages 0 and 127 at frames `f` and `f + 1`.
abbrev two_ends : (prot f : ℕ) → PageTable
two_ends prot f i =
    if i == 0
    then record { valid = true; prot = prot; pfn = f }
    else if i == 127
    then record { valid = true; prot = prot; pfn = f + 1 }
    else record { valid = false; prot = 0; pfn = 0 }

abbrev bytes_of : (frame offset : ℕ) → ℕ
bytes_of frame offset = frame + offset

abbrev region_1_mmu : Mmu
region_1_mmu = record { table = two_ends 3 10; loaded = two_ends 3 10; frames = bytes_of }

two_ends-IsApart : IsApart false (two_ends 3 10) (two_ends 2 20) 128
two_ends-IsApart = record {
  reads = λ i h c. ground arith;
  writes = λ i h c. ground arith;
  apart = λ i j h g c d. ground arith;
  different = λ i j h g c d e. ground arith;
}

copy_region_1_data-AllCopied_example :
    (frames : ℕ → ℕ → ℕ) × (copy_region_1_data (two_ends 3 10) (two_ends 2 20) region_1_mmu
      ≡ some (record { table = two_ends 3 10; loaded = two_ends 3 10; frames = frames }))
    × AllCopied false (two_ends 3 10) (two_ends 2 20) 128 bytes_of frames
copy_region_1_data-AllCopied_example =
    copy_region_1_data-AllCopied (two_ends 3 10) (two_ends 2 20) region_1_mmu two_ends-IsApart

-- A stack at frames `f` and `f + 1`, whose owner's context is a number.
abbrev stack_owner : (context f : ℕ) → StackOwner ℕ
stack_owner context f = record {
  kernel_context = context;
  kernel_context_initialized = false;
  kernel_stack_page_table = λ i. record { valid = true; prot = 3; pfn = f + i };
}

abbrev region_0_mmu : Mmu
region_0_mmu = record {
  table = λ page. record { valid = true; prot = 3; pfn = page - 126 + 30 };
  loaded = λ page. record { valid = true; prot = 3; pfn = page - 126 + 30 };
  frames = bytes_of;
}
