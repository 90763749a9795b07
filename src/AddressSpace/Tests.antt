-- ===== src/AddressSpace/Tests.antt =====
-- The theorems of AddressSpace with the free list of PMem.c, at a small address space.
use theynix.Base.{
  ℕ, ◌+◌, ◌-◌, ◌/◌, ◌≤◌, ◌<◌, ◌≡◌, ◌⊎◌, refl, true, false, ◌&&◌, ◌||◌, some, [], ◌∷◌, ℤ, arith, ltb,
  leb,
}
use theynix.PMem.{Machine, success, error}
use theynix.PMem.FreeList.{IsFree}
use theynix.PMem.Samples.{two_free, two_free-IsFree}
use theynix.VMem.Allocator.{pmem_allocator}
use theynix.VMem.Map.{MapsAs}
use theynix.VMem.Unmap.{Unmaps}
use theynix.AddressSpace.{
  bad_permissions, met_heap, out_of_range, overread, unmapped_stack_page, vmem_1_base, vmem_1_limit,
  Space, kernel_brk, brk_page_of, trap_memory, grew, killed, no_free_frames,
}
use theynix.AddressSpace.Layout.{IsLaidOut}
use theynix.AddressSpace.Brk.{kernel_brk-grow, kernel_brk-shrink, kernel_brk-rounds}
use theynix.AddressSpace.Stack.{trap_memory-kills, MapsDown, trap_memory-grows}

-- Text and heap in pages 0 to 3, the stack in pages 126 and 127.
abbrev small : Space
small = record {
  region_1_page_table = λ q. record { valid = ltb q 4 || leb 126 q; prot = 3; pfn = q + 200 };
  lowest_user_stack_page = 126;
  user_brk_page = 4;
}

small-IsLaidOut : IsLaidOut small
small-IsLaidOut = record { gap = omega arith; fits = omega arith; blank = λ q a b. ground arith }

kernel_brk-rounds_example :
    (0xFE000 < 0x9A001 → brk_page_of 0x9A001 ≡ (0x9A001 + 8191) / 8192 - 128)
    × (0x9A001 ≤ 0xFE000
        → kernel_brk pmem_allocator 0x9A001 small two_free ≡ some (error, small, two_free))
kernel_brk-rounds_example =
    kernel_brk-rounds pmem_allocator 0x9A001 small two_free (omega arith) (omega arith)

-- From page 4 to page 6.
kernel_brk-grow_example :
    (rc : ℤ) × (sp' : Space) × (s' : Machine) × (kernel_brk pmem_allocator 0x10A001 small two_free
      ≡ some (rc, sp', s'))
    × IsLaidOut sp'
    × (sp'.lowest_user_stack_page ≡ 126)
    × ((6 - 4 ≤ 2)
          × (rc ≡ success)
          × (sp'.user_brk_page ≡ 6)
          × IsFree s' []
          × MapsAs sp'.region_1_page_table 3 4 (5 ∷ 9 ∷ [])
        ⊎ (2 < 6 - 4)
          × (rc ≡ error)
          × (sp'.user_brk_page ≡ 4)
          × IsFree s' (5 ∷ 9 ∷ [])
          × ((q : ℕ) → (sp'.region_1_page_table q).valid ≡ (small.region_1_page_table q).valid))
unfolding brk_page_of
kernel_brk-grow_example =
    kernel_brk-grow pmem_allocator 0x10A001 small two_free (5 ∷ 9 ∷ []) small-IsLaidOut
      two_free-IsFree (omega arith) (omega arith)

kernel_brk-shrink_example :
    (sp' : Space) × (s' : Machine) × (kernel_brk pmem_allocator 0x106000 small two_free
      ≡ some (success, sp', s'))
    × IsLaidOut sp'
    × (sp'.user_brk_page ≡ 3)
    × IsFree s' (5 ∷ 9 ∷ 203 ∷ [])
    × Unmaps small.region_1_page_table 3 1 sp'.region_1_page_table
unfolding brk_page_of
kernel_brk-shrink_example =
    kernel_brk-shrink pmem_allocator 0x106000 small two_free (5 ∷ 9 ∷ []) (203 ∷ []) small-IsLaidOut
      two_free-IsFree (omega arith) refl (refl, refl, tt) (ground arith) (omega arith)

trap_memory-grows_example :
    (sp' : Space) × (s' : Machine) × ((126 - 125 ≤ 2)
        × (trap_memory pmem_allocator 0x1FA010 small two_free ≡ some (grew sp' s'))
        × IsLaidOut sp'
        × (sp'.lowest_user_stack_page ≡ 125)
        × (sp'.user_brk_page ≡ 4)
        × IsFree s' (9 ∷ [])
        × MapsDown sp'.region_1_page_table 126 (5 ∷ [])
        × ((q : ℕ)
            → (leb 125 q && ltb q 126) ≡ false
            → sp'.region_1_page_table q ≡ small.region_1_page_table q)
      ⊎ (2 < 126 - 125)
        × (trap_memory pmem_allocator 0x1FA010 small two_free ≡ some (killed no_free_frames sp' s'))
        × IsFree s' []
        × MapsDown sp'.region_1_page_table 126 (5 ∷ 9 ∷ [])
        × ((q : ℕ)
            → (leb (126 - 2) q && ltb q 126) ≡ false
            → sp'.region_1_page_table q ≡ small.region_1_page_table q))
trap_memory-grows_example =
    trap_memory-grows pmem_allocator 0x1FA010 small two_free (5 ∷ 9 ∷ []) small-IsLaidOut
      two_free-IsFree (omega arith) (omega arith) (omega arith)

-- An access to page 3, below the break, that is mapped already.
trap_memory-kills_example :
    ((0x106010 < vmem_1_base) ⊎ (vmem_1_limit < 0x106010)
      → trap_memory pmem_allocator 0x106010 small two_free
        ≡ some (killed out_of_range small two_free))
    × (0x106010 ≡ vmem_1_limit → trap_memory pmem_allocator 0x106010 small two_free ≡ some overread)
    × (vmem_1_base ≤ 0x106010
        → 0x106010 < vmem_1_limit
        → ((small.region_1_page_table 3).valid ≡ true
            → trap_memory pmem_allocator 0x106010 small two_free ≡ some bad_permissions)
          × ((small.region_1_page_table 3).valid ≡ false
              → (3 ≤ 4
                  → trap_memory pmem_allocator 0x106010 small two_free
                    ≡ some (killed met_heap small two_free))
                × (4 < 3
                    → 126 ≤ 3
                    → trap_memory pmem_allocator 0x106010 small two_free
                      ≡ some (killed unmapped_stack_page small two_free))))
trap_memory-kills_example = trap_memory-kills pmem_allocator 0x106010 small two_free
