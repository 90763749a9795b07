-- ===== src/KernelHeap/Tests.antt =====
-- The kernel's heap and its data at the start, on small states.
use theynix.Base.{◌≤◌, ◌<◌, ◌≡◌, ◌⊎◌, refl, true, some, [], ◌∷◌, ℤ, arith, ltb}
use theynix.VMem.Allocator.{pmem_allocator}
use theynix.VMem.Map.{MapsAs}
use theynix.PMem.FreeList.{IsFree}
use theynix.PMem.Samples.{two_free, two_free-IsFree}
use theynix.KernelHeap.{Heap, set_kernel_brk}
use theynix.PMem.{Machine, error, success}
use theynix.KernelHeap.Grow.{SameOutsidePages, set_kernel_brk-grow}

-- Pages 0 to 2 are the kernel's.
abbrev small_heap : Heap
small_heap = record {
  region_0_page_table = λ q. record { valid = ltb q 3; prot = 3; pfn = q };
  kernel_brk_page = 3;
  virtual_memory_enabled = true;
}

-- Four pages, with two free frames.
set_kernel_brk-grow_example :
    (rc : ℤ) × (h' : Heap) × (s' : Machine) × (set_kernel_brk pmem_allocator 0xDFFF small_heap
        two_free
      ≡ some (rc, h', s'))
    × SameOutsidePages small_heap.region_0_page_table h'.region_0_page_table 3 4
    × ((4 ≤ 2)
          × (rc ≡ success)
          × (h'.kernel_brk_page ≡ 7)
          × IsFree s' []
          × MapsAs h'.region_0_page_table 3 3 (5 ∷ 9 ∷ [])
        ⊎ (2 < 4)
          × (rc ≡ error)
          × (h'.kernel_brk_page ≡ 3)
          × IsFree s' []
          × MapsAs h'.region_0_page_table 3 3 (5 ∷ 9 ∷ []))
set_kernel_brk-grow_example =
    set_kernel_brk-grow pmem_allocator 0xDFFF small_heap two_free (5 ∷ 9 ∷ []) refl (omega arith)
      (omega arith) (omega arith) (λ q a b. ground arith) two_free-IsFree
