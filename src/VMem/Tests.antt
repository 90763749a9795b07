-- ===== src/VMem/Tests.antt =====
-- The theorems of VMem with the free list of PMem.c, at small tables.
use theynix.Base.{
  ℕ, ◌+◌, ◌≤◌, ◌<◌, ◌≡◌, ◌⊎◌, refl, true, false, ◌&&◌, ◌==◌, some, [], ◌∷◌, ◌++◌, ℤ, arith, ltb,
  leb,
}
use theynix.PMem.{Machine, success, error}
use theynix.PMem.FreeList.{IsFree}
use theynix.PMem.Samples.{two_free, two_free-IsFree}
use theynix.VMem.{
  change_prot_region_1_pages, PageTable, create_region_1_page_table, map_new_region_1_pages,
  free_region_1_page_table, free_region_0_stack_pages,
}
use theynix.VMem.Allocator.{pmem_allocator}
use theynix.VMem.Map.{MapsAs, map_new_region_1_pages-all_or_none}
use theynix.VMem.Free.{frames_of, Cleared, free_tables-append}
use theynix.VMem.Prot.{change_prot_region_1_pages-sets}

map_new_region_1_pages-all_or_none_example :
    (rc : ℤ) × (t' : PageTable) × (s' : Machine) × (map_new_region_1_pages pmem_allocator 3 2 7
        (create_region_1_page_table, two_free)
      ≡ some (rc, (t', s')))
    × ((q : ℕ) → (leb 3 q && ltb q (3 + 2)) ≡ false → t' q ≡ create_region_1_page_table q)
    × ((2 ≤ 2) × (rc ≡ success) × IsFree s' [] × MapsAs t' 7 3 (5 ∷ 9 ∷ [])
        ⊎ (2 < 2)
          × (rc ≡ error)
          × IsFree s' (5 ∷ 9 ∷ [])
          × ((q : ℕ) → (t' q).valid ≡ (create_region_1_page_table q).valid))
map_new_region_1_pages-all_or_none_example =
    map_new_region_1_pages-all_or_none pmem_allocator 3 2 7 create_region_1_page_table two_free
      (5 ∷ 9 ∷ []) (omega arith, λ q a b. refl) two_free-IsFree

-- Page 6 holds frame 20 and page 1 of the kernel stack holds frame 30.
abbrev one_page : ℕ → ℕ → PageTable
one_page page frame q = record { valid = q == page; prot = 3; pfn = frame }

free_tables-append_example :
    let (t', s') = free_region_1_page_table pmem_allocator (one_page 6 20, two_free) in
    let (k', s'') = free_region_0_stack_pages pmem_allocator (one_page 1 30, s') in
    IsFree s'' (((5 ∷ 9 ∷ []) ++ frames_of (one_page 6 20) 0 128) ++ frames_of (one_page 1 30) 0 2)
    × Cleared (one_page 6 20) 0 128 t'
    × Cleared (one_page 1 30) 0 2 k'
unfolding frames_of
free_tables-append_example =
    free_tables-append pmem_allocator (one_page 6 20) (one_page 1 30) two_free (5 ∷ 9 ∷ [])
      (ground arith) (omega arith) two_free-IsFree

-- Pages 2 to 4 become readable only.
change_prot_region_1_pages-sets_example :
    (t' : PageTable) × (change_prot_region_1_pages 2 3 1
        (λ q. record { valid = true; prot = 3; pfn = q })
      ≡ some t')
    × ((q : ℕ) → 2 ≤ q → q < 5 → t' q ≡ record { valid = true; prot = 1; pfn = q })
    × ((q : ℕ) → (q < 2) ⊎ (5 ≤ q) → t' q ≡ record { valid = true; prot = 3; pfn = q })
change_prot_region_1_pages-sets_example =
    change_prot_region_1_pages-sets 2 3 1 (λ q. record { valid = true; prot = 3; pfn = q })
      (omega arith) (λ q lo hi. refl)
