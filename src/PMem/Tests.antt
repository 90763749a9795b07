-- ===== src/PMem/Tests.antt =====
-- The free list run on a small memory, and the theorems of PMem at concrete machines.
use theynix.Base.{ℕ, ◌*◌, ◌/◌, ◌^◌, ◌≡◌, refl, List, [], ◌∷◌, pos, arith, has, leb, ltb, ◌||◌, ◌&&◌}
use theynix.PMem.{
  Machine, get_unused_frame, release_used_frame, add_to_linked_list, set_next_and_prev,
  initialize_physical_memory_management,
}
use theynix.PMem.FreeList.{IsFree, SameOutside}
use theynix.PMem.Queue.{release_used_frame-append, Taken, get_unused_frame-Taken}
use theynix.PMem.Samples.{blank_pte, two_free, two_free-IsFree}
use theynix.PMem.Init.{initialize-IsFree}

-- A small memory: the kernel's break at page 123, memory of 131 pages.
booted : Machine
unfolding initialize_physical_memory_management add_to_linked_list set_next_and_prev
booted = initialize_physical_memory_management 123 (131 * 2 ^ 13) two_free

booted_first : (get_unused_frame blank_pte booted).1.pfn ≡ 123
unfolding booted get_unused_frame
booted_first = refl

booted_second :
    let m1 = (get_unused_frame blank_pte booted).2 in (get_unused_frame blank_pte m1).1.pfn ≡ 124
unfolding booted get_unused_frame
booted_second = refl

release_used_frame-append_example :
    let m' = release_used_frame (pos 6) two_free in
    IsFree m' (5 ∷ 9 ∷ 6 ∷ [])
    × (m'.entry ≡ two_free.entry)
    × SameOutside (6 ∷ 5 ∷ 9 ∷ []) two_free m'
release_used_frame-append_example =
    release_used_frame-append two_free 6 (5 ∷ 9 ∷ []) (omega arith) refl two_free-IsFree

get_unused_frame-Taken_example :
    Taken (5 ∷ 9 ∷ []) blank_pte two_free (get_unused_frame blank_pte two_free)
get_unused_frame-Taken_example =
    get_unused_frame-Taken blank_pte two_free (5 ∷ 9 ∷ []) two_free-IsFree

initialize-IsFree_example :
    (xs : List ℕ) × IsFree (initialize_physical_memory_management 40 (2 ^ 21) two_free) xs
    × ((f : ℕ) → has f xs ≡ ((leb 40 f && ltb f 126) || (leb 129 f && ltb f (2 ^ 21 / 2 ^ 13))))
initialize-IsFree_example = initialize-IsFree 40 (2 ^ 21) two_free (omega arith) (omega arith)
