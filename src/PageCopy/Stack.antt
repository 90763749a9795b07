-- ===== src/PageCopy/Stack.antt =====
-- The kernel stack at a switch.
use theynix.Base.{ℕ, ◌<◌, ◌≡◌, ◌⊎◌, true, some, arith}
use theynix.VMem.{PageTable}
use theynix.PageCopy.{use_kernel_stack_for_proc, copy_down, copy_kernel_stack, copy_last, Mmu}
use theynix.PageCopy.Down.{SameOutside, AllCopied, IsApart, StillSource}
use theynix.PageCopy.Region1.{copy_last-AllCopied}

stack_runs :
    (source dest : PageTable) (u u1 u' : Mmu)
    → copy_last true 126 source dest 1 u ≡ some u1
    → copy_down true 126 dest 1 u1 ≡ some u'
    → copy_kernel_stack source dest u ≡ some u'
unfolding copy_kernel_stack
stack_runs source dest u u1 u' run1 run2 = rw (copy_kernel_stack, run1) run2

pub copy_kernel_stack-AllCopied :
    (source dest : PageTable) (u : Mmu)
    → IsApart true source dest 2
    → StillSource 126 source 2 u
    → (u' : Mmu) × (copy_kernel_stack source dest u ≡ some u')
      × AllCopied true source dest 2 u.frames u'.frames
      × SameOutside 126 1 u.table u'.table
copy_kernel_stack-AllCopied source dest u a still =
    let (u1, u', run1, run2, held, same) =
      copy_last-AllCopied true 126 source dest 1 u (omega arith) a still in
    (u', stack_runs source dest u u1 u' run1 run2, held, same)

-- The pages of the kernel stack are those of `stack`, for the table and for the hardware, and the
-- other pages of region 0 are as they were.
abbrev pub UsesStack : PageTable → (u u' : Mmu) → Type 0
UsesStack stack u u' =
    (u'.loaded ≡ u'.table)
    × (u'.table 126 ≡ stack 0)
    × (u'.table 127 ≡ stack 1)
    × ((q : ℕ) → (q < 126) ⊎ (127 < q) → u'.table q ≡ u.table q)

abbrev resumed_mmu : PageTable → Mmu → Mmu
resumed_mmu stack v = let v' = use_kernel_stack_for_proc stack v in record v' { loaded = v'.table }
