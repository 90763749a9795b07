-- ===== src/Fork/Tests.antt =====
-- A process with one page forks, with four free frames kept as a plain queue.
use theynix.Base.{ℕ, ◌+◌, ◌≤◌, ◌<◌, ◌≡◌, refl, ◌==◌, some, List, [], ◌∷◌, pos, arith, length}
use theynix.PMem.{error}
use theynix.VMem.{PageTable}
use theynix.VMem.Samples.{IsQueue, queue_allocator}
use theynix.VMem.Free.{frames_of}
use theynix.Kernel.Samples.{blank_pcb, small_kernel}
use theynix.Fork.{ForkState, kernel_fork}
use theynix.Fork.Laws.{IsForked, kernel_fork-branches}
use theynix.Fork.Child.{IsOwned}

four_free : IsQueue (5 ∷ 9 ∷ 11 ∷ 13 ∷ []) (5 ∷ 9 ∷ 11 ∷ 13 ∷ [])
four_free = (
  refl,
  (refl, (refl, (refl, (refl, tt)))),
  (omega arith, (omega arith, (omega arith, (omega arith, tt)))),
)

-- Page 3 is at frame 20.
abbrev one_page_table : PageTable
one_page_table q = record { valid = q == 3; prot = 3; pfn = 20 }

abbrev before_fork : ForkState queue_allocator
before_fork = record {
  kernel = record small_kernel {
    procs = λ p. record blank_pcb { region_1_page_table = one_page_table };
  };
  next_pid = 7;
  free = 5 ∷ 9 ∷ 11 ∷ 13 ∷ [];
  frames = λ f o. f + o;
}

one_page_table-IsOwned : IsOwned one_page_table (5 ∷ 9 ∷ 11 ∷ 13 ∷ [])
one_page_table-IsOwned = record { reads = λ i h v. ground (arith, v); not_free = λ i h v. refl }

kernel_fork-branches_example :
    let al = queue_allocator in
    let c = before_fork in
    let xs : List ℕ = 5 ∷ 9 ∷ 11 ∷ 13 ∷ [] in
    let n = length (frames_of one_page_table 0 128) in
    (length xs < 2
      → (s : al.State) × (kernel_fork al c ≡ some (error, record c { next_pid = 8; free = s }))
        × al.Frees s xs)
    × ((x y : ℕ) (ys : List ℕ)
        → xs ≡ x ∷ y ∷ ys
        → (length ys < n
            → (s : al.State) × (kernel_fork al c
                ≡ some (error, record c { next_pid = 8; free = s }))
              × al.Frees s ys)
          × (n ≤ length ys
              → (c' : ForkState al) × (kernel_fork al c ≡ some (pos 0, c'))
                × IsForked al c c' x y ys))
kernel_fork-branches_example =
    kernel_fork-branches queue_allocator before_fork (5 ∷ 9 ∷ 11 ∷ 13 ∷ []) four_free
      one_page_table-IsOwned (λ e. omega arith)
