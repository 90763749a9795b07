-- ===== src/Fork/Steps.antt =====
-- The branches of CopyRegion1PageTableAndData and KernelFork, a step each.
use theynix.Base.{
  ℕ, ◌+◌, ◌≤◌, ◌<◌, ◌≡◌, ◌≢◌, refl, false, none, some, List, [], ◌∷◌, ◌++◌, pos, arith, length,
  drop,
}
use theynix.VMem.{create_region_1_page_table, PageTable}
use theynix.VMem.Free.{frames_of}
use theynix.VMem.Allocator.{FrameAllocator}
use theynix.Kernel.{Pcb, current, fork_parent, Kernel}
use theynix.Fork.{
  ForkState, kernel_fork, kernel_fork_resumed, new_blank_pcb_with_page_tables,
  copy_region_1_page_table_and_data, take_frames, new_blank_pcb, start_child,
}
use theynix.Fork.Take.{BlankFrom, take_frames-fail, take_frames-success}
use theynix.PageCopy.Region1.{copy_region_1_data-AllCopied}
use theynix.Fork.Child.{IsCopy, IsOwned, taken-IsApart, taken-IsCopy}
use theynix.PageCopy.{copy_prots, copy_region_1_data}
use theynix.PMem.{error, success}

-- The child `p` of the process that ran runs now, in the state of a process that has forked.
abbrev pub IsStarted : (k k' : Kernel) (p : ℕ) (t stack : PageTable) → Type 0
IsStarted k k' p t stack =
    let me = k.current_proc in
    (k'.current_proc ≡ p)
    × (k'.ready_queue ≡ k.ready_queue ++ (me ∷ []))
    × ((k'.procs p).live_parent ≡ some me)
    × ((k'.procs p).region_1_page_table ≡ t)
    × ((k'.procs p).kernel_stack_page_table ≡ stack)
    × ((k'.procs p).kernel_context_initialized ≡ false)
    × ((k'.procs p).user_brk_page ≡ (current k).user_brk_page)
    × ((k'.procs p).lowest_user_stack_page ≡ (current k).lowest_user_stack_page)
    × (k'.procs me ≡ record (current k) {
      live_children = (current k).live_children ++ (p ∷ []);
      resume = fork_parent p;
    })
    × ((q : ℕ) → q ≢ me → q ≢ p → k'.procs q ≡ k.procs q)

pub start_child-IsStarted :
    (k : Kernel) (p : ℕ) (t stack : PageTable)
    → p ≢ k.current_proc
    → IsStarted k
        (start_child p
          (record new_blank_pcb {
            kernel_stack_page_table = stack;
            waiting_on_children = false;
            lowest_user_stack_page = (current k).lowest_user_stack_page;
            user_brk_page = (current k).user_brk_page;
            region_1_page_table = t;
          })
          k)
        p
        t
        stack
unfolding start_child
start_child-IsStarted k p t stack ne = (
  refl,
  refl,
  ground arith,
  ground arith,
  ground arith,
  ground arith,
  ground arith,
  ground arith,
  ground arith,
  λ q a b. ground arith,
)

pub kernel_fork_resumed-branches :
    (p : ℕ) (k : Kernel)
    → (k.current_proc ≡ p → kernel_fork_resumed p k ≡ pos 0)
      × (p ≢ k.current_proc → kernel_fork_resumed p k ≡ pos p)
unfolding kernel_fork_resumed
kernel_fork_resumed-branches p k = ((λ e. ground (arith, e)), λ ne. ground (arith, ne))

module _ (al : FrameAllocator) where
  copy_fails :
      (source dest t : PageTable) (s s' : al.State) (frames : ℕ → ℕ → ℕ)
      → take_frames al source 0 128 (dest, s) ≡ (error, t, s')
      → copy_region_1_page_table_and_data al source dest s frames ≡ some (error, t, s', frames)
  unfolding copy_region_1_page_table_and_data
  copy_fails source dest t s s' frames run = rw (copy_region_1_page_table_and_data, run) refl

  copy_succeeds :
      (source dest t : PageTable) (s s' : al.State) (frames frames' : ℕ → ℕ → ℕ)
      → take_frames al source 0 128 (dest, s) ≡ (success, t, s')
      → copy_region_1_data source t (record { table = source; loaded = source; frames = frames })
        ≡ some (record { table = source; loaded = source; frames = frames' })
      → copy_region_1_page_table_and_data al source dest s frames
        ≡ some (success, copy_prots source t, s', frames')
  unfolding copy_region_1_page_table_and_data
  copy_succeeds source dest t s s' frames frames' run copied =
      rw (copy_region_1_page_table_and_data, run) (rw copied refl)

  -- CopyRegion1PageTableAndData gives back what it took, or copies the region.
  pub copy_region_1_page_table_and_data-IsCopy :
      (source : PageTable) (s : al.State) (frames : ℕ → ℕ → ℕ) (xs : List ℕ)
      → al.Frees s xs
      → IsOwned source xs
      → let n = length (frames_of source 0 128) in
        let run = copy_region_1_page_table_and_data al source create_region_1_page_table s frames in
        (length xs < n
          → (t : PageTable) × (s' : al.State) × (run ≡ some (error, t, s', frames))
            × al.Frees s' xs)
        × (n ≤ length xs
            → (t : PageTable) × (s' : al.State) × (frames' : ℕ → ℕ → ℕ) × (run
                ≡ some (success, t, s', frames'))
              × al.Frees s' (drop n xs)
              × IsCopy source t frames frames' xs)
  unfolding frames_of
  copy_region_1_page_table_and_data-IsCopy source s frames xs f owned =
      let blank : BlankFrom 0 create_region_1_page_table = λ q h. refl in
      let (d, b) = al.Frees-IsDistinct s xs f in
      (
        (λ lt.
            let (t, s', run, left) =
              take_frames-fail al source 0 128 create_region_1_page_table s xs [] blank refl d b lt
                f in
            (t, s', copy_fails source create_region_1_page_table t s s' frames run, left)),
        λ le.
            let (t, s', run, left, given, taken) =
              take_frames-success al source 0 128 create_region_1_page_table s xs blank le f in
            let apart =
              taken-IsApart source t xs (length (frames_of source 0 128)) owned d given taken in
            let (frames', copied, held) =
              copy_region_1_data-AllCopied source t
                (record { table = source; loaded = source; frames = frames }) apart in
            let copy = taken-IsCopy source t frames frames' xs given taken held in
            (
              copy_prots source t,
              s',
              frames',
              copy_succeeds source create_region_1_page_table t s s' frames frames' run copied,
              left,
              copy,
            ),
      )

  -- The child's PCB when the region is copied.
  abbrev pub child_of : Kernel → (stack t : PageTable) → Pcb
  child_of k stack t = record new_blank_pcb {
    kernel_stack_page_table = stack;
    waiting_on_children = false;
    lowest_user_stack_page = (current k).lowest_user_stack_page;
    user_brk_page = (current k).user_brk_page;
    region_1_page_table = t;
  }

  pub fork_without_stack :
      (c : ForkState al) (s1 : al.State)
      → new_blank_pcb_with_page_tables al c.free ≡ (none, s1)
      → kernel_fork al c ≡ some (error, record c { next_pid = c.next_pid + 1; free = s1 })
  unfolding kernel_fork
  fork_without_stack c s1 run = rw (kernel_fork, run) (rw run refl)

  pub fork_without_copy :
      (c : ForkState al) (stack t : PageTable) (s1 s2 : al.State)
      → new_blank_pcb_with_page_tables al c.free
        ≡ (some (record new_blank_pcb { kernel_stack_page_table = stack }), s1)
      → copy_region_1_page_table_and_data al
          (current c.kernel).region_1_page_table
          create_region_1_page_table
          s1
          c.frames
        ≡ some (error, t, s2, c.frames)
      → kernel_fork al c ≡ some (error, record c { next_pid = c.next_pid + 1; free = s2 })
  unfolding kernel_fork
  fork_without_copy c stack t s1 s2 run copied = rw (kernel_fork, run) (rw run (rw copied refl))

  pub fork_copied :
      (c : ForkState al) (stack t : PageTable) (s1 s2 : al.State) (frames' : ℕ → ℕ → ℕ)
      → new_blank_pcb_with_page_tables al c.free
        ≡ (some (record new_blank_pcb { kernel_stack_page_table = stack }), s1)
      → copy_region_1_page_table_and_data al
          (current c.kernel).region_1_page_table
          create_region_1_page_table
          s1
          c.frames
        ≡ some (success, t, s2, frames')
      → let k' = start_child c.next_pid (child_of c.kernel stack t) c.kernel in
        kernel_fork al c
        ≡ some (
          kernel_fork_resumed c.next_pid k',
          record { kernel = k'; next_pid = c.next_pid + 1; free = s2; frames = frames' },
        )
  unfolding kernel_fork
  fork_copied c stack t s1 s2 frames' run copied = rw (kernel_fork, run) (rw run (rw copied refl))
