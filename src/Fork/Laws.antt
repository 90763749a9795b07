-- ===== src/Fork/Laws.antt =====
-- What KernelFork does, by the number of free frames.
use mathlib.Core.Path.{subst}
use theynix.Base.{
  ℕ, ◌+◌, ◌≤◌, ◌<◌, ◌≡◌, ◌≢◌, ◌∙◌, refl, ap, some, List, ◌∷◌, pos, arith, length, drop,
}
use theynix.VMem.{PageTable}
use theynix.VMem.Free.{frames_of}
use theynix.VMem.Allocator.{FrameAllocator}
use theynix.Kernel.{current}
use theynix.Fork.{start_child, ForkState, kernel_fork, kernel_fork_resumed}
use theynix.Fork.Steps.{
  kernel_fork_resumed-branches, child_of, copy_region_1_page_table_and_data-IsCopy, fork_copied,
  fork_without_copy, start_child-IsStarted, IsStarted, fork_without_stack,
}
use theynix.Fork.Stack.{
  new_blank_pcb_with_page_tables-cons, new_blank_pcb_with_page_tables-short, stack_pte,
}
use theynix.PMem.{error}
use theynix.Fork.Child.{IsCopy, IsOwned}

-- A fork in which the child runs: it gets `pos 0`, and its parent its pid when it is resumed. The
-- child has the frames `x` and `y` as its stack and a copy of region 1 in the first of `ys`, of
-- which the rest is free.
abbrev pub IsForked :
    (al : FrameAllocator) → ForkState al → ForkState al → (x y : ℕ) → List ℕ → Type 0
IsForked al c c' x y ys =
    (t : PageTable) × (stack : PageTable) × IsStarted c.kernel c'.kernel c.next_pid t stack
    × (stack 0 ≡ stack_pte x)
    × (stack 1 ≡ stack_pte y)
    × IsCopy (current c.kernel).region_1_page_table t c.frames c'.frames ys
    × al.Frees c'.free (drop (length (frames_of (current c.kernel).region_1_page_table 0 128)) ys)
    × (c'.next_pid ≡ c.next_pid + 1)
    × (kernel_fork_resumed c.next_pid (record c'.kernel { current_proc = c.kernel.current_proc })
        ≡ pos c.next_pid)

-- KernelFork, by the free frames. With fewer than two it returns ERROR, and the frames are free
-- again. With two frames but too few for a copy of region 1 it returns ERROR, nothing is changed but
-- next_pid, and those two frames are lost. With enough it is the child that runs: it is the last
-- child of its parent, which is the last ready process, region 1 is copied with its protections to
-- frames of the child's own, the kernel stack still to be copied, and the call returns 0 to the
-- child and later the child's pid to the parent. It is assumed that the pages of region 1 can be
-- read and have frames that are not free, and that next_pid is not the caller's.
pub kernel_fork-branches :
    (al : FrameAllocator) (c : ForkState al) (xs : List ℕ)
    → al.Frees c.free xs
    → IsOwned (current c.kernel).region_1_page_table xs
    → c.next_pid ≢ c.kernel.current_proc
    → let n = length (frames_of (current c.kernel).region_1_page_table 0 128) in
      (length xs < 2
        → (s : al.State) × (kernel_fork al c
            ≡ some (error, record c { next_pid = c.next_pid + 1; free = s }))
          × al.Frees s xs)
      × ((x y : ℕ) (ys : List ℕ)
          → xs ≡ x ∷ y ∷ ys
          → (length ys < n
              → (s : al.State) × (kernel_fork al c
                  ≡ some (error, record c { next_pid = c.next_pid + 1; free = s }))
                × al.Frees s ys)
            × (n ≤ length ys
                → (c' : ForkState al) × (kernel_fork al c ≡ some (pos 0, c'))
                  × IsForked al c c' x y ys))
kernel_fork-branches al c xs f owned ne = (
  (λ lt.
      let (s1, run, left) = new_blank_pcb_with_page_tables-short al c.free xs lt f in
      (s1, fork_without_stack al c s1 run, left)),
  λ x y ys cons.
      let (stack, s1, run, f1, first, second) =
        new_blank_pcb_with_page_tables-cons al c.free x y ys
          (subst (λ zs. al.Frees c.free zs) cons f) in
      let source = (current c.kernel).region_1_page_table in
      let owned' : IsOwned source ys = record {
        reads = owned.reads;
        not_free = λ i h v. ground (arith, owned.not_free i h v, cons);
      } in
      let (fails, succeeds) =
        copy_region_1_page_table_and_data-IsCopy al source s1 c.frames ys f1 owned' in
      (
        (λ lt.
            let (t, s2, copied, left) = fails lt in
            (s2, fork_without_copy al c stack t s1 s2 run copied, left)),
        λ le.
            let (t, s2, frames', copied, left, copy) = succeeds le in
            let k' = start_child c.next_pid (child_of al c.kernel stack t) c.kernel in
            let started = start_child-IsStarted c.kernel c.next_pid t stack ne in
            let c' : ForkState al = record {
              kernel = k';
              next_pid = c.next_pid + 1;
              free = s2;
              frames = frames';
            } in
            let code = (kernel_fork_resumed-branches c.next_pid k').0 started.0 in
            let later =
              (kernel_fork_resumed-branches c.next_pid
                  (record k' { current_proc = c.kernel.current_proc })).1
                ne in
            (
              c',
              fork_copied al c stack t s1 s2 frames' run copied ∙ ap (λ rc. some (rc, c')) code,
              (t, stack, started, first, second, copy, left, refl, later),
            ),
      ),
)
