-- ===== src/Fork/Stack.antt =====
-- The kernel stack of a new process: two frames, or none.
use theynix.Base.{
  ℕ, suc, ◌+◌, ◌<◌, ◌≡◌, ◌∙◌, refl, true, false, none, some, List, [], ◌∷◌, arith, length, update,
}
use theynix.PMem.{error, success, Pte}
use theynix.VMem.{invalid_pte, PageTable}
use theynix.VMem.Allocator.{FrameAllocator}
use theynix.Fork.{
  new_blank_pcb, new_blank_pcb_with_page_tables, new_stack_pages, release_stack_pages,
}

abbrev pub stack_pte : ℕ → Pte
stack_pte f = record { valid = true; prot = 3; pfn = f }

module _ (al : FrameAllocator) where
  stack_gets :
      (p n x : ℕ) (t : PageTable) (s s' : al.State)
      → al.get_unused (t p) s ≡ (success, record (t p) { pfn = x }, s')
      → new_stack_pages al p (suc n) (t, s)
        ≡ new_stack_pages al (p + 1) n (update t p (stack_pte x), s')
  unfolding new_stack_pages
  stack_gets p n x t s s' e = rw e refl

  stack_fails :
      (p n : ℕ) (t t' : PageTable) (s s' : al.State)
      → al.get_unused (t p) s ≡ (error, t p, s)
      → release_stack_pages al 0 p (update t p (t p), s) ≡ (t', s')
      → new_stack_pages al p (suc n) (t, s) ≡ (false, t', s')
  unfolding new_stack_pages
  stack_fails p n t t' s s' e f = rw e (rw f refl)

  -- The new process has the first two free frames as its stack, which can be read and written.
  pub new_blank_pcb_with_page_tables-cons :
      (s : al.State) (x y : ℕ) (xs : List ℕ)
      → al.Frees s (x ∷ y ∷ xs)
      → (t : PageTable) × (s' : al.State) × (new_blank_pcb_with_page_tables al s
          ≡ (some (record new_blank_pcb { kernel_stack_page_table = t }), s'))
        × al.Frees s' xs
        × (t 0 ≡ stack_pte x)
        × (t 1 ≡ stack_pte y)
  unfolding new_blank_pcb_with_page_tables
  new_blank_pcb_with_page_tables-cons s x y xs f =
      let t0 : PageTable = λ page. invalid_pte in
      let (s1, got1, f1) = al.get_unused-cons invalid_pte s x (y ∷ xs) f in
      let t1 = update t0 0 (stack_pte x) in
      let (s2, got2, f2) = al.get_unused-cons invalid_pte s1 y xs f1 in
      let t2 = update t1 1 (stack_pte y) in
      let run : new_stack_pages al 0 2 (t0, s) ≡ (true, t2, s2) =
        stack_gets 0 1 x t0 s s1 got1 ∙ stack_gets 1 0 y t1 s1 s2 got2 ∙ refl in
      (t2, s2, rw run refl, f2, refl, refl)

  -- With fewer than two free frames there is no process, and they are free again.
  pub new_blank_pcb_with_page_tables-short :
      (s : al.State) (xs : List ℕ)
      → length xs < 2
      → al.Frees s xs
      → (s' : al.State) × (new_blank_pcb_with_page_tables al s ≡ (none, s')) × al.Frees s' xs
  unfolding new_blank_pcb_with_page_tables
  new_blank_pcb_with_page_tables-short s [] lt f =
      let t0 : PageTable = λ page. invalid_pte in
      let t0' = update t0 0 (t0 0) in
      let run : new_stack_pages al 0 2 (t0, s) ≡ (false, t0', s) =
        stack_fails 0 1 t0 t0' s s (al.get_unused-nil invalid_pte s f) refl in
      (s, rw run refl, f)
  new_blank_pcb_with_page_tables-short s (x ∷ []) lt f =
      let t0 : PageTable = λ page. invalid_pte in
      let (s1, got1, f1) = al.get_unused-cons invalid_pte s x [] f in
      let t1 = update t0 0 (stack_pte x) in
      let t1' = update t1 1 (t1 1) in
      let t2 = update t1' 0 (record (t1' 0) { valid = false }) in
      let s2 = al.release_used x s1 in
      let run : new_stack_pages al 0 2 (t0, s) ≡ (false, t2, s2) =
        stack_gets 0 1 x t0 s s1 got1
        ∙ stack_fails 1 0 t1 t2 s1 s2 (al.get_unused-nil invalid_pte s1 f1) refl in
      (
        s2,
        rw run refl,
        al.release_used-append s1 x [] (al.Frees-IsDistinct s (x ∷ []) f).1.0 refl f1,
      )
  new_blank_pcb_with_page_tables-short s (x ∷ y ∷ xs) lt f = absurd (omega arith)
