-- ===== src/VMem/Free.antt =====
-- FreeRegion1PageTable and FreeRegion0StackPages give back every frame of a table, once.
use theynix.Base.{
  ℕ, zero, suc, ◌+◌, ◌^◌, ◌<◌, ◌≡◌, ◌∙◌, sym, refl, true, false, List, [], ◌∷◌, ◌++◌, ◌&&◌, inl,
  inr, Bool-cases, IsDistinct, AllBelow, IsDistinct-front, AllBelow-front, append_assoc, append-nil,
  leb, ltb, update, arith, if◌then◌else◌,
}
use theynix.PMem.{Pte}
use theynix.VMem.{free_region_1_page_table, free_region_0_stack_pages, PageTable, free_valid_pages}
use theynix.VMem.Allocator.{FrameAllocator}
use theynix.VMem.Unmap.{IsDistinct-middle, AllBelow-middle}

-- The frames of the valid pages among `n` pages from `p` on, in page order.
unfoldable pub frames_of : PageTable → ℕ → ℕ → List ℕ
frames_of t p zero = []
frames_of t p (suc n) =
    let rest = frames_of t (p + 1) n in if (t p).valid then (t p).pfn ∷ rest else rest

-- Entries below `p` do not matter.
frames_of-update :
    (t : PageTable) (k p n : ℕ) (e : Pte) → k < p → frames_of (update t k e) p n ≡ frames_of t p n
unfolding frames_of
frames_of-update t k p zero e h = refl
frames_of-update t k p (suc n) e h = ground (arith, frames_of-update t k (p + 1) n e)

-- The entries of `n` pages from `p` on have lost their valid bits, and nothing else has changed.
abbrev pub Cleared : PageTable → ℕ → ℕ → PageTable → Type 0
Cleared t p n t' =
    (q : ℕ) → t' q ≡ (if leb p q && ltb q (p + n) then record (t q) { valid = false } else t q)

module _ (al : FrameAllocator) where
  free-blank :
      (p n : ℕ) (t : PageTable) (s : al.State)
      → (t p).valid ≡ false
      → free_valid_pages al p (suc n) (t, s) ≡ free_valid_pages al (p + 1) n (t, s)
  unfolding free_valid_pages
  free-blank p n t s v = rw v

  free-valid :
      (p n : ℕ) (t : PageTable) (s : al.State)
      → (t p).valid ≡ true
      → free_valid_pages al p (suc n) (t, s)
        ≡ free_valid_pages al
            (p + 1)
            n
            (update t p (record (t p) { valid = false }), al.release_used (t p).pfn s)
  unfolding free_valid_pages
  free-valid p n t s v = ground arith

  frames-blank :
      (p n : ℕ) (t : PageTable)
      → (t p).valid ≡ false
      → frames_of t p (suc n) ≡ frames_of t (p + 1) n
  unfolding frames_of
  frames-blank p n t v = ground arith

  frames-valid :
      (p n : ℕ) (t : PageTable)
      → (t p).valid ≡ true
      → frames_of t p (suc n) ≡ (t p).pfn ∷ frames_of t (p + 1) n
  unfolding frames_of
  frames-valid p n t v = ground arith

  pub free_valid_pages-append :
      (p n : ℕ) (t : PageTable) (s : al.State) (xs ys : List ℕ)
      → frames_of t p n ≡ ys
      → IsDistinct (xs ++ ys)
      → AllBelow (2 ^ 24) (xs ++ ys)
      → al.Frees s xs
      → (t' : PageTable) × (s' : al.State) × (free_valid_pages al p n (t, s) ≡ (t', s'))
        × al.Frees s' (xs ++ ys)
        × Cleared t p n t'
  unfolding free_valid_pages frames_of
  free_valid_pages-append p zero t s xs ys e d b f =
      (t, s, refl, rw (← e, append-nil xs) f, λ q. ground arith)
  free_valid_pages-append p (suc n) t s xs ys e d b f = elim (Bool-cases (t p).valid) [
    | inl valid ↦
        let y = (t p).pfn in
        let zs = frames_of t (p + 1) n in
        let t1 = update t p (record (t p) { valid = false }) in
        let cut : y ∷ zs ≡ ys = sym (frames-valid p n t valid) ∙ e in
        let d1 : IsDistinct (xs ++ (y ∷ zs)) = rw cut d in
        let b1 : AllBelow (2 ^ 24) (xs ++ (y ∷ zs)) = rw cut b in
        let f1 =
          al.release_used-append s y xs (AllBelow-middle (2 ^ 24) xs zs y b1)
            (IsDistinct-middle xs zs y d1) f in
        let (t', s', run, free, cleared) =
          free_valid_pages-append (p + 1) n t1 (al.release_used y s) (xs ++ (y ∷ [])) zs
            (frames_of-update t p (p + 1) n _ (omega arith)) (rw (append_assoc xs (y ∷ []) zs) d1)
            (rw (append_assoc xs (y ∷ []) zs) b1) f1 in
        (
          t',
          s',
          free-valid p n t s valid ∙ run,
          rw (← cut) (rw (append_assoc xs (y ∷ []) zs) at free),
          λ q. ground (arith, cleared q),
        )
    | inr blank ↦
        let (t', s', run, free, cleared) =
          free_valid_pages-append (p + 1) n t s xs ys (sym (frames-blank p n t blank) ∙ e) d b f in
        (t', s', free-blank p n t s blank ∙ run, free, λ q. ground (arith, cleared q))
  ]

pub free_region_1_page_table-append :
    (al : FrameAllocator) (t : PageTable) (s : al.State) (xs : List ℕ)
    → IsDistinct (xs ++ frames_of t 0 128)
    → AllBelow (2 ^ 24) (xs ++ frames_of t 0 128)
    → al.Frees s xs
    → (t' : PageTable) × (s' : al.State) × (free_region_1_page_table al (t, s) ≡ (t', s'))
      × al.Frees s' (xs ++ frames_of t 0 128)
      × Cleared t 0 128 t'
unfolding free_region_1_page_table
free_region_1_page_table-append al t s xs d b f =
    free_valid_pages-append al 0 128 t s xs (frames_of t 0 128) refl d b f

-- Freeing the region 1 table and then the kernel stack table of a process, as KernelExit does, puts
-- the frames of all their valid pages, each once, at the end of the queue of free frames, leaves
-- no page of either table valid, and changes no other field of an entry. It is assumed that these
-- frames fit a `pfn`, and that no two of the pages share a frame or have one that is free already.
pub free_tables-append :
    (al : FrameAllocator) (t k : PageTable) (s : al.State) (xs : List ℕ)
    → IsDistinct ((xs ++ frames_of t 0 128) ++ frames_of k 0 2)
    → AllBelow (2 ^ 24) ((xs ++ frames_of t 0 128) ++ frames_of k 0 2)
    → al.Frees s xs
    → let (t', s') = free_region_1_page_table al (t, s) in
      let (k', s'') = free_region_0_stack_pages al (k, s') in
      al.Frees s'' ((xs ++ frames_of t 0 128) ++ frames_of k 0 2)
      × Cleared t 0 128 t'
      × Cleared k 0 2 k'
unfolding free_region_1_page_table free_region_0_stack_pages
free_tables-append al t k s xs d b f =
    let (t', s', run, free, cleared) =
      free_valid_pages-append al 0 128 t s xs _ refl (IsDistinct-front _ _ d)
        (AllBelow-front (2 ^ 24) _ _ b) f in
    let (k', s'', run', free', cleared') = free_valid_pages-append al 0 2 k s' _ _ refl d b free in
    rw (run, run') (free', cleared, cleared')
