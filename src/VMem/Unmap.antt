-- ===== src/VMem/Unmap.antt =====
-- UnmapRegion1Pages gives back the frames of the pages, in page order.
use theynix.Base.{
  ℕ, suc, ◌+◌, ◌^◌, ◌<◌, ◌≤◌, ◌≡◌, ◌∙◌, refl, true, false, some, List, [], ◌∷◌, ◌++◌, ◌&&◌, has,
  has-append, IsDistinct, AllBelow, append_assoc, append-nil, length, leb, ltb, update, arith,
  if◌then◌else◌,
}
use theynix.PMem.{Pte}
use theynix.VMem.{PageTable, unmap_region_1_pages, num_pages_reg_1}
use theynix.VMem.Allocator.{FrameAllocator}

-- From page `p` on the table maps the frames `ys`, a page each.
abbrev pub Maps : PageTable → ℕ → List ℕ → Type 0
Maps t p [] = Unit
Maps t p (y ∷ ys) = ((t p).valid ≡ true) × ((t p).pfn ≡ y) × Maps t (p + 1) ys

-- The table with `n` pages from `p` on invalid, and otherwise as it was.
abbrev pub Unmaps : PageTable → ℕ → ℕ → PageTable → Type 0
Unmaps t p n t' =
    (q : ℕ) → t' q ≡ (if leb p q && ltb q (p + n) then record (t q) { valid = false } else t q)

pub Maps-update :
    (t : PageTable) (k p : ℕ) (e : Pte) (ys : List ℕ)
    → k < p
    → Maps t p ys
    → Maps (update t k e) p ys
Maps-update t k p e [] h m = tt
Maps-update t k p e (y ∷ ys) h m =
    (ground arith, ground arith, Maps-update t k (p + 1) e ys (omega arith) m.2)

pub IsDistinct-middle : (xs ys : List ℕ) (y : ℕ) → IsDistinct (xs ++ (y ∷ ys)) → has y xs ≡ false
IsDistinct-middle [] ys y d = refl
IsDistinct-middle (x ∷ xs) ys y d =
    ground (arith, has-append x xs (y ∷ ys), IsDistinct-middle xs ys y d.1)

pub AllBelow-middle : (n : ℕ) (xs ys : List ℕ) (y : ℕ) → AllBelow n (xs ++ (y ∷ ys)) → y < n
AllBelow-middle n [] ys y b = b.0
AllBelow-middle n (x ∷ xs) ys y b = AllBelow-middle n xs ys y b.1

module _ (al : FrameAllocator) where
  unmap-step :
      (p n y : ℕ) (t : PageTable) (s : al.State)
      → p < num_pages_reg_1
      → (t p).valid ≡ true
      → (t p).pfn ≡ y
      → unmap_region_1_pages al p (suc n) (t, s)
        ≡ unmap_region_1_pages al
            (p + 1)
            n
            (update t p (record (t p) { valid = false }), al.release_used y s)
  unfolding unmap_region_1_pages
  unmap-step p n y t s h v e = ground arith

  -- If the pages are mapped, unmapping them passes the asserts, makes just these pages invalid,
  -- and puts their frames at the end of the queue of free frames, in the order of the pages.
  pub unmap-append :
      (p : ℕ) (t : PageTable) (s : al.State) (xs ys : List ℕ)
      → p + length ys ≤ num_pages_reg_1
      → Maps t p ys
      → IsDistinct (xs ++ ys)
      → AllBelow (2 ^ 24) (xs ++ ys)
      → al.Frees s xs
      → (t' : PageTable) × (s' : al.State) × (unmap_region_1_pages al p (length ys) (t, s)
          ≡ some (t', s'))
        × al.Frees s' (xs ++ ys)
        × Unmaps t p (length ys) t'
  unfolding unmap_region_1_pages
  unmap-append p t s xs [] room m d b f = (t, s, refl, rw (append-nil xs) f, λ q. ground arith)
  unmap-append p t s xs (y ∷ ys) room m d b f =
      let t1 = update t p (record (t p) { valid = false }) in
      let f1 =
        al.release_used-append s y xs (AllBelow-middle (2 ^ 24) xs ys y b)
          (IsDistinct-middle xs ys y d) f in
      let (t', s', e, free, same) =
        unmap-append (p + 1) t1 (al.release_used y s) (xs ++ (y ∷ [])) ys (omega arith)
          (Maps-update t p (p + 1) _ ys (omega arith) m.2) (rw (append_assoc xs (y ∷ []) ys) d)
          (rw (append_assoc xs (y ∷ []) ys) b) f1 in
      (
        t',
        s',
        unmap-step p (length ys) y t s (omega arith) m.0 m.1 ∙ e,
        (rw (append_assoc xs (y ∷ []) ys) at free),
        λ q. ground (arith, same q),
      )
