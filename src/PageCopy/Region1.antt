-- ===== src/PageCopy/Region1.antt =====
-- The whole copy of a region's pages: the last page through page 0, then the others.
use theynix.Base.{
  ℕ, zero, suc, ◌+◌, ◌<◌, ◌≡◌, inl, inr, refl, ap, Bool, true, false, ◌||◌, some, arith, Bool-cases,
}
use theynix.VMem.{PageTable}
use theynix.PageCopy.{copy_down, copy_last, copy_page_data, copy_region_1_data, set_and_flush, Mmu}
use theynix.PageCopy.Bytes.{copy_page_data-PageCopied}
use theynix.PageCopy.Down.{
  SameOutside, AllCopied, IsApart, IsApart-less, StillSource, is_copied, copy_down-AllCopied,
  AllCopied-suc, AllCopied-skip,
}
use theynix.PMem.{Pte}

last_copies :
    (always : Bool) (base : ℕ) (source dest : PageTable) (i : ℕ) (u : Mmu) (frames : ℕ → ℕ → ℕ)
    → (always || (u.table (base + i)).valid) ≡ true
    → copy_page_data (base + i) base (set_and_flush base (dest i) u)
      ≡ some (record (set_and_flush base (dest i) u) { frames = frames })
    → copy_last always base source dest i u
      ≡ some (
          set_and_flush base
            (source 0)
            (record (set_and_flush base (dest i) u) { frames = frames }))
unfolding copy_last
last_copies always base source dest i u frames c run = rw c (rw run refl)

last_skips :
    (always : Bool) (base : ℕ) (source dest : PageTable) (i : ℕ) (u : Mmu)
    → (always || (u.table (base + i)).valid) ≡ false
    → copy_last always base source dest i u ≡ some (set_and_flush base (source 0) u)
unfolding copy_last
last_skips always base source dest i u c = rw c refl

-- Page 0 is mapped back to what it was.
StillSource-back :
    (base i : ℕ) (source : PageTable) (u : Mmu)
    → StillSource base source (suc i) u
    → StillSource base source (suc i) (set_and_flush base (source 0) u)
StillSource-back base i source u still zero h = (ground arith, ground arith)
StillSource-back base i source u still (suc j) h =
    let (t, s) = still (suc j) h in (ground arith, ground arith)

StillSource-through :
    (base i : ℕ) (source : PageTable) (e : Pte) (frames : ℕ → ℕ → ℕ) (u : Mmu)
    → StillSource base source (suc i) u
    → StillSource base source
        (suc i)
        (set_and_flush base (source 0) (record (set_and_flush base e u) { frames = frames }))
StillSource-through base i source e frames u still zero h = (ground arith, ground arith)
StillSource-through base i source e frames u still (suc j) h =
    let (t, s) = still (suc j) h in (ground arith, ground arith)

-- More than one page of a region is copied, each to its own new frame.
pub copy_last-AllCopied :
    (always : Bool) (base : ℕ) (source dest : PageTable) (i : ℕ) (u : Mmu)
    → 0 < i
    → IsApart always source dest (suc i)
    → StillSource base source (suc i) u
    → (u1 : Mmu) × (u' : Mmu) × (copy_last always base source dest i u ≡ some u1)
      × (copy_down always base dest i u1 ≡ some u')
      × AllCopied always source dest (suc i) u.frames u'.frames
      × SameOutside base i u.table u'.table
copy_last-AllCopied always base source dest i u more a still =
    let a' = IsApart-less always source dest (suc i) i (omega arith) a in
    let (at, seen) = still i (omega arith) in
    elim (Bool-cases (is_copied always source i)) [
      | inl copies ↦
          let v = set_and_flush base (dest i) u in
          let seen1 : v.loaded (base + i) ≡ source i = ground arith in
          let mapped : v.loaded base ≡ dest i = ground arith in
          let (frames1, run1, copied) =
            copy_page_data-PageCopied (base + i) base (source i).pfn (dest i).pfn v
              (rw seen1 (a.reads i (omega arith) copies))
              (rw mapped (a.writes i (omega arith) copies)) (ap (λ e. e.pfn) seen1)
              (ap (λ e. e.pfn) mapped) (a.apart i i (omega arith) (omega arith) copies copies) in
          let u1 = set_and_flush base (source 0) (record v { frames = frames1 }) in
          let still1 = StillSource-through base i source (dest i) frames1 u still in
          let (u', run, held, same) =
            copy_down-AllCopied always base source dest i u1 a' (λ j h. still1 j (omega arith)) in
          (
            u1,
            u',
            last_copies always base source dest i u frames1 (rw at copies) run1,
            run,
            AllCopied-suc always source dest i u.frames frames1 u'.frames copies a copied held,
            λ q out. ground (arith, same q),
          )
      | inr skips ↦
          let u1 = set_and_flush base (source 0) u in
          let still1 = StillSource-back base i source u still in
          let (u', run, held, same) =
            copy_down-AllCopied always base source dest i u1 a' (λ j h. still1 j (omega arith)) in
          (
            u1,
            u',
            last_skips always base source dest i u (rw at skips),
            run,
            AllCopied-skip always source dest i u.frames u'.frames skips held,
            λ q out. ground (arith, same q),
          )
    ]

region_1_runs :
    (source dest : PageTable) (u u1 u' : Mmu)
    → copy_last false 0 source dest 127 (record u { table = source; loaded = source }) ≡ some u1
    → copy_down false 0 dest 127 u1 ≡ some u'
    → copy_region_1_data source dest u
      ≡ some (record { table = source; loaded = source; frames = u'.frames })
unfolding copy_region_1_data
region_1_runs source dest u u1 u' run1 run2 = rw (copy_region_1_data, run1) (rw run2 refl)

-- The data of region 1 is copied: the new frame of every valid page has the bytes of the page, every
-- other frame is as it was, and the hardware is back at the tables of the source. It is assumed that
-- the valid pages can be read, and that those of the copy can be written and have frames of their
-- own.
pub copy_region_1_data-AllCopied :
    (source dest : PageTable) (u : Mmu)
    → IsApart false source dest 128
    → (frames : ℕ → ℕ → ℕ) × (copy_region_1_data source dest u
        ≡ some (record { table = source; loaded = source; frames = frames }))
      × AllCopied false source dest 128 u.frames frames
copy_region_1_data-AllCopied source dest u a =
    let u0 = record u { table = source; loaded = source } in
    let (u1, u', run1, run2, held, same) =
      copy_last-AllCopied false 0 source dest 127 u0 (omega arith) a
        (λ i h. (ap source (omega arith), ap source (omega arith))) in
    (u'.frames, region_1_runs source dest u u1 u' run1 run2, held)
