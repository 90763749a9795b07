-- ===== src/PageCopy/Down.antt =====
-- The loop that copies the pages of a region from the last one down.
use theynix.Base.{
  ℕ, zero, suc, ◌+◌, ◌≤◌, ◌<◌, ◌≡◌, ◌≢◌, ◌∙◌, ◌⊎◌, inl, inr, refl, ap, Bool, true, false, ◌||◌,
  ◌==◌, some, arith, Bool-cases,
}
use theynix.PageCopy.{copy_page_data, set_and_flush, copy_down, page_size, readable, writable, Mmu}
use theynix.VMem.{PageTable}
use theynix.PageCopy.Bytes.{copy_page_data-PageCopied, PageCopied}
use theynix.PMem.{Pte}

-- Which of the pages of a table are copied.
abbrev pub is_copied : Bool → PageTable → ℕ → Bool
is_copied always source i = always || (source i).valid

-- Below page `n`: a page that is copied can be read and its copy written, no copy is at a frame
-- of the pages, and no two copies share a frame.
pub record IsApart (always : Bool) (source dest : PageTable) (n : ℕ) : Type 0 where
  pub reads : (i : ℕ) → i < n → is_copied always source i ≡ true → readable (source i) ≡ true
  pub writes : (i : ℕ) → i < n → is_copied always source i ≡ true → writable (dest i) ≡ true
  pub apart :
      (i j : ℕ)
      → i < n
      → j < n
      → is_copied always source i ≡ true
      → is_copied always source j ≡ true
      → (source i).pfn ≢ (dest j).pfn
  pub different :
      (i j : ℕ)
      → i < n
      → j < n
      → is_copied always source i ≡ true
      → is_copied always source j ≡ true
      → (dest i).pfn ≡ (dest j).pfn
      → i ≡ j

-- The frames of the copies below `n` hold the bytes of the pages, and no other frame has changed.
abbrev pub AllCopied :
    (always : Bool) (source dest : PageTable) (n : ℕ) (frames frames' : ℕ → ℕ → ℕ) → Type 0
AllCopied always source dest n frames frames' =
    ((i o : ℕ)
      → i < n
      → is_copied always source i ≡ true
      → o < page_size
      → frames' (dest i).pfn o ≡ frames (source i).pfn o)
    × ((f : ℕ)
        → ((i : ℕ) → i < n → is_copied always source i ≡ true → f ≢ (dest i).pfn)
        → (o : ℕ) → frames' f o ≡ frames f o)

pub IsApart-less :
    (always : Bool) (source dest : PageTable) (n k : ℕ)
    → k ≤ n
    → IsApart always source dest n
    → IsApart always source dest k
IsApart-less always source dest n k le a = record {
  reads = λ i h. a.reads i (omega arith);
  writes = λ i h. a.writes i (omega arith);
  apart = λ i j h g. a.apart i j (omega arith) (omega arith);
  different = λ i j h g. a.different i j (omega arith) (omega arith);
}

-- The pages from `base` on up to the `n`-th are still those of the source.
abbrev pub StillSource : ℕ → PageTable → ℕ → Mmu → Type 0
StillSource base source n u =
    (i : ℕ) → i < n → (u.table (base + i) ≡ source i) × (u.loaded (base + i) ≡ source i)

StillSource-set :
    (base i : ℕ) (source : PageTable) (e : Pte) (u : Mmu)
    → StillSource base source (suc i) u
    → StillSource base source (suc i) (set_and_flush (base + i + 1) e u)
StillSource-set base i source e u still j h = (ground (arith, still j), ground (arith, still j))

-- A page more, copied before those below it.
pub AllCopied-suc :
    (always : Bool) (source dest : PageTable) (i : ℕ) (frames frames1 frames' : ℕ → ℕ → ℕ)
    → is_copied always source i ≡ true
    → IsApart always source dest (suc i)
    → PageCopied (source i).pfn (dest i).pfn frames frames1
    → AllCopied always source dest i frames1 frames'
    → AllCopied always source dest (suc i) frames frames'
AllCopied-suc always source dest i frames frames1 frames' copies a copied (all, other) = (
  (λ j o h c small. elim (Bool-cases (j == i)) [
    | inl last ↦
        let same : j ≡ i = ground arith in
        let kept =
          other (dest i).pfn
            (λ k g d e. ground (arith, a.different i k (omega arith) (omega arith) copies d e)) o in
        rw same (kept ∙ ground (arith, copied (dest i).pfn o))
    | inr below ↦
        let ne = a.apart j i (omega arith) (omega arith) c copies in
        all j o (ground arith) c small ∙ ground (arith, copied (source j).pfn o)
  ]),
  λ f out o.
      other f (λ j h. out j (omega arith)) o
      ∙ ground (arith, copied f o, out i (omega arith) copies),
)

-- A page more that is not copied.
pub AllCopied-skip :
    (always : Bool) (source dest : PageTable) (i : ℕ) (frames frames' : ℕ → ℕ → ℕ)
    → is_copied always source i ≡ false
    → AllCopied always source dest i frames frames'
    → AllCopied always source dest (suc i) frames frames'
AllCopied-skip always source dest i frames frames' skips (all, other) = (
  (λ j o h c small. all j o (ground arith) c small),
  λ f out o. other f (λ j h. out j (omega arith)) o,
)

-- A round of the loop.
round_copies :
    (always : Bool) (base : ℕ) (dest : PageTable) (i : ℕ) (u u2 : Mmu)
    → (always || (u.table (base + i)).valid) ≡ true
    → copy_page_data (base + i) (base + i + 1) (set_and_flush (base + i + 1) (dest i) u) ≡ some u2
    → copy_down always base dest (suc i) u ≡ copy_down always base dest i u2
unfolding copy_down
round_copies always base dest i u u2 c run = rw c (rw run refl)

round_skips :
    (always : Bool) (base : ℕ) (dest : PageTable) (i : ℕ) (u : Mmu)
    → (always || (u.table (base + i)).valid) ≡ false
    → copy_down always base dest (suc i) u ≡ copy_down always base dest i u
unfolding copy_down
round_skips always base dest i u c = rw c refl

-- The table has changed at no page but those from `base` to `base + n`.
abbrev pub SameOutside : (base n : ℕ) (t t' : PageTable) → Type 0
SameOutside base n t t' = (q : ℕ) → (q < base) ⊎ (base + n < q) → t' q ≡ t q

pub copy_down-AllCopied :
    (always : Bool) (base : ℕ) (source dest : PageTable) (n : ℕ) (u : Mmu)
    → IsApart always source dest n
    → StillSource base source n u
    → (u' : Mmu) × (copy_down always base dest n u ≡ some u')
      × AllCopied always source dest n u.frames u'.frames
      × SameOutside base n u.table u'.table
unfolding copy_down
copy_down-AllCopied always base source dest zero u apart still =
    (u, refl, ((λ i o h. absurd (omega arith)), λ f _ o. refl), λ q out. refl)
copy_down-AllCopied always base source dest (suc i) u a still =
    let a' = IsApart-less always source dest (suc i) i (omega arith) a in
    let (at, seen) = still i (omega arith) in
    elim (Bool-cases (is_copied always source i)) [
      | inl copies ↦
          let u1 = set_and_flush (base + i + 1) (dest i) u in
          let still1 = StillSource-set base i source (dest i) u still in
          let seen1 = (still1 i (omega arith)).1 in
          let mapped : u1.loaded (base + i + 1) ≡ dest i = ground arith in
          let (frames1, run1, copied) =
            copy_page_data-PageCopied (base + i) (base + i + 1) (source i).pfn (dest i).pfn u1
              (rw seen1 (a.reads i (omega arith) copies))
              (rw mapped (a.writes i (omega arith) copies)) (ap (λ e. e.pfn) seen1)
              (ap (λ e. e.pfn) mapped) (a.apart i i (omega arith) (omega arith) copies copies) in
          let (u', run, held, same) =
            copy_down-AllCopied always base source dest i (record u1 { frames = frames1 }) a'
              (λ j h. still1 j (omega arith)) in
          (
            u',
            round_copies always base dest i u (record u1 { frames = frames1 }) (rw at copies) run1
                ∙ run,
            AllCopied-suc always source dest i u.frames frames1 u'.frames copies a copied held,
            λ q out. ground (arith, same q),
          )
      | inr skips ↦
          let (u', run, held, same) =
            copy_down-AllCopied always base source dest i u a' (λ j h. still j (omega arith)) in
          (
            u',
            round_skips always base dest i u (rw at skips) ∙ run,
            AllCopied-skip always source dest i u.frames u'.frames skips held,
            λ q out. ground (arith, same q),
          )
    ]
