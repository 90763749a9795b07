-- ===== src/KernelHeap/Grow.antt =====
-- What SetKernelBrk does to the frames when the kernel's heap grows and shrinks.
use theynix.Base.{
  ℕ, zero, suc, ◌+◌, ◌-◌, ◌*◌, ◌/◌, ◌≤◌, ◌<◌, ◌≡◌, ◌∙◌, ◌⊎◌, inl, inr, refl, true, false, some,
  List, [], ◌∷◌, ℤ, arith, length, take, drop, update, min,
}
use theynix.VMem.Allocator.{FrameAllocator}
use theynix.VMem.Map.{MapsAs}
use theynix.PMem.{error, success}
use theynix.KernelHeap.{Heap, grow_heap, kernel_brk_page_of, map_new_region_0_page, set_kernel_brk}
use theynix.VMem.{PageTable}

-- The table differs at no page but these.
abbrev pub SameOutsidePages : (t t' : PageTable) (page n : ℕ) → Type 0
SameOutsidePages t t' page n = (q : ℕ) → (q < page) ⊎ (page + n ≤ q) → t' q ≡ t q

module _ (al : FrameAllocator) where
  map_step :
      (page x : ℕ) (t : PageTable) (s s' : al.State)
      → page < 128
      → (t page).valid ≡ false
      → al.get_unused (t page) s ≡ (success, record (t page) { pfn = x }, s')
      → map_new_region_0_page al page (t, s)
        ≡ some (success, (update t page (record { valid = true; prot = 3; pfn = x }), s'))
  unfolding map_new_region_0_page
  map_step page x t s s' room blank got = ground arith

  map_refused :
      (page : ℕ) (t : PageTable) (s : al.State)
      → page < 128
      → (t page).valid ≡ false
      → al.get_unused (t page) s ≡ (error, t page, s)
      → map_new_region_0_page al page (t, s) ≡ some (error, (update t page (t page), s))
  unfolding map_new_region_0_page
  map_refused page t s room blank got = ground arith

  -- What the loop leaves when `frames` are free at its start.
  abbrev Grown :
      (page rounds : ℕ) (t : PageTable) (frames : List ℕ) (rc : ℤ) (t' : PageTable) (s' : al.State)
      → Type 0
  Grown page rounds t frames rc t' s' =
      SameOutsidePages t t' page rounds
      × ((rounds ≤ length frames)
            × (rc ≡ success)
            × al.Frees s' (drop rounds frames)
            × MapsAs t' 3 page (take rounds frames)
          ⊎ (length frames < rounds) × (rc ≡ error) × al.Frees s' [] × MapsAs t' 3 page frames)

  grow_heap-Grown :
      (page rounds : ℕ) (t : PageTable) (s : al.State) (frames : List ℕ)
      → page + rounds ≤ 126
      → ((q : ℕ) → page ≤ q → q < page + rounds → (t q).valid ≡ false)
      → al.Frees s frames
      → (rc : ℤ) × (t' : PageTable) × (s' : al.State) × (grow_heap al page rounds (t, s)
          ≡ some (rc, (t', s')))
        × Grown page rounds t frames rc t' s'
  unfolding grow_heap
  grow_heap-Grown page zero t s frames room blank free =
      (success, t, s, refl, ((λ q h. refl), inl (omega arith, refl, free, tt)))
  grow_heap-Grown page (suc rounds) t s [] room blank free =
      let refused =
        map_refused page t s (omega arith) (blank page (omega arith) (omega arith))
          (al.get_unused-nil (t page) s free) in
      (
        error,
        update t page (t page),
        s,
        ground (arith, refused),
        ((λ q h. ground arith), inr (omega arith, refl, free, tt)),
      )
  grow_heap-Grown page (suc rounds) t s (x ∷ frames) room blank free =
      let (s1, got, free1) = al.get_unused-cons (t page) s x frames free in
      let t1 = update t page (record { valid = true; prot = 3; pfn = x }) in
      let step =
        map_step page x t s s1 (omega arith) (blank page (omega arith) (omega arith)) got in
      let (rc, t', s', run, (same, result)) =
        grow_heap-Grown (page + 1) rounds t1 s1 frames (omega arith)
          (λ q lo hi. ground (arith, blank q)) free1 in
      let first : t' page ≡ record { valid = true; prot = 3; pfn = x } =
        same page (inl (omega arith)) ∙ ground arith in
      (
        rc,
        t',
        s',
        ground (arith, step, run),
        (
          (λ q h. ground (arith, same q)),
          elim result [
            | inl (le, ok, left, maps) ↦ inl (omega arith, ok, left, (first, maps))
            | inr (lt, bad, left, maps) ↦ inr (omega arith, bad, left, (first, maps))
          ],
        ),
      )

-- The break page is the address rounded up to a page.
pub kernel_brk_page_of-rounds :
    (addr : ℕ) → 0 < addr → addr ≤ 0x100000 → kernel_brk_page_of addr ≡ (addr + 8191) / 8192
unfolding kernel_brk_page_of
kernel_brk_page_of-rounds addr lo hi = omega arith

set_kernel_brk-result :
    (al : FrameAllocator) (addr new n : ℕ) (h : Heap) (s : al.State)
    → (rc : ℤ) (t' : PageTable) (s' : al.State) → kernel_brk_page_of addr ≡ new
    → addr ≤ 126 * 8192
    → h.virtual_memory_enabled ≡ true
    → h.kernel_brk_page < new
    → min new 126 - h.kernel_brk_page ≡ n
    → grow_heap al h.kernel_brk_page n (h.region_0_page_table, s) ≡ some (rc, (t', s'))
    → (rc ≡ success
        → set_kernel_brk al addr h s
          ≡ some (success, record h { region_0_page_table = t'; kernel_brk_page = new }, s'))
      × (rc ≡ error
          → set_kernel_brk al addr h s ≡ some (error, record h { region_0_page_table = t' }, s'))
unfolding set_kernel_brk
set_kernel_brk-result al addr new n h s rc t' s' e hi on up least run =
    (λ ok. ground arith, λ bad. ground arith)

-- With virtual memory on, raising the kernel's break to an address up to the kernel stack, over pages
-- that are not mapped, maps the new pages in order to the first free frames if there are as many,
-- and then moves the break. With fewer free frames it returns ERROR and leaves the break, but it has
-- taken every free frame, and the pages that it mapped stay mapped. No other page changes.
pub set_kernel_brk-grow :
    (al : FrameAllocator) (addr : ℕ) (h : Heap) (s : al.State) (frames : List ℕ)
    → h.virtual_memory_enabled ≡ true
    → 0 < addr
    → addr ≤ 126 * 8192
    → h.kernel_brk_page < (addr + 8191) / 8192
    → ((q : ℕ)
        → h.kernel_brk_page ≤ q
        → q < (addr + 8191) / 8192
        → (h.region_0_page_table q).valid ≡ false)
    → al.Frees s frames
    → let n = (addr + 8191) / 8192 - h.kernel_brk_page in
      (rc : ℤ) × (h' : Heap) × (s' : al.State) × (set_kernel_brk al addr h s ≡ some (rc, h', s'))
      × SameOutsidePages h.region_0_page_table h'.region_0_page_table h.kernel_brk_page n
      × ((n ≤ length frames)
            × (rc ≡ success)
            × (h'.kernel_brk_page ≡ (addr + 8191) / 8192)
            × al.Frees s' (drop n frames)
            × MapsAs h'.region_0_page_table 3 h.kernel_brk_page (take n frames)
          ⊎ (length frames < n)
            × (rc ≡ error)
            × (h'.kernel_brk_page ≡ h.kernel_brk_page)
            × al.Frees s' []
            × MapsAs h'.region_0_page_table 3 h.kernel_brk_page frames)
unfolding set_kernel_brk
set_kernel_brk-grow al addr h s frames on lo hi up blank free =
    let t = h.region_0_page_table in
    let old = h.kernel_brk_page in
    let rounds = kernel_brk_page_of-rounds addr lo (omega arith) in
    let n = (addr + 8191) / 8192 - old in
    let (rc, t', s', run, (same, result)) =
      grow_heap-Grown al old n t s frames (omega arith) (λ q a b. blank q a (omega arith)) free in
    let least : min ((addr + 8191) / 8192) 126 - old ≡ n = omega arith in
    elim result [
      | inl (le, ok, left, maps) ↦ (
        success,
        record h { region_0_page_table = t'; kernel_brk_page = (addr + 8191) / 8192 },
        s',
        (set_kernel_brk-result al addr _ n h s rc t' s' rounds hi on up least run).0 ok,
        same,
        inl (le, refl, refl, left, maps),
      )
      | inr (lt, bad, left, maps) ↦ (
        error,
        record h { region_0_page_table = t' },
        s',
        (set_kernel_brk-result al addr _ n h s rc t' s' rounds hi on up least run).1 bad,
        same,
        inr (lt, refl, refl, left, maps),
      )
    ]
