-- ===== src/AddressSpace/Brk.antt =====
-- KernelBrk: the heap grows, shrinks or stays, and never meets the stack.
use theynix.Base.{
  ℕ, ◌+◌, ◌-◌, ◌/◌, ◌^◌, ◌≤◌, ◌<◌, ◌≡◌, ◌∙◌, ◌⊎◌, inl, inr, refl, some, List, ◌++◌, ℤ, arith,
  if◌then◌else◌, length, take, drop, AllBelow, IsDistinct, eqb_ℤ,
}
use theynix.PMem.{success, error, prot_read_write}
use theynix.VMem.{PageTable, map_new_region_1_pages, unmap_region_1_pages}
use theynix.VMem.Allocator.{FrameAllocator}
use theynix.VMem.Map.{MapsAs, map_new_region_1_pages-all_or_none}
use theynix.VMem.Unmap.{Maps, Unmaps, unmap-append}
use theynix.AddressSpace.{Space, kernel_brk, brk_page_of}
use theynix.AddressSpace.Layout.{IsLaidOut}

brk_page_of-up :
    (addr : ℕ) → 0xFE000 < addr → addr ≤ 0x200000 → brk_page_of addr ≡ (addr + 8191) / 8192 - 128
unfolding brk_page_of
brk_page_of-up addr lo h = omega arith

brk_page_of-low : (addr : ℕ) → addr ≤ 0xFE000 → 128 ≤ brk_page_of addr
unfolding brk_page_of
brk_page_of-low addr h = omega arith

module _ (al : FrameAllocator) (addr : ℕ) (sp : Space) (s : al.State) where
  grow-eq :
      (rc : ℤ) (t' : PageTable) (s' : al.State)
      → sp.user_brk_page < brk_page_of addr
      → brk_page_of addr < sp.lowest_user_stack_page
      → map_new_region_1_pages al sp.user_brk_page
          (brk_page_of addr - sp.user_brk_page)
          3
          (sp.region_1_page_table, s)
        ≡ some (rc, (t', s'))
      → kernel_brk al addr sp s
        ≡ some (
            if eqb_ℤ rc error then (error, record sp { region_1_page_table = t' }, s') else (
              success,
              record sp { region_1_page_table = t'; user_brk_page = brk_page_of addr },
              s',
            ))
  unfolding kernel_brk
  grow-eq rc t' s' lo hi e = ground arith

  -- When the new break is above the old one and below the stack: with enough free frames KernelBrk
  -- succeeds, and maps the new heap pages readable and writable to the first free frames; with too
  -- few it returns ERROR, and the break, the queue of free frames and every valid bit are what they
  -- were. Either way an unmapped gap is left below the stack, which does not move.
  pub kernel_brk-grow :
      (xs : List ℕ)
      → IsLaidOut sp
      → al.Frees s xs
      → sp.user_brk_page < brk_page_of addr
      → brk_page_of addr < sp.lowest_user_stack_page
      → let new = brk_page_of addr in
        let old = sp.user_brk_page in
        (rc : ℤ) × (sp' : Space) × (s' : al.State) × (kernel_brk al addr sp s ≡ some (rc, sp', s'))
        × IsLaidOut sp'
        × (sp'.lowest_user_stack_page ≡ sp.lowest_user_stack_page)
        × ((new - old ≤ length xs)
              × (rc ≡ success)
              × (sp'.user_brk_page ≡ new)
              × al.Frees s' (drop (new - old) xs)
              × MapsAs sp'.region_1_page_table prot_read_write old (take (new - old) xs)
            ⊎ (length xs < new - old)
              × (rc ≡ error)
              × (sp'.user_brk_page ≡ old)
              × al.Frees s' xs
              × ((q : ℕ) → (sp'.region_1_page_table q).valid ≡ (sp.region_1_page_table q).valid))
  kernel_brk-grow xs laid f lo hi =
      let new = brk_page_of addr in
      let old = sp.user_brk_page in
      let (rc, t', s', e, same, cases) =
        map_new_region_1_pages-all_or_none al old (new - old) 3 sp.region_1_page_table s xs
          (omega (arith, laid.fits), λ q a b. laid.blank q a (omega arith)) f in
      elim cases [
        | inl (enough, ok, free, maps) ↦ (
          success,
          record sp { region_1_page_table = t'; user_brk_page = new },
          s',
          grow-eq rc t' s' lo hi e ∙ rw ok,
          record {
            gap = hi;
            fits = laid.fits;
            blank = λ q a b. ground (arith, same q, laid.blank q);
          },
          refl,
          inl (enough, refl, refl, free, maps),
        )
        | inr (short, fails, free, valid) ↦ (
          error,
          record sp { region_1_page_table = t' },
          s',
          grow-eq rc t' s' lo hi e ∙ rw fails,
          record { gap = laid.gap; fits = laid.fits; blank = λ q a b. valid q ∙ laid.blank q a b },
          refl,
          inr (short, refl, refl, free, valid),
        )
      ]

  shrink-eq :
      (n : ℕ) (t' : PageTable) (s' : al.State)
      → brk_page_of addr < sp.user_brk_page
      → brk_page_of addr < sp.lowest_user_stack_page
      → n ≡ sp.user_brk_page - brk_page_of addr
      → unmap_region_1_pages al (brk_page_of addr) n (sp.region_1_page_table, s) ≡ some (t', s')
      → kernel_brk al addr sp s
        ≡ some
            (success, record sp { region_1_page_table = t'; user_brk_page = brk_page_of addr }, s')
  unfolding kernel_brk
  shrink-eq n t' s' lo hi len e = ground arith

  -- When the new break is below the old one and the pages between map the frames `ys`, none of
  -- them free already, KernelBrk succeeds: these pages and no others lose their valid bits, the
  -- frames go to the end of the queue of free frames, and the layout stays in order.
  pub kernel_brk-shrink :
      (xs ys : List ℕ)
      → IsLaidOut sp
      → al.Frees s xs
      → brk_page_of addr < sp.user_brk_page
      → length ys ≡ sp.user_brk_page - brk_page_of addr
      → Maps sp.region_1_page_table (brk_page_of addr) ys
      → IsDistinct (xs ++ ys)
      → AllBelow (2 ^ 24) (xs ++ ys)
      → (sp' : Space) × (s' : al.State) × (kernel_brk al addr sp s ≡ some (success, sp', s'))
        × IsLaidOut sp'
        × (sp'.user_brk_page ≡ brk_page_of addr)
        × al.Frees s' (xs ++ ys)
        × Unmaps sp.region_1_page_table (brk_page_of addr) (length ys) sp'.region_1_page_table
  kernel_brk-shrink xs ys laid f lo len maps d b =
      let new = brk_page_of addr in
      let (t', s', e, free, same) =
        unmap-append al new sp.region_1_page_table s xs ys (omega (arith, laid.fits, laid.gap)) maps
          d b f in
      (
        record sp { region_1_page_table = t'; user_brk_page = new },
        s',
        shrink-eq (length ys) t' s' lo (omega (arith, laid.gap)) len e,
        record {
          gap = omega (arith, laid.gap);
          fits = laid.fits;
          blank = λ q a c. ground (arith, same q, laid.blank q);
        },
        refl,
        free,
        same,
      )

  -- A break that would leave no unmapped page below the stack is refused, and nothing changes; the
  -- present break is accepted, and nothing changes.
  pub kernel_brk-same :
      (sp.lowest_user_stack_page ≤ brk_page_of addr → kernel_brk al addr sp s ≡ some (error, sp, s))
      × (brk_page_of addr < sp.lowest_user_stack_page
          → brk_page_of addr ≡ sp.user_brk_page
          → kernel_brk al addr sp s ≡ some (success, sp, s))
  unfolding kernel_brk
  kernel_brk-same = (λ h. ground arith, λ h e. ground arith)

-- For an address in the user region or the last page below it, the new break is the number of
-- pages of region 1 that hold an address below it. For any lower address, 0 included, the
-- subtraction wraps to a page number that no stack page exceeds: KernelBrk returns ERROR and changes
-- nothing.
pub kernel_brk-rounds :
    (al : FrameAllocator) (addr : ℕ) (sp : Space) (s : al.State)
    → addr ≤ 0x200000
    → sp.lowest_user_stack_page ≤ 128
    → (0xFE000 < addr → brk_page_of addr ≡ (addr + 8191) / 8192 - 128)
      × (addr ≤ 0xFE000 → kernel_brk al addr sp s ≡ some (error, sp, s))
kernel_brk-rounds al addr sp s h below = (
  (λ lo. brk_page_of-up addr lo h),
  λ hi. (kernel_brk-same al addr sp s).0 (omega (arith, brk_page_of-low addr hi)),
)
