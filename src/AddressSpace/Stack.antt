-- ===== src/AddressSpace/Stack.antt =====
-- TrapMemory: how the user stack grows, and why a process is killed instead.
use theynix.Base.{
  ℕ, zero, suc, ◌-◌, ◌<◌, ◌≤◌, ◌≡◌, ◌∙◌, ◌⊎◌, inl, inr, refl, true, false, some, List, [], ◌∷◌, ℤ,
  ◌&&◌, length, take, drop, leb, ltb, arith, if◌then◌else◌, Bool-cases, eqb_ℤ, update,
}
use theynix.PMem.{success, error, prot_read_write}
use theynix.VMem.{PageTable}
use theynix.VMem.Allocator.{FrameAllocator}
use theynix.AddressSpace.Layout.{IsLaidOut}
use theynix.AddressSpace.{
  Space, grew, killed, bad_permissions, overread, no_free_frames, out_of_range, met_heap,
  unmapped_stack_page, grow_user_stack, trap_memory, addr_to_page, vmem_1_base, vmem_1_limit,
}

-- Below page `above` the table maps the frames `ys` readable and writable, the first on top.
abbrev pub MapsDown : PageTable → ℕ → List ℕ → Type 0
MapsDown t above [] = Unit
MapsDown t above (y ∷ ys) =
    (t (above - 1) ≡ record { valid = true; prot = prot_read_write; pfn = y })
    × MapsDown t (above - 1) ys

module _ (al : FrameAllocator) where
  grow-step :
      (above n x : ℕ) (t : PageTable) (s s' : al.State)
      → (t (above - 1)).valid ≡ false
      → al.get_unused (t (above - 1)) s ≡ (success, record (t (above - 1)) { pfn = x }, s')
      → grow_user_stack al above (suc n) t s
        ≡ grow_user_stack al
            (above - 1)
            n
            (update t (above - 1) (record { valid = true; prot = prot_read_write; pfn = x }))
            s'
  unfolding grow_user_stack
  grow-step above n x t s s' v e = ground arith

  grow-stop :
      (above n : ℕ) (t : PageTable) (s : al.State)
      → al.get_unused (t (above - 1)) s ≡ (error, t (above - 1), s)
      → grow_user_stack al above (suc n) t s ≡ some (error, update t (above - 1) (t (above - 1)), s)
  unfolding grow_user_stack
  grow-stop above n t s e = ground arith

  grow-success :
      (above n : ℕ) (t : PageTable) (s : al.State) (xs : List ℕ)
      → n ≤ above
      → ((q : ℕ) → above - n ≤ q → q < above → (t q).valid ≡ false)
      → n ≤ length xs
      → al.Frees s xs
      → (t' : PageTable) × (s' : al.State) × (grow_user_stack al above n t s
          ≡ some (success, t', s'))
        × al.Frees s' (drop n xs)
        × MapsDown t' above (take n xs)
        × ((q : ℕ) → (leb (above - n) q && ltb q above) ≡ false → t' q ≡ t q)
  unfolding grow_user_stack
  grow-success above zero t s xs room blank enough f = (t, s, refl, f, tt, λ q h. refl)
  grow-success above (suc n) t s [] room blank enough f = absurd (omega arith)
  grow-success above (suc n) t s (x ∷ xs) room blank enough f =
      let p = above - 1 in
      let (s1, got, f1) = al.get_unused-cons (t p) s x xs f in
      let t1 = update t p (record { valid = true; prot = prot_read_write; pfn = x }) in
      let (t', s', e, free, maps, same) =
        grow-success p n t1 s1 xs (omega arith) (λ q a b. ground (arith, blank q)) (omega arith)
          f1 in
      (
        t',
        s',
        grow-step above n x t s s1 (blank p (omega arith) (omega arith)) got ∙ e,
        free,
        (ground (arith, same p), maps),
        λ q h. ground (arith, same q),
      )

  grow-fail :
      (above n : ℕ) (t : PageTable) (s : al.State) (xs : List ℕ)
      → n ≤ above
      → ((q : ℕ) → above - n ≤ q → q < above → (t q).valid ≡ false)
      → length xs < n
      → al.Frees s xs
      → (t' : PageTable) × (s' : al.State) × (grow_user_stack al above n t s ≡ some (error, t', s'))
        × al.Frees s' []
        × MapsDown t' above xs
        × ((q : ℕ) → (leb (above - length xs) q && ltb q above) ≡ false → t' q ≡ t q)
  unfolding grow_user_stack
  grow-fail above zero t s xs room blank short f = absurd (omega arith)
  grow-fail above (suc n) t s [] room blank short f =
      let p = above - 1 in
      (
        update t p (t p),
        s,
        grow-stop above n t s (al.get_unused-nil (t p) s f),
        f,
        tt,
        λ q h. ground arith,
      )
  grow-fail above (suc n) t s (x ∷ xs) room blank short f =
      let p = above - 1 in
      let (s1, got, f1) = al.get_unused-cons (t p) s x xs f in
      let t1 = update t p (record { valid = true; prot = prot_read_write; pfn = x }) in
      let (t', s', e, free, maps, same) =
        grow-fail p n t1 s1 xs (omega arith) (λ q a b. ground (arith, blank q)) (omega arith) f1 in
      (
        t',
        s',
        grow-step above n x t s s1 (blank p (omega arith) (omega arith)) got ∙ e,
        free,
        (ground (arith, same p), maps),
        λ q h. ground (arith, same q),
      )

module _ (al : FrameAllocator) (addr : ℕ) (sp : Space) (s : al.State) where
  -- The page of region 1 that the access hit.
  abbrev hit : ℕ
  hit = addr_to_page (addr - vmem_1_base)

  trap-grows :
      (rc : ℤ) (t' : PageTable) (s' : al.State)
      → IsLaidOut sp
      → vmem_1_base ≤ addr
      → sp.user_brk_page < hit
      → hit < sp.lowest_user_stack_page
      → grow_user_stack al sp.lowest_user_stack_page
          (sp.lowest_user_stack_page - hit)
          sp.region_1_page_table
          s
        ≡ some (rc, t', s')
      → trap_memory al addr sp s
        ≡ some (
            if eqb_ℤ rc error
            then killed no_free_frames (record sp { region_1_page_table = t' }) s'
            else grew (record sp { region_1_page_table = t'; lowest_user_stack_page = hit }) s')
  unfolding trap_memory
  trap-grows rc t' s' laid base above below e = ground (arith, laid.blank hit, laid.fits)

  -- When an access hits a page above the first of the gap and below the stack, every page from there
  -- up to the stack is mapped, readable and writable, to the first free frames, if there are
  -- enough; the stack then begins at the page hit, the gap still separates it from the heap, and
  -- no other entry changes. With too few frames the process is killed: all free frames have been
  -- mapped from the stack down, so that its exit frees them again, and no other entry has changed.
  pub trap_memory-grows :
      (xs : List ℕ)
      → IsLaidOut sp
      → al.Frees s xs
      → vmem_1_base ≤ addr
      → sp.user_brk_page < hit
      → hit < sp.lowest_user_stack_page
      → let t = sp.region_1_page_table in
        let low = sp.lowest_user_stack_page in
        let n = low - hit in
        (sp' : Space) × (s' : al.State) × ((n ≤ length xs)
            × (trap_memory al addr sp s ≡ some (grew sp' s'))
            × IsLaidOut sp'
            × (sp'.lowest_user_stack_page ≡ hit)
            × (sp'.user_brk_page ≡ sp.user_brk_page)
            × al.Frees s' (drop n xs)
            × MapsDown sp'.region_1_page_table low (take n xs)
            × ((q : ℕ) → (leb hit q && ltb q low) ≡ false → sp'.region_1_page_table q ≡ t q)
          ⊎ (length xs < n)
            × (trap_memory al addr sp s ≡ some (killed no_free_frames sp' s'))
            × al.Frees s' []
            × MapsDown sp'.region_1_page_table low xs
            × ((q : ℕ)
                → (leb (low - length xs) q && ltb q low) ≡ false
                → sp'.region_1_page_table q ≡ t q))
  trap_memory-grows xs laid f base above below =
      let t = sp.region_1_page_table in
      let low = sp.lowest_user_stack_page in
      let n = low - hit in
      let back : low - n ≡ hit = omega arith in
      let blank : (q : ℕ) → low - n ≤ q → q < low → (t q).valid ≡ false =
        λ q a b. laid.blank q (omega arith) b in
      elim (Bool-cases (ltb (length xs) n)) [
        | inl short ↦
            let (t', s', e, free, maps, same) =
              grow-fail al low n t s xs (omega arith) blank (ground arith) f in
            (
              record sp { region_1_page_table = t' },
              s',
              inr (ground arith, trap-grows error t' s' laid base above below e, free, maps, same),
            )
        | inr enough ↦
            let (t', s', e, free, maps, same) =
              grow-success al low n t s xs (omega arith) blank (ground arith) f in
            (
              record sp { region_1_page_table = t'; lowest_user_stack_page = hit },
              s',
              inl (
                ground arith,
                trap-grows success t' s' laid base above below e,
                record {
                  gap = above;
                  fits = omega (arith, laid.fits);
                  blank = λ q a b. ground (arith, same q, laid.blank q);
                },
                refl,
                refl,
                free,
                maps,
                λ q h. ground (arith, same q),
              ),
            )
      ]

  -- Any other access kills the process or ends the kernel, and changes nothing: an address outside
  -- region 1 is out of range, but VMEM_1_LIMIT itself makes the kernel read behind the page table;
  -- a mapped page is an access with the wrong permissions; an unmapped page up to the break is a
  -- stack that met the heap; and an unmapped page of the stack is reported as such.
  pub trap_memory-kills :
      ((addr < vmem_1_base) ⊎ (vmem_1_limit < addr)
        → trap_memory al addr sp s ≡ some (killed out_of_range sp s))
      × (addr ≡ vmem_1_limit → trap_memory al addr sp s ≡ some overread)
      × (vmem_1_base ≤ addr
          → addr < vmem_1_limit
          → ((sp.region_1_page_table hit).valid ≡ true
              → trap_memory al addr sp s ≡ some bad_permissions)
            × ((sp.region_1_page_table hit).valid ≡ false
                → (hit ≤ sp.user_brk_page → trap_memory al addr sp s ≡ some (killed met_heap sp s))
                  × (sp.user_brk_page < hit
                      → sp.lowest_user_stack_page ≤ hit
                      → trap_memory al addr sp s ≡ some (killed unmapped_stack_page sp s))))
  unfolding trap_memory
  trap_memory-kills = (
    λ h. ground arith,
    λ h. ground arith,
    λ a b. (λ v. ground arith, λ v. (λ c. ground arith, λ c d. ground arith)),
  )
