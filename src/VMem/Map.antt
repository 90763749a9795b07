-- ===== src/VMem/Map.antt =====
-- MapNewRegion1Pages: all pages or, exactly, none.
use theynix.Base.{
  ℕ, ℤ, Bool-cases, inl, inr, ◌⊎◌, zero, suc, ◌+◌, ◌-◌, ◌^◌, ◌<◌, ◌≤◌, ◌≡◌, ◌∙◌, refl, true, false,
  some, List, [], ◌∷◌, ◌++◌, ◌&&◌, IsDistinct, AllBelow, append_assoc, append-nil, length,
  length-append, take, drop, leb, ltb, update, arith, if◌then◌else◌, ap,
}
use mathlib.Core.Option
use theynix.PMem.{Pte, success, error}
use theynix.VMem.{
  PageTable, unmap_region_1_pages, map_new_region_1_pages_from, map_new_region_1_pages,
  num_pages_reg_1,
}
use theynix.VMem.Allocator.{FrameAllocator}
use theynix.VMem.Unmap.{Maps, unmap-append}

-- `n` pages from `p` on are pages of the table, and invalid.
abbrev pub Blank : PageTable → ℕ → ℕ → Type 0
Blank t p n = (p + n ≤ num_pages_reg_1) × ((q : ℕ) → p ≤ q → q < p + n → (t q).valid ≡ false)

-- From page `p` on the table maps the frames `ys`, a page each, with protection `prot`.
abbrev pub MapsAs : PageTable → ℕ → ℕ → List ℕ → Type 0
MapsAs t prot p [] = Unit
MapsAs t prot p (y ∷ ys) =
    (t p ≡ record { valid = true; prot = prot; pfn = y }) × MapsAs t prot (p + 1) ys

pub MapsAs-Maps : (t : PageTable) (prot p : ℕ) (ys : List ℕ) → MapsAs t prot p ys → Maps t p ys
MapsAs-Maps t prot p [] m = tt
MapsAs-Maps t prot p (y ∷ ys) m =
    (ap (λ e. e.valid) m.0, ap (λ e. e.pfn) m.0, MapsAs-Maps t prot (p + 1) ys m.1)

Maps-same :
    (t u : PageTable) (p : ℕ) (ys : List ℕ)
    → ((q : ℕ) → q < p + length ys → u q ≡ t q)
    → Maps t p ys
    → Maps u p ys
Maps-same t u p [] same m = tt
Maps-same t u p (y ∷ ys) same m = (
  ap (λ e. e.valid) (same p (omega arith)) ∙ m.0,
  ap (λ e. e.pfn) (same p (omega arith)) ∙ m.1,
  Maps-same t u (p + 1) ys (λ q h. same q (omega arith)) m.2,
)

Maps-snoc :
    (t : PageTable) (p k y : ℕ) (ys : List ℕ) (e : Pte)
    → p + length ys ≡ k
    → e.valid ≡ true
    → e.pfn ≡ y
    → Maps t p ys
    → Maps (update t k e) p (ys ++ (y ∷ []))
Maps-snoc t p k y [] e at v f m = (ground arith, ground arith, tt)
Maps-snoc t p k y (z ∷ ys) e at v f m =
    (ground arith, ground arith, Maps-snoc t (p + 1) k y ys e (omega arith) v f m.2)

module _ (al : FrameAllocator) (prot : ℕ) where
  map-step :
      (start p n x : ℕ) (t : PageTable) (s s' : al.State)
      → p < num_pages_reg_1
      → (t p).valid ≡ false
      → al.get_unused (t p) s ≡ (success, record (t p) { pfn = x }, s')
      → map_new_region_1_pages_from al start p (suc n) prot (t, s)
        ≡ map_new_region_1_pages_from al start
            (p + 1)
            n
            prot
            (update t p (record { valid = true; prot = prot; pfn = x }), s')
  unfolding map_new_region_1_pages_from
  map-step start p n x t s s' room v e = ground arith

  map-success :
      (start p n : ℕ) (t : PageTable) (s : al.State) (xs : List ℕ)
      → Blank t p n
      → n ≤ length xs
      → al.Frees s xs
      → (t' : PageTable) × (s' : al.State) × (map_new_region_1_pages_from al start p n prot (t, s)
          ≡ some (success, (t', s')))
        × al.Frees s' (drop n xs)
        × MapsAs t' prot p (take n xs)
        × ((q : ℕ) → (leb p q && ltb q (p + n)) ≡ false → t' q ≡ t q)
  unfolding map_new_region_1_pages_from
  map-success start p zero t s xs blank enough f = (t, s, refl, f, tt, λ q h. refl)
  map-success start p (suc n) t s [] blank enough f = absurd (omega arith)
  map-success start p (suc n) t s (x ∷ xs) blank enough f =
      let (s1, got, f1) = al.get_unused-cons (t p) s x xs f in
      let t1 = update t p (record { valid = true; prot = prot; pfn = x }) in
      let (t', s', e, free, maps, same) =
        map-success start (p + 1) n t1 s1 xs (omega arith, λ q a b. ground (arith, blank.1 q))
          (omega arith) f1 in
      (
        t',
        s',
        map-step start p n x t s s1 (omega arith) (blank.1 p (omega arith) (omega arith)) got ∙ e,
        free,
        (ground (arith, same p), maps),
        λ q h. ground (arith, same q),
      )

  map-stop :
      (start p n k : ℕ) (t : PageTable) (s : al.State)
      → p < num_pages_reg_1
      → (t p).valid ≡ false
      → al.get_unused (t p) s ≡ (error, t p, s)
      → p - start ≡ k
      → map_new_region_1_pages_from al start p (suc n) prot (t, s)
        ≡ Option.map (λ v. (error, v)) (unmap_region_1_pages al start k (update t p (t p), s))
  unfolding map_new_region_1_pages_from
  map-stop start p n k t s room v e d = ground arith

  -- What a failed call leaves: `free` is the queue of free frames, the pages from `start` up to `p`
  -- are invalid, no other valid bit and, outside the pages asked for, no entry has changed.
  abbrev RolledBack : (start p n : ℕ) (t : PageTable) (s : al.State) (free : List ℕ) → Type 0
  RolledBack start p n t s free =
      (t' : PageTable) × (s' : al.State) × (map_new_region_1_pages_from al start p n prot (t, s)
        ≡ some (error, (t', s')))
      × al.Frees s' free
      × ((q : ℕ) → (t' q).valid ≡ (if leb start q && ltb q p then false else (t q).valid))
      × ((q : ℕ) → (leb start q && ltb q (p + n)) ≡ false → t' q ≡ t q)

  map-fail :
      (start p n : ℕ) (t : PageTable) (s : al.State) (ys xs : List ℕ)
      → start + length ys ≡ p
      → Maps t start ys
      → Blank t p n
      → length xs < n
      → IsDistinct (ys ++ xs)
      → AllBelow (2 ^ 24) (ys ++ xs)
      → al.Frees s xs
      → RolledBack start p n t s (ys ++ xs)
  map-fail start p zero t s ys xs k m blank short d b f = absurd (omega arith)
  map-fail start p (suc n) t s ys [] k m blank short d b f =
      let got = al.get_unused-nil (t p) s f in
      let t0 = update t p (t p) in
      let (t', s', e, free, same) =
        unmap-append al start t0 s [] ys (omega arith)
          (Maps-same t t0 start ys (λ q h. ground arith) m) (rw (append-nil ys) at d)
          (rw (append-nil ys) at b) f in
      (
        t',
        s',
        map-stop start p n (length ys) t s (omega arith) (blank.1 p (omega arith) (omega arith)) got
              (omega arith)
            ∙ ap (Option.map (λ v. (error, v))) e,
        rw (append-nil ys) free,
        λ q. ground (arith, same q),
        λ q h. ground (arith, same q),
      )
  map-fail start p (suc n) t s ys (x ∷ xs) k m blank short d b f =
      let (s1, got, f1) = al.get_unused-cons (t p) s x xs f in
      let t1 = update t p (record { valid = true; prot = prot; pfn = x }) in
      let (t', s', e, free, valid, same) =
        map-fail start (p + 1) n t1 s1 (ys ++ (x ∷ [])) xs
          (omega (arith, length-append ys (x ∷ []))) (Maps-snoc t start p x ys _ k refl refl m)
          (omega arith, λ q a c. ground (arith, blank.1 q)) (omega arith)
          (rw (append_assoc ys (x ∷ []) xs) d) (rw (append_assoc ys (x ∷ []) xs) b) f1 in
      (
        t',
        s',
        map-step start p n x t s s1 (omega arith) (blank.1 p (omega arith) (omega arith)) got ∙ e,
        (rw (append_assoc ys (x ∷ []) xs) at free),
        λ q. ground (arith, valid q, blank.1 q),
        λ q h. ground (arith, same q),
      )

-- Asked for `n` invalid pages from `p` on, with the free frames `xs`: if there are enough frames,
-- MapNewRegion1Pages succeeds, maps the pages to the first `n` free frames in order, valid and with
-- the given protection, and takes just these frames off the queue. If there are too few, it returns
-- ERROR, and the queue of free frames and every valid bit are what they were. Either way no entry
-- outside the pages asked for changes.
pub map_new_region_1_pages-all_or_none :
    (al : FrameAllocator) (p n prot : ℕ) (t : PageTable) (s : al.State) (xs : List ℕ)
    → Blank t p n
    → al.Frees s xs
    → (rc : ℤ) × (t' : PageTable) × (s' : al.State) × (map_new_region_1_pages al p n prot (t, s)
        ≡ some (rc, (t', s')))
      × ((q : ℕ) → (leb p q && ltb q (p + n)) ≡ false → t' q ≡ t q)
      × ((n ≤ length xs) × (rc ≡ success) × al.Frees s' (drop n xs) × MapsAs t' prot p (take n xs)
          ⊎ (length xs < n)
            × (rc ≡ error)
            × al.Frees s' xs
            × ((q : ℕ) → (t' q).valid ≡ (t q).valid))
unfolding map_new_region_1_pages
map_new_region_1_pages-all_or_none al p n prot t s xs blank f =
    elim (Bool-cases (ltb (length xs) n)) [
      | inl short ↦
          let (d, b) = al.Frees-IsDistinct s xs f in
          let (t', s', e, free, valid, same) =
            map-fail al prot p p n t s [] xs (omega arith) tt blank (ground arith) d b f in
          (error, t', s', e, same, inr (ground arith, refl, free, λ q. ground (arith, valid q)))
      | inr enough ↦
          let (t', s', e, free, maps, same) =
            map-success al prot p p n t s xs blank (ground arith) f in
          (success, t', s', e, same, inl (ground arith, refl, free, maps))
    ]
