-- ===== src/LoadProgram/Pages.antt =====
-- The pages of the new program.
use theynix.Base.{
  ℕ, ◌+◌, ◌≤◌, ◌<◌, ◌≡◌, ◌∙◌, inl, inr, refl, ap, false, ◌&&◌, Option, some, List, [], ◌∷◌, ℤ,
  arith, ltb, leb, Bool-cases, length, take, drop, length-take, length-drop,
}
use theynix.PMem.{success, error}
use theynix.VMem.{PageTable, map_new_region_1_pages}
use theynix.VMem.Allocator.{FrameAllocator}
use theynix.VMem.Map.{Blank, MapsAs, map_new_region_1_pages-all_or_none}
use theynix.LoadProgram.{map_segment}

pub MapsAs-same :
    (t u : PageTable) (prot p : ℕ) (ys : List ℕ)
    → ((q : ℕ) → p ≤ q → q < p + length ys → u q ≡ t q)
    → MapsAs t prot p ys
    → MapsAs u prot p ys
MapsAs-same t u prot p [] same m = tt
MapsAs-same t u prot p (y ∷ ys) same m = (
  same p (omega arith) (omega arith) ∙ m.0,
  MapsAs-same t u prot (p + 1) ys (λ q a b. same q (omega arith) (omega arith)) m.1,
)

-- No entry but those of `n` pages from `p` on has changed.
abbrev SameBut : (p n : ℕ) (t t' : PageTable) → Type 0
SameBut p n t t' = (q : ℕ) → (leb p q && ltb q (p + n)) ≡ false → t' q ≡ t q

kept_above : (p n q : ℕ) (t t' : PageTable) → SameBut p n t t' → p + n ≤ q → t' q ≡ t q
kept_above p n q t t' same above = same q (ground arith)

blank_above :
    (p n q : ℕ) (t t' : PageTable)
    → SameBut p n t t'
    → p + n ≤ q
    → (t q).valid ≡ false
    → (t' q).valid ≡ false
blank_above p n q t t' same above blank =
    ap (λ e. e.valid) (kept_above p n q t t' same above) ∙ blank

kept_below : (p n q : ℕ) (t t' : PageTable) → SameBut p n t t' → q < p → t' q ≡ t q
kept_below p n q t t' same below = same q (ground arith)

module _ (al : FrameAllocator) where
  abbrev pub Segment : Type 0
  Segment = Option (ℤ × (PageTable × al.State))

  after_success :
      (page n : ℕ) (t : PageTable) (s : al.State) (before : Segment)
      → before ≡ some (success, (t, s))
      → map_segment al page n before ≡ map_new_region_1_pages al page n 3 (t, s)
  unfolding map_segment
  after_success page n t s before e = rw e refl

  after_error :
      (page n : ℕ) (t : PageTable) (s : al.State) (before : Segment)
      → before ≡ some (error, (t, s))
      → map_segment al page n before ≡ some (error, (t, s))
  unfolding map_segment
  after_error page n t s before e = rw e refl

  segment_maps :
      (page n : ℕ) (t : PageTable) (s : al.State) (xs : List ℕ) (before : Segment)
      → before ≡ some (success, (t, s))
      → Blank t page n
      → al.Frees s xs
      → n ≤ length xs
      → (t' : PageTable) × (s' : al.State) × (map_segment al page n before
          ≡ some (success, (t', s')))
        × al.Frees s' (drop n xs)
        × MapsAs t' 3 page (take n xs)
        × SameBut page n t t'
  segment_maps page n t s xs before e blank f enough =
      let (rc, t', s', run, same, outcome) =
        map_new_region_1_pages-all_or_none al page n 3 t s xs blank f in
      elim outcome [
        | inl (le, ok, left, maps) ↦ (
          t',
          s',
          after_success page n t s before e ∙ run ∙ ap (λ r. some (r, (t', s'))) ok,
          left,
          maps,
          same,
        )
        | inr (lt, fails, left, valid) ↦ absurd (omega arith)
      ]

  segment_fails :
      (page n : ℕ) (t : PageTable) (s : al.State) (xs : List ℕ) (before : Segment)
      → before ≡ some (success, (t, s))
      → Blank t page n
      → al.Frees s xs
      → length xs < n
      → (t' : PageTable) × (s' : al.State) × (map_segment al page n before ≡ some (error, (t', s')))
        × al.Frees s' xs
        × ((q : ℕ) → (t' q).valid ≡ (t q).valid)
  segment_fails page n t s xs before e blank f few =
      let (rc, t', s', run, same, outcome) =
        map_new_region_1_pages-all_or_none al page n 3 t s xs blank f in
      elim outcome [
        | inl (le, ok, left, maps) ↦ absurd (omega arith)
        | inr (lt, fails, left, valid) ↦ (
          t',
          s',
          after_success page n t s before e ∙ run ∙ ap (λ r. some (r, (t', s'))) fails,
          left,
          valid,
        )
      ]

  -- Text, data and stack are mapped to the next free frames, a page each, and nothing else is.
  abbrev pub IsMapped :
      (p1 n1 p2 n2 p3 n3 : ℕ) → PageTable → al.State → List ℕ → (t' : PageTable) → al.State → Type 0
  IsMapped p1 n1 p2 n2 p3 n3 t s zs t' s' =
      al.Frees s' (drop n3 (drop n2 (drop n1 zs)))
      × MapsAs t' 3 p1 (take n1 zs)
      × MapsAs t' 3 p2 (take n2 (drop n1 zs))
      × MapsAs t' 3 p3 (take n3 (drop n2 (drop n1 zs)))
      × ((q : ℕ)
          → ((leb p1 q && ltb q (p1 + n1)) ≡ false)
            × ((leb p2 q && ltb q (p2 + n2)) ≡ false)
            × ((leb p3 q && ltb q (p3 + n3)) ≡ false)
          → t' q ≡ t q)

  abbrev pub three : (p1 n1 p2 n2 p3 n3 : ℕ) → PageTable → al.State → Segment
  three p1 n1 p2 n2 p3 n3 t s =
      map_segment al p3 n3 (map_segment al p2 n2 (map_segment al p1 n1 (some (success, (t, s)))))

  module _ (p1 n1 p2 n2 p3 n3 : ℕ) (t : PageTable) (s : al.State) (zs : List ℕ)
      (first : p1 + n1 ≤ p2) (second : p2 + n2 ≤ p3) (third : p3 + n3 ≤ 128)
      (blank : (q : ℕ) → q < 128 → (t q).valid ≡ false) (f : al.Frees s zs) where
    pub three_map :
        n1 + n2 + n3 ≤ length zs
        → (t' : PageTable) × (s' : al.State) × (three p1 n1 p2 n2 p3 n3 t s
            ≡ some (success, (t', s')))
          × IsMapped p1 n1 p2 n2 p3 n3 t s zs t' s'
    three_map enough =
        let l1 = length-drop n1 zs in
        let l2 = length-drop n2 (drop n1 zs) in
        let (t1, s1, run1, f1, m1, o1) =
          segment_maps p1 n1 t s zs (some (success, (t, s))) refl
            (omega arith, λ q a b. blank q (omega arith)) f (omega arith) in
        let (t2, s2, run2, f2, m2, o2) =
          segment_maps p2 n2 t1 s1 (drop n1 zs) (map_segment al p1 n1 (some (success, (t, s)))) run1
            (
              omega arith,
              λ q a b. blank_above p1 n1 q t t1 o1 (omega arith) (blank q (omega arith)),
            )
            f1 (omega arith) in
        let (t3, s3, run3, f3, m3, o3) =
          segment_maps p3 n3 t2 s2 (drop n2 (drop n1 zs))
            (map_segment al p2 n2 (map_segment al p1 n1 (some (success, (t, s))))) run2
            (
              omega arith,
              λ q a b.
                  blank_above p2 n2 q t1 t2 o2 (omega arith)
                    (blank_above p1 n1 q t t1 o1 (omega arith) (blank q (omega arith))),
            )
            f2 (omega arith) in
        let k1 = length-take n1 zs in
        let k2 = length-take n2 (drop n1 zs) in
        (
          t3,
          s3,
          run3,
          (
            f3,
            MapsAs-same t1 t3 3 p1 (take n1 zs)
                (λ q a b.
                  kept_below p3 n3 q t2 t3 o3 (omega (arith, k1))
                  ∙ kept_below p2 n2 q t1 t2 o2 (omega (arith, k1)))
                m1,
            MapsAs-same t2 t3 3 p2 (take n2 (drop n1 zs))
                (λ q a b. kept_below p3 n3 q t2 t3 o3 (omega (arith, k2))) m2,
            m3,
            λ q (out1, out2, out3). o3 q out3 ∙ o2 q out2 ∙ o1 q out1,
          ),
        )

    pub three_fail :
        length zs < n1 + n2 + n3
        → (t' : PageTable) × (s' : al.State) × (three p1 n1 p2 n2 p3 n3 t s
            ≡ some (error, (t', s')))
          × ((q : ℕ) → p3 ≤ q → q < 128 → (t' q).valid ≡ false)
    three_fail few = elim (Bool-cases (ltb (length zs) n1)) [
      | inl no_text ↦
          let (t1, s1, run1, f1, v1) =
            segment_fails p1 n1 t s zs (some (success, (t, s))) refl
              (omega arith, λ q a b. blank q (omega arith)) f (ground arith) in
          let run2 = after_error p2 n2 t1 s1 (map_segment al p1 n1 (some (success, (t, s)))) run1 in
          (
            t1,
            s1,
            after_error p3 n3 t1 s1
                (map_segment al p2 n2 (map_segment al p1 n1 (some (success, (t, s))))) run2,
            λ q a b. v1 q ∙ blank q b,
          )
      | inr text_fits ↦
          let l1 = length-drop n1 zs in
          let (t1, s1, run1, f1, m1, o1) =
            segment_maps p1 n1 t s zs (some (success, (t, s))) refl
              (omega arith, λ q a b. blank q (omega arith)) f (ground arith) in
          let blank1 : Blank t1 p2 n2 = (
            omega arith,
            λ q a b. blank_above p1 n1 q t t1 o1 (omega arith) (blank q (omega arith)),
          ) in
          elim (Bool-cases (ltb (length (drop n1 zs)) n2)) [
            | inl no_data ↦
                let (t2, s2, run2, f2, v2) =
                  segment_fails p2 n2 t1 s1 (drop n1 zs)
                    (map_segment al p1 n1 (some (success, (t, s)))) run1 blank1 f1 (ground arith) in
                (
                  t2,
                  s2,
                  after_error p3 n3 t2 s2
                      (map_segment al p2 n2 (map_segment al p1 n1 (some (success, (t, s))))) run2,
                  λ q a b. v2 q ∙ blank_above p1 n1 q t t1 o1 (omega arith) (blank q b),
                )
            | inr data_fits ↦
                let l2 = length-drop n2 (drop n1 zs) in
                let (t2, s2, run2, f2, m2, o2) =
                  segment_maps p2 n2 t1 s1 (drop n1 zs)
                    (map_segment al p1 n1 (some (success, (t, s)))) run1 blank1 f1 (ground arith) in
                let (t3, s3, run3, f3, v3) =
                  segment_fails p3 n3 t2 s2 (drop n2 (drop n1 zs))
                    (map_segment al p2 n2 (map_segment al p1 n1 (some (success, (t, s))))) run2
                    (
                      omega arith,
                      λ q a b.
                          blank_above p2 n2 q t1 t2 o2 (omega arith)
                            (blank_above p1 n1 q t t1 o1 (omega arith) (blank q (omega arith))),
                    )
                    f2 (ground arith) in
                (
                  t3,
                  s3,
                  run3,
                  λ q a b.
                      v3 q
                      ∙ blank_above p2 n2 q t1 t2 o2 (omega arith)
                          (blank_above p1 n1 q t t1 o1 (omega arith) (blank q b)),
                )
          ]
    ]
