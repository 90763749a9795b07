-- ===== src/Fork/Take.antt =====
-- Taking a frame for every valid page of the source.
use mathlib.Core.Path.{subst}
use theynix.Base.{
  append_assoc, append-nil, ℕ, zero, suc, ◌+◌, ◌^◌, ◌≤◌, ◌<◌, ◌≡◌, ◌∙◌, inl, inr, refl, sym, ap,
  true, false, ◌&&◌, List, [], ◌∷◌, ◌++◌, arith, if◌then◌else◌, ltb, leb, Bool-cases, length, take,
  drop, update, AllBelow, IsDistinct, List-cases,
}
use theynix.PMem.{error, success, Pte}
use theynix.VMem.{free_valid_pages, PageTable}
use theynix.VMem.Free.{free_valid_pages-append, frames_of}
use theynix.VMem.Allocator.{FrameAllocator}
use theynix.Fork.{take_frames}
use theynix.Fork.Frames.{
  frame_at, frames_of-above, frames_of-add_one, frames_of-blank, frames_of-valid,
}

abbrev taken_pte : ℕ → Pte
taken_pte f = record { valid = true; prot = 2; pfn = f }

-- The table has no valid page from `p` on.
abbrev pub BlankFrom : ℕ → PageTable → Type 0
BlankFrom p t = (q : ℕ) → p ≤ q → (t q).valid ≡ false

-- Of the `n` pages from `p` on, those that are valid in `source` are valid and can be written, and
-- no other page has changed.
abbrev pub TakenFor : (source : PageTable) (p n : ℕ) (t t' : PageTable) → Type 0
TakenFor source p n t t' =
    (q : ℕ)
    → t' q ≡ (
        if leb p q && (ltb q (p + n) && (source q).valid)
        then record { valid = true; prot = 2; pfn = (t' q).pfn }
        else t q)

module _ (al : FrameAllocator) (source : PageTable) where
  take_skips :
      (p n : ℕ) (t : PageTable) (s : al.State)
      → (source p).valid ≡ false
      → take_frames al source p (suc n) (t, s) ≡ take_frames al source (p + 1) n (t, s)
  unfolding take_frames
  take_skips p n t s v = rw (take_frames, v) refl

  take_gets :
      (p n x : ℕ) (t : PageTable) (s s' : al.State)
      → (source p).valid ≡ true
      → al.get_unused (record (t p) { valid = true; prot = 2 }) s ≡ (success, taken_pte x, s')
      → take_frames al source p (suc n) (t, s)
        ≡ take_frames al source (p + 1) n (update t p (taken_pte x), s')
  unfolding take_frames
  take_gets p n x t s s' v e = rw v (rw e refl)

  take_fails :
      (p n : ℕ) (t t' : PageTable) (s s' : al.State)
      → (source p).valid ≡ true
      → al.get_unused (record (t p) { valid = true; prot = 2 }) s
        ≡ (error, record (t p) { valid = true; prot = 2 }, s)
      → free_valid_pages al 0 p (update t p (record (t p) { valid = true; prot = 2 }), s) ≡ (t', s')
      → take_frames al source p (suc n) (t, s) ≡ (error, t', s')
  unfolding take_frames
  take_fails p n t t' s s' v e f = rw v (rw e (rw f refl))

  -- With enough frames, each valid page gets the next one.
  pub take_frames-success :
      (p n : ℕ) (t : PageTable) (s : al.State) (xs : List ℕ)
      → BlankFrom p t
      → length (frames_of source p n) ≤ length xs
      → al.Frees s xs
      → (t' : PageTable) × (s' : al.State) × (take_frames al source p n (t, s) ≡ (success, t', s'))
        × al.Frees s' (drop (length (frames_of source p n)) xs)
        × (frames_of t' p n ≡ take (length (frames_of source p n)) xs)
        × TakenFor source p n t t'
  unfolding take_frames frames_of
  take_frames-success p zero t s xs blank le f = (t, s, refl, f, refl, λ q. ground arith)
  take_frames-success p (suc n) t s xs blank le f = elim (Bool-cases (source p).valid) [
    | inl valid ↦
        let count = frames_of-valid source p n valid in
        elim (List-cases xs) [
          | inl empty ↦ absurd (ground (arith, count, empty))
          | inr (x, ys, cons) ↦
              let (s1, got, f1) =
                al.get_unused-cons (record (t p) { valid = true; prot = 2 }) s x ys
                  (subst (λ zs. al.Frees s zs) cons f) in
              let t1 = update t p (taken_pte x) in
              let (t', s', run, left, given, taken) =
                take_frames-success (p + 1) n t1 s1 ys (λ q h. ground (arith, blank q))
                  (ground (arith, count, cons, le)) f1 in
              let at : t' p ≡ taken_pte x = ground (arith, taken p) in
              (
                t',
                s',
                take_gets p n x t s s1 valid got ∙ run,
                rw valid (rw cons left),
                rw at (rw valid (rw cons (ap (λ zs. x ∷ zs) given))),
                λ q. ground (arith, taken q, valid),
              )
        ]
    | inr skips ↦
        let count = frames_of-blank source p n skips in
        let (t', s', run, left, given, taken) =
          take_frames-success (p + 1) n t s xs (λ q h. blank q (omega arith))
            (ground (arith, count, le)) f in
        let blank1 : (t' p).valid ≡ false = ground (arith, taken p, blank p) in
        (
          t',
          s',
          take_skips p n t s skips ∙ run,
          rw skips left,
          rw blank1 (rw skips given),
          λ q. ground (arith, taken q, skips),
        )
  ]

  -- With too few, all that were taken are given back, behind those that were free.
  pub take_frames-fail :
      (p n : ℕ) (t : PageTable) (s : al.State) (xs ys : List ℕ)
      → BlankFrom p t
      → frames_of t 0 p ≡ ys
      → IsDistinct (ys ++ xs)
      → AllBelow (2 ^ 24) (ys ++ xs)
      → length xs < length (frames_of source p n)
      → al.Frees s xs
      → (t' : PageTable) × (s' : al.State) × (take_frames al source p n (t, s) ≡ (error, t', s'))
        × al.Frees s' (ys ++ xs)
  unfolding frames_of
  take_frames-fail p zero t s xs ys blank had d b lt f = absurd (omega arith)
  take_frames-fail p (suc n) t s xs ys blank had d b lt f = elim (Bool-cases (source p).valid) [
    | inl valid ↦
        let count = frames_of-valid source p n valid in
        let e = record (t p) { valid = true; prot = 2 } in
        elim (List-cases xs) [
          | inl empty ↦
              let no_more = al.get_unused-nil e s (subst (λ zs. al.Frees s zs) empty f) in
              let whole : ys ++ xs ≡ ys = ap (λ zs. ys ++ zs) empty ∙ append-nil ys in
              let (t', s', run, left, cleared) =
                free_valid_pages-append al 0 p (update t p e) s [] ys
                  (frames_of-above t p 0 p e (omega arith) ∙ had) (subst IsDistinct whole d)
                  (subst (AllBelow (2 ^ 24)) whole b) (subst (λ zs. al.Frees s zs) empty f) in
              (
                t',
                s',
                take_fails p n t t' s s' valid no_more run,
                subst (λ zs. al.Frees s' zs) (sym whole) left,
              )
          | inr (x, zs, cons) ↦
              let (s1, got, f1) =
                al.get_unused-cons e s x zs (subst (λ zs. al.Frees s zs) cons f) in
              let t1 = update t p (taken_pte x) in
              let whole : (ys ++ (x ∷ [])) ++ zs ≡ ys ++ xs =
                append_assoc ys (x ∷ []) zs ∙ ap (λ us. ys ++ us) (sym cons) in
              let at : frame_at t1 (0 + p) ≡ x ∷ [] = ground arith in
              let had1 : frames_of t1 0 (p + 1) ≡ ys ++ (x ∷ []) =
                frames_of-add_one t1 0 p
                ∙ ap (λ us. us ++ frame_at t1 (0 + p))
                    (frames_of-above t p 0 p (taken_pte x) (omega arith) ∙ had)
                ∙ ap (λ us. ys ++ us) at in
              let (t', s', run, left) =
                take_frames-fail (p + 1) n t1 s1 zs (ys ++ (x ∷ []))
                  (λ q h. ground (arith, blank q)) had1 (subst IsDistinct (sym whole) d)
                  (subst (AllBelow (2 ^ 24)) (sym whole) b) (ground (arith, count, cons, lt)) f1 in
              (
                t',
                s',
                take_gets p n x t s s1 valid got ∙ run,
                subst (λ us. al.Frees s' us) whole left,
              )
        ]
    | inr skips ↦
        let none_at : frame_at t (0 + p) ≡ [] = ground (arith, blank p) in
        let had1 : frames_of t 0 (p + 1) ≡ ys =
          frames_of-add_one t 0 p
          ∙ ap (λ us. us ++ frame_at t (0 + p)) had
          ∙ ap (λ us. ys ++ us) none_at
          ∙ append-nil ys in
        let (t', s', run, left) =
          take_frames-fail (p + 1) n t s xs ys (λ q h. blank q (omega arith)) had1 d b
            (ground (arith, frames_of-blank source p n skips, lt)) f in
        (t', s', take_skips p n t s skips ∙ run, left)
  ]
