-- ===== src/Fork/Frames.antt =====
-- The frames of the valid pages of a table.
use mathlib.Core.Path.{subst}
use theynix.Base.{
  ℕ, zero, suc, ◌+◌, ◌≤◌, ◌<◌, ◌≡◌, inl, inr, refl, ap, true, false, ◌==◌, List, [], ◌∷◌, ◌++◌,
  arith, if◌then◌else◌, Bool-cases, update, IsDistinct, has,
}
use theynix.PMem.{Pte}
use theynix.VMem.{PageTable}
use theynix.VMem.Free.{frames_of}

-- The frame of one page.
abbrev pub frame_at : PageTable → ℕ → List ℕ
frame_at t q = if (t q).valid then (t q).pfn ∷ [] else []

pub frames_of-above :
    (t : PageTable) (k p n : ℕ) (e : Pte)
    → p + n ≤ k
    → frames_of (update t k e) p n ≡ frames_of t p n
unfolding frames_of
frames_of-above t k p zero e h = refl
frames_of-above t k p (suc n) e h = ground (arith, frames_of-above t k (p + 1) n e)

frames_of-snoc :
    (t : PageTable) (p n : ℕ) → frames_of t p (suc n) ≡ frames_of t p n ++ frame_at t (p + n)
unfolding frames_of
frames_of-snoc t p zero =
    let same : p + 0 ≡ p = omega arith in
    rw same
      (elim (Bool-cases (t p).valid) [ inl valid ↦ rw valid refl | inr blank ↦ rw blank refl ])
frames_of-snoc t p (suc n) =
    let rest = frames_of-snoc t (p + 1) n in
    let same : p + 1 + n ≡ p + suc n = omega arith in
    elim (Bool-cases (t p).valid) [
      | inl valid ↦ rw valid (rw (← same) (ap (λ ys. (t p).pfn ∷ ys) rest))
      | inr blank ↦ rw blank (rw (← same) rest)
    ]

pub frames_of-add_one :
    (t : PageTable) (p n : ℕ) → frames_of t p (n + 1) ≡ frames_of t p n ++ frame_at t (p + n)
frames_of-add_one t p n =
    subst (λ k. frames_of t p k ≡ frames_of t p n ++ frame_at t (p + n)) (omega arith)
      (frames_of-snoc t p n)

pub frames_of-valid :
    (t : PageTable) (p n : ℕ)
    → (t p).valid ≡ true
    → frames_of t p (suc n) ≡ (t p).pfn ∷ frames_of t (p + 1) n
unfolding frames_of
frames_of-valid t p n v = rw v refl

pub frames_of-blank :
    (t : PageTable) (p n : ℕ) → (t p).valid ≡ false → frames_of t p (suc n) ≡ frames_of t (p + 1) n
unfolding frames_of
frames_of-blank t p n v = rw v refl

pub frames_of-has :
    (t : PageTable) (p n q : ℕ)
    → p ≤ q
    → q < p + n
    → (t q).valid ≡ true
    → has (t q).pfn (frames_of t p n) ≡ true
frames_of-has t p zero q le lt v = absurd (omega arith)
frames_of-has t p (suc n) q le lt v = elim (Bool-cases (t p).valid) [
  | inl valid ↦ elim (Bool-cases (q == p)) [
    | inl at ↦
        let same : q ≡ p = ground arith in rw (frames_of-valid t p n valid, same) (ground arith)
    | inr later ↦
        let rest = frames_of-has t (p + 1) n q (ground arith) (omega arith) v in
        rw (frames_of-valid t p n valid) (ground (arith, rest))
  ]
  | inr blank ↦
      let rest = frames_of-has t (p + 1) n q (ground arith) (omega arith) v in
      rw (frames_of-blank t p n blank) rest
]

-- Where no frame stands twice, pages that share one are the same page.
pub frames_of-different :
    (t : PageTable) (p n i j : ℕ)
    → IsDistinct (frames_of t p n)
    → p ≤ i
    → i < p + n
    → p ≤ j
    → j < p + n
    → (t i).valid ≡ true
    → (t j).valid ≡ true
    → (t i).pfn ≡ (t j).pfn
    → i ≡ j
frames_of-different t p zero i j d a b c e v w same = absurd (omega arith)
frames_of-different t p (suc n) i j d a b c e v w same =
    let later : (k : ℕ) → p ≤ k → (k == p) ≡ false → p + 1 ≤ k = λ k h g. ground arith in
    let in_rest : (k : ℕ)
        → p ≤ k
        → k < p + suc n
        → (k == p) ≡ false
        → (t k).valid ≡ true
        → has (t k).pfn (frames_of t (p + 1) n) ≡ true =
      λ k h l g x. frames_of-has t (p + 1) n k (later k h g) (omega arith) x in
    elim (Bool-cases (t p).valid) [
      | inl valid ↦
          let d1 = subst IsDistinct (frames_of-valid t p n valid) d in
          elim (Bool-cases (i == p)) [
            | inl i_first ↦ elim (Bool-cases (j == p)) [
              | inl j_first ↦ ground arith
              | inr j_later ↦ ground (arith, in_rest j c e j_later w, d1.0)
            ]
            | inr i_later ↦ elim (Bool-cases (j == p)) [
              | inl j_first ↦ ground (arith, in_rest i a b i_later v, d1.0)
              | inr j_later ↦
                  frames_of-different t (p + 1) n i j d1.1 (later i a i_later) (omega arith)
                    (later j c j_later) (omega arith) v w same
            ]
          ]
      | inr blank ↦
          frames_of-different t (p + 1) n i j (subst IsDistinct (frames_of-blank t p n blank) d)
            (later i a (ground arith)) (omega arith) (later j c (ground arith)) (omega arith) v w
            same
    ]
