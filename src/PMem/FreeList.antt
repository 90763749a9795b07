-- ===== src/PMem/FreeList.antt =====
-- What the globals of PMem.c and the words inside the free frames stand for: a queue of frames.
use theynix.Base.{
  ℕ, ◌^◌, ◌≡◌, false, List, [], ◌∷◌, ℤ, pos, negsuc, has, IsDistinct, AllBelow, last_of,
}
use theynix.PMem.{Machine}

-- Each frame's word 0 names the next frame, whose word 1 names the frame before.
abbrev pub Linked : (ℕ → ℕ → ℤ) → ℕ → List ℕ → Type 0
Linked frames x [] = Unit
Linked frames x (y ∷ ys) = (frames x 0 ≡ pos y) × (frames y 1 ≡ pos x) × Linked frames y ys

-- The globals point at the ends of the queue, or both are -1.
abbrev pub Ends : ℤ → ℤ → List ℕ → Type 0
Ends head tail [] = (head ≡ negsuc 0) × (tail ≡ negsuc 0)
Ends head tail (x ∷ xs) = (head ≡ pos x) × (tail ≡ pos (last_of x xs))

abbrev pub Chain : (ℕ → ℕ → ℤ) → List ℕ → Type 0
Chain frames [] = Unit
Chain frames (x ∷ xs) = Linked frames x xs

-- The machine's free list is exactly `xs`, oldest first: distinct frames that fit a `pfn`.
pub record IsFree (m : Machine) (xs : List ℕ) : Type 0 where
  pub ends : Ends m.free_frames_head m.free_frames_tail xs
  pub chain : Chain m.frames xs
  pub distinct : IsDistinct xs
  pub fits : AllBelow (2 ^ 24) xs

-- The same word of every frame but those of `xs`.
abbrev pub SameOutside : List ℕ → Machine → Machine → Type 0
SameOutside xs m m' = (f i : ℕ) → has f xs ≡ false → m'.frames f i ≡ m.frames f i
