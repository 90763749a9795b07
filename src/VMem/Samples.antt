-- ===== src/VMem/Samples.antt =====
-- A frame allocator that keeps the free frames as a plain queue.
use theynix.Base.{
  ℕ, ◌^◌, ◌≡◌, refl, ap, List, [], ◌∷◌, ◌++◌, ℤ, IsDistinct, AllBelow, IsDistinct-append_one,
  AllBelow-append_one,
}
use theynix.PMem.{Pte, success, error}
use theynix.VMem.Allocator.{FrameAllocator}

abbrev pub get_first : Pte → List ℕ → ℤ × Pte × List ℕ
get_first pte [] = (error, pte, [])
get_first pte (x ∷ xs) = (success, record pte { pfn = x }, xs)

abbrev pub IsQueue : List ℕ → List ℕ → Type 0
IsQueue s xs = (s ≡ xs) × IsDistinct xs × AllBelow (2 ^ 24) xs

pub get_first-nil : (pte : Pte) (s : List ℕ) → IsQueue s [] → get_first pte s ≡ (error, pte, s)
get_first-nil pte [] q = refl
get_first-nil pte (x ∷ s) q = let e = q.0 in cc

pub get_first-cons :
    (pte : Pte) (s : List ℕ) (x : ℕ) (xs : List ℕ)
    → IsQueue s (x ∷ xs)
    → (s' : List ℕ) × (get_first pte s ≡ (success, record pte { pfn = x }, s')) × IsQueue s' xs
get_first-cons pte s x xs (e, d, b) = (xs, rw e refl, (refl, d.1, b.1))

abbrev pub queue_allocator : FrameAllocator
queue_allocator = record {
  State = List ℕ;
  get_unused = get_first;
  release_used = λ f s. s ++ (f ∷ []);
  Frees = IsQueue;
  Frees-IsDistinct = λ s xs (e, d, b). (d, b);
  get_unused-nil = get_first-nil;
  get_unused-cons = get_first-cons;
  release_used-append = λ s f xs small out (e, d, b). (
    ap (λ ys. ys ++ (f ∷ [])) e,
    IsDistinct-append_one f xs d out,
    AllBelow-append_one (2 ^ 24) f xs b small,
  );
}
