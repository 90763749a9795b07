-- ===== src/VMem/Allocator.antt =====
-- PMem.c as its callers see it: a queue of free frames.
use theynix.Base.{ℕ, ◌^◌, ◌<◌, ◌≡◌, false, List, [], ◌∷◌, ◌++◌, ℤ, pos, has, IsDistinct, AllBelow}
use theynix.PMem.{Machine, Pte, success, error, get_unused_frame, release_used_frame}
use theynix.PMem.FreeList.{IsFree}
use theynix.PMem.Queue.{get_unused_frame-Taken, release_used_frame-append}

-- `Frees s xs`: in state `s` exactly the frames `xs` are free, in that order.
pub record FrameAllocator : Type 1 where
  pub State : Type 0
  pub get_unused : Pte → State → ℤ × Pte × State
  pub release_used : ℕ → State → State
  pub Frees : State → List ℕ → Type 0
  pub Frees-IsDistinct :
      (s : State) (xs : List ℕ) → Frees s xs → IsDistinct xs × AllBelow (2 ^ 24) xs
  pub get_unused-nil : (pte : Pte) (s : State) → Frees s [] → get_unused pte s ≡ (error, pte, s)
  pub get_unused-cons :
      (pte : Pte) (s : State) (x : ℕ) (xs : List ℕ)
      → Frees s (x ∷ xs)
      → (s' : State) × (get_unused pte s ≡ (success, record pte { pfn = x }, s')) × Frees s' xs
  pub release_used-append :
      (s : State) (f : ℕ) (xs : List ℕ)
      → f < 2 ^ 24
      → has f xs ≡ false
      → Frees s xs
      → Frees (release_used f s) (xs ++ (f ∷ []))

pub IsFree-get :
    (pte : Pte) (m : Machine) (x : ℕ) (xs : List ℕ)
    → IsFree m (x ∷ xs)
    → (m' : Machine) × (get_unused_frame pte m ≡ (success, record pte { pfn = x }, m'))
      × IsFree m' xs
IsFree-get pte m x xs is =
    let (rc, entry, queue, _, _) = get_unused_frame-Taken pte m (x ∷ xs) is in
    ((get_unused_frame pte m).2, λ i. (rc i, entry i, (get_unused_frame pte m).2), queue)

pub IsFree-get_nil :
    (pte : Pte) (m : Machine) → IsFree m [] → get_unused_frame pte m ≡ (error, pte, m)
IsFree-get_nil pte m is =
    let (rc, entry, same) = get_unused_frame-Taken pte m [] is in λ i. (rc i, entry i, same i)

pub IsFree-release :
    (m : Machine) (f : ℕ) (xs : List ℕ)
    → f < 2 ^ 24
    → has f xs ≡ false
    → IsFree m xs
    → IsFree (release_used_frame (pos f) m) (xs ++ (f ∷ []))
IsFree-release m f xs small out is =
    let (queue, _, _) = release_used_frame-append m f xs small out is in queue

-- PMem.c is such an allocator.
abbrev pub pmem_allocator : FrameAllocator
pmem_allocator = record {
  State = Machine;
  get_unused = get_unused_frame;
  release_used = λ f m. release_used_frame (pos f) m;
  Frees = IsFree;
  Frees-IsDistinct = λ s xs is. (is.distinct, is.fits);
  get_unused-nil = IsFree-get_nil;
  get_unused-cons = IsFree-get;
  release_used-append = IsFree-release;
}
