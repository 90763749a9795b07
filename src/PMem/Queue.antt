-- ===== src/PMem/Queue.antt =====
-- GetUnusedFrame and ReleaseUsedFrame as the operations of a queue of free frames.
use theynix.Base.{
  ℕ, ◌^◌, ◌%◌, ◌<◌, ◌≡◌, ◌≢◌, refl, sym, ap, false, List, [], ◌∷◌, ◌++◌, ℤ, pos, has, has-last_of,
  IsDistinct, AllBelow, IsDistinct-append_one, AllBelow-append_one, last_of, last_of-append, arith,
}
use theynix.PMem.{Machine, Pte, get_unused_frame, release_used_frame, success, error}
use theynix.PMem.Access.{put, add-nonempty, add-empty}
use theynix.PMem.FreeList.{Linked, IsFree, SameOutside}

last_of-AllBelow : (n x : ℕ) (xs : List ℕ) → x < n → AllBelow n xs → last_of x xs < n
last_of-AllBelow n x [] h b = h
last_of-AllBelow n x (y ∷ ys) h b = last_of-AllBelow n y ys b.0 b.1

-- A queue that the writes to `t` (its end) and to a new frame `f` leave linked, with `f` behind it.
module _ (frames : ℕ → ℕ → ℤ) (f : ℕ) where
  Linked-put_one :
      (t x : ℕ) (xs : List ℕ)
      → has f (x ∷ xs) ≡ false
      → last_of x xs ≡ t
      → IsDistinct (x ∷ xs)
      → Linked frames x xs
      → Linked (put (put frames t 0 (pos f)) f 1 (pos t)) x (xs ++ (f ∷ []))
  Linked-put_one t x [] out e d l = ground arith
  Linked-put_one t x (y ∷ ys) out e d l = (
    ground (arith, has-last_of y ys),
    ground arith,
    Linked-put_one t y ys (ground arith) e d.1 l.2,
  )

last_of-out : (f x : ℕ) (xs : List ℕ) → has f (x ∷ xs) ≡ false → last_of x xs ≢ f
last_of-out f x xs out e = ground (arith, has-last_of x xs)

release-cons :
    (m : Machine) (f x : ℕ) (xs : List ℕ)
    → f < 2 ^ 24
    → has f (x ∷ xs) ≡ false
    → IsFree m (x ∷ xs)
    → let m' = release_used_frame (pos f) m in
      IsFree m' (x ∷ (xs ++ (f ∷ []))) × (m'.entry ≡ m.entry) × SameOutside (f ∷ x ∷ xs) m m'
unfolding release_used_frame
release-cons m f x xs small out is =
    let t = last_of x xs in
    let ts = last_of-AllBelow (2 ^ 24) x xs is.fits.0 is.fits.1 in
    rw (add-nonempty m x t f ts small is.ends.0 is.ends.1 (ground arith)) (
      record {
        ends = (is.ends.0, ap pos (sym (last_of-append x f xs)));
        chain = Linked-put_one m.frames f t x xs out refl is.distinct is.chain;
        distinct = IsDistinct-append_one f (x ∷ xs) is.distinct out;
        fits = AllBelow-append_one (2 ^ 24) f (x ∷ xs) is.fits small;
      },
      refl,
      λ a i o. ground (arith, has-last_of x xs),
    )

release-nil :
    (m : Machine) (f : ℕ)
    → f < 2 ^ 24
    → IsFree m []
    → let m' = release_used_frame (pos f) m in
      IsFree m' (f ∷ []) × (m'.entry ≡ m.entry) × SameOutside (f ∷ []) m m'
unfolding release_used_frame
release-nil m f small is = rw (add-empty m f small is.ends.0) (
  record { ends = (refl, refl); chain = tt; distinct = (refl, tt); fits = (small, tt) },
  refl,
  λ a i o. ground arith,
)

-- Releasing a frame that is not free puts it at the end of the queue of free frames, keeps the
-- links of the queue, puts entry 0 of the page table back, and writes into no frame but the
-- released one and the free ones.
pub release_used_frame-append :
    (m : Machine) (f : ℕ) (xs : List ℕ)
    → f < 2 ^ 24
    → has f xs ≡ false
    → IsFree m xs
    → let m' = release_used_frame (pos f) m in
      IsFree m' (xs ++ (f ∷ [])) × (m'.entry ≡ m.entry) × SameOutside (f ∷ xs) m m'
release_used_frame-append m f [] small out is = release-nil m f small is
release_used_frame-append m f (x ∷ xs) small out is = release-cons m f x xs small out is

small_pfn : (x : ℕ) → x < 2 ^ 24 → x % 2 ^ 24 ≡ x
small_pfn x h = omega arith

-- What a caller of GetUnusedFrame sees of the queue, by whether it is empty.
abbrev pub Taken : List ℕ → Pte → Machine → ℤ × Pte × Machine → Type 0
Taken [] pte m (rc, pte', m') = (rc ≡ error) × (pte' ≡ pte) × (m' ≡ m)
Taken (x ∷ xs) pte m (rc, pte', m') =
    (rc ≡ success)
    × (pte' ≡ record pte { pfn = x })
    × IsFree m' xs
    × (m'.entry ≡ m.entry)
    × SameOutside [] m m'

-- GetUnusedFrame takes the oldest free frame off the queue and stores it in the `pfn` of the entry,
-- whose other fields stay; it writes into no frame and puts entry 0 of the page table back. With no
-- free frame it returns ERROR and changes nothing.
pub get_unused_frame-Taken :
    (pte : Pte) (m : Machine) (xs : List ℕ) → IsFree m xs → Taken xs pte m (get_unused_frame pte m)
unfolding get_unused_frame
get_unused_frame-Taken pte m [] is = ground arith
get_unused_frame-Taken pte m (x ∷ []) is = ground (arith, small_pfn x)
get_unused_frame-Taken pte m (x ∷ y ∷ ys) is = ground (arith, small_pfn x, has-last_of y ys)
