-- ===== src/Fork/Child.antt =====
-- Region 1 of the child.
use mathlib.Core.Path.{subst}
use theynix.Base.{
  ℕ, zero, suc, ◌+◌, ◌<◌, ◌≡◌, ◌∙◌, refl, sym, true, false, List, [], ◌∷◌, arith, length, take,
  drop, IsDistinct, IsDistinct-front, has, take-append-drop,
}
use theynix.VMem.{create_region_1_page_table, PageTable}
use theynix.VMem.Free.{frames_of}
use theynix.Fork.Take.{TakenFor}
use theynix.Fork.Frames.{frames_of-different, frames_of-has}
use theynix.PageCopy.Down.{AllCopied, IsApart}
use theynix.PageCopy.{copy_prots, page_size, readable}

frames_of-agree :
    (t u : PageTable) (p n : ℕ)
    → ((q : ℕ) → ((u q).valid ≡ (t q).valid) × ((u q).pfn ≡ (t q).pfn))
    → frames_of u p n ≡ frames_of t p n
unfolding frames_of
frames_of-agree t u p zero same = refl
frames_of-agree t u p (suc n) same = ground (arith, frames_of-agree t u (p + 1) n same, same p)

has-take : (a n : ℕ) (xs : List ℕ) → has a (take n xs) ≡ true → has a xs ≡ true
has-take a zero xs h = cc
has-take a (suc n) [] h = cc
has-take a (suc n) (x ∷ xs) h = ground (arith, has-take a n xs)

IsDistinct-take : (n : ℕ) (xs : List ℕ) → IsDistinct xs → IsDistinct (take n xs)
IsDistinct-take n xs d =
    IsDistinct-front (take n xs) (drop n xs) (subst IsDistinct (sym (take-append-drop n xs)) d)

-- Region 1 of `t` is a copy of that of `source` in the first of the frames `xs`: the same pages are
-- valid, with the same protection and the same bytes, and no frame outside `xs` has changed.
pub record IsCopy (source t : PageTable) (frames frames' : ℕ → ℕ → ℕ) (xs : List ℕ) : Type 0 where
  pub same_valid : (q : ℕ) → q < 128 → (t q).valid ≡ (source q).valid
  pub same_prot : (q : ℕ) → q < 128 → (source q).valid ≡ true → (t q).prot ≡ (source q).prot
  pub same_bytes :
      (q o : ℕ)
      → q < 128
      → (source q).valid ≡ true
      → o < page_size
      → frames' (t q).pfn o ≡ frames (source q).pfn o
  pub first_frames : frames_of t 0 128 ≡ take (length (frames_of source 0 128)) xs
  pub others : (f o : ℕ) → has f xs ≡ false → frames' f o ≡ frames f o

-- The pages can be read, and none of their frames is free.
pub record IsOwned (source : PageTable) (xs : List ℕ) : Type 0 where
  pub reads : (i : ℕ) → i < 128 → (source i).valid ≡ true → readable (source i) ≡ true
  pub not_free : (i : ℕ) → i < 128 → (source i).valid ≡ true → has (source i).pfn xs ≡ false

taken-has :
    (source t : PageTable) (xs : List ℕ) (k i : ℕ)
    → frames_of t 0 128 ≡ take k xs
    → TakenFor source 0 128 create_region_1_page_table t
    → i < 128
    → (source i).valid ≡ true
    → has (t i).pfn xs ≡ true
taken-has source t xs k i given taken lt v =
    let valid : (t i).valid ≡ true = ground (arith, taken i) in
    has-take (t i).pfn k xs (
      subst (λ zs. has (t i).pfn zs ≡ true) given
        (frames_of-has t 0 128 i (omega arith) (omega arith) valid))

pub taken-IsApart :
    (source t : PageTable) (xs : List ℕ) (k : ℕ)
    → IsOwned source xs
    → IsDistinct xs
    → frames_of t 0 128 ≡ take k xs
    → TakenFor source 0 128 create_region_1_page_table t
    → IsApart false source t 128
taken-IsApart source t xs k own_pages d given taken =
    let valid : (i : ℕ) → i < 128 → (source i).valid ≡ true → (t i).valid ≡ true =
      λ i h c. ground (arith, taken i) in
    record {
      reads = own_pages.reads;
      writes = λ i h c. ground (arith, taken i);
      apart = λ i j h g c e.
          ground (arith, own_pages.not_free i h c, taken-has source t xs k j given taken g e);
      different = λ i j h g c e.
          frames_of-different t 0 128 i j (subst IsDistinct (sym given) (IsDistinct-take k xs d))
            (omega arith) (omega arith) (omega arith) (omega arith) (valid i h c) (valid j g e);
    }

pub taken-IsCopy :
    (source t : PageTable) (frames frames' : ℕ → ℕ → ℕ) (xs : List ℕ)
    → frames_of t 0 128 ≡ take (length (frames_of source 0 128)) xs
    → TakenFor source 0 128 create_region_1_page_table t
    → AllCopied false source t 128 frames frames'
    → IsCopy source (copy_prots source t) frames frames' xs
taken-IsCopy source t frames frames' xs given taken (all, other) = record {
  same_valid = λ q h. ground (arith, taken q);
  same_prot = λ q h v. ground arith;
  same_bytes = λ q o h v small. ground (arith, all q o h v small);
  first_frames =
      frames_of-agree t (copy_prots source t) 0 128 (λ q. (ground arith, ground arith)) ∙ given;
  others = λ f o out.
      other f
        (λ i h v.
          ground (arith, taken-has source t xs (length (frames_of source 0 128)) i given taken h v))
        o;
}
