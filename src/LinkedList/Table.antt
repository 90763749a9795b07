-- ===== src/LinkedList/Table.antt =====
-- The hash table of a list: each node is in the bucket of its id, and in no other.
use theynix.Base.{
  ℕ, ◌≤◌, ◌≡◌, ◌≢◌, ◌∙◌, inl, inr, refl, sym, ap, true, not, ◌&&◌, ◌==◌, Option, none, some, List,
  [], ◌∷◌, ◌++◌, arith, Bool-cases, Option-cases, length, IsDistinct, IsDistinct-remove, find_by,
  find_by-key, has, has-remove, length-remove, remove, remove_by,
}
use theynix.LinkedList.{Memory, NodeList, bucket_of}

-- From `p` the collisions lead through the nodes `ns` to NULL.
abbrev pub Bucket : Memory → (p : ℕ) → List ℕ → Type 0
Bucket m p [] = p ≡ 0
Bucket m p (a ∷ ns) = (p ≡ a) × (m.live a ≡ true) × Bucket m (m.hash_collission_next a) ns

-- The nodes `ns` are just those in the buckets, and their ids are all different.
pub record IsTable (m : Memory) (l : NodeList) (ns : List ℕ) : Type 0 where
  pub bucket : ℕ → List ℕ
  pub linked : (i : ℕ) → Bucket m (l.hash_table i) (bucket i)
  pub members : (i a : ℕ) → has a (bucket i) ≡ (has a ns && bucket_of l (m.id a) == i)
  pub unique : (a b : ℕ) → has a ns ≡ true → has b ns ≡ true → m.id a ≡ m.id b → a ≡ b
  pub distinct : (i : ℕ) → IsDistinct (bucket i)

abbrev pub or_null : Option ℕ → ℕ
or_null none = 0
or_null (some a) = a

pub find_by-has :
    (key : ℕ → ℕ) (i a : ℕ) (ns : List ℕ) → find_by key i ns ≡ some a → has a ns ≡ true
find_by-has key i a [] e = cc
find_by-has key i a (b ∷ ns) e = ground (arith, find_by-has key i a ns)

pub find_by-none :
    (key : ℕ → ℕ) (i a : ℕ) (ns : List ℕ) → find_by key i ns ≡ none → has a ns ≡ true → key a ≢ i
find_by-none key i a [] e h = cc
find_by-none key i a (b ∷ ns) e h = ground (arith, find_by-none key i a ns)

-- Where keys are different, only membership counts.
pub find_by-agree :
    (key : ℕ → ℕ) (i : ℕ) (xs ns : List ℕ)
    → ((a : ℕ) → has a xs ≡ true → has a ns ≡ true)
    → ((a : ℕ) → has a ns ≡ true → key a ≡ i → has a xs ≡ true)
    → ((a b : ℕ) → has a ns ≡ true → has b ns ≡ true → key a ≡ key b → a ≡ b)
    → find_by key i xs ≡ find_by key i ns
find_by-agree key i xs ns sub all unique = elim (Option-cases (find_by key i xs)) [
  | inl no_x ↦ elim (Option-cases (find_by key i ns)) [
    | inl no_a ↦ no_x ∙ sym no_a
    | inr (a, found) ↦
        let mem = find_by-has key i a ns found in
        let at = find_by-key key i ns a found in
        absurd (find_by-none key i a xs no_x (all a mem at) at)
  ]
  | inr (x, found_x) ↦
      let mem_x = sub x (find_by-has key i x xs found_x) in
      let at_x = find_by-key key i xs x found_x in
      elim (Option-cases (find_by key i ns)) [
        | inl no_a ↦ absurd (find_by-none key i x ns no_a mem_x at_x)
        | inr (a, found) ↦
            let mem = find_by-has key i a ns found in
            let at = find_by-key key i ns a found in
            let same : x ≡ a = unique x a mem_x mem (at_x ∙ sym at) in
            found_x ∙ ap some same ∙ sym found
      ]
]

-- Different elements of a list are no more than its elements.
pub length-le :
    (xs ns : List ℕ)
    → IsDistinct xs
    → IsDistinct ns
    → ((a : ℕ) → has a xs ≡ true → has a ns ≡ true)
    → length xs ≤ length ns
length-le [] ns dx da sub = omega arith
length-le (x ∷ xs) ns dx da sub =
    let rest =
      length-le xs (remove x ns) dx.1 (IsDistinct-remove x ns da)
        (λ a h. ground (arith, has-remove x a ns da, sub a)) in
    ground (arith, rest, length-remove x ns, sub x)

pub has-remove_by-le :
    (key : ℕ → ℕ) (i a : ℕ) (ns : List ℕ) → has a (remove_by key i ns) ≡ true → has a ns ≡ true
has-remove_by-le key i a [] h = cc
has-remove_by-le key i a (x ∷ ns) h = ground (arith, has-remove_by-le key i a ns)

pub IsDistinct-remove_by :
    (key : ℕ → ℕ) (i : ℕ) (ns : List ℕ) → IsDistinct ns → IsDistinct (remove_by key i ns)
IsDistinct-remove_by key i [] d = tt
IsDistinct-remove_by key i (x ∷ ns) d = elim (Bool-cases (key x == i)) [
  | inl hit ↦ rw hit (d.1)
  | inr miss ↦
      rw miss (ground (arith, has-remove_by-le key i x ns), IsDistinct-remove_by key i ns d.1)
]

-- Where keys are different, removing a key removes just the element that has it.
pub has-remove_by :
    (key : ℕ → ℕ) (i a : ℕ) (ns : List ℕ)
    → IsDistinct ns
    → ((a b : ℕ) → has a ns ≡ true → has b ns ≡ true → key a ≡ key b → a ≡ b)
    → has a (remove_by key i ns) ≡ (has a ns && not (key a == i))
has-remove_by key i a [] d unique = refl
has-remove_by key i a (x ∷ ns) d unique =
    let rest =
      has-remove_by key i a ns d.1 (λ b c hb hc e. unique b c (ground arith) (ground arith) e) in
    ground (arith, rest, unique a x)

pub remove_by-none :
    (key : ℕ → ℕ) (i : ℕ) (ns : List ℕ) → find_by key i ns ≡ none → remove_by key i ns ≡ ns
remove_by-none key i [] e = refl
remove_by-none key i (x ∷ ns) e = ground (arith, remove_by-none key i ns)

-- Where no node of a list has an id, none is found.
pub find_by-absent :
    (key : ℕ → ℕ) (i : ℕ) (ns : List ℕ)
    → ((a : ℕ) → has a ns ≡ true → key a ≢ i)
    → find_by key i ns ≡ none
find_by-absent key i [] other = refl
find_by-absent key i (x ∷ ns) other =
    let rest = find_by-absent key i ns (λ a h. other a (ground arith)) in
    ground (arith, rest, other x)

-- Where an element found stands, and what its removal leaves.
pub find_by-split :
    (key : ℕ → ℕ) (i a : ℕ) (ns : List ℕ)
    → find_by key i ns ≡ some a
    → (before : List ℕ) × (after : List ℕ) × (ns ≡ before ++ (a ∷ after))
      × (remove_by key i ns ≡ before ++ after)
find_by-split key i a [] e = cc
find_by-split key i a (x ∷ ns) e = elim (Bool-cases (key x == i)) [
  | inl hit ↦ ([], ns, ground arith, ground arith)
  | inr miss ↦
      let (before, after, whole, less) = find_by-split key i a ns (ground arith) in
      (x ∷ before, after, ground (arith, whole), ground (arith, less))
]
