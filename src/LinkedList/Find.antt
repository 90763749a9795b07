-- ===== src/LinkedList/Find.antt =====
-- Looking for an id, in the table or along the links.
use mathlib.Core.Path.{subst}
use theynix.Base.{
  ℕ, zero, suc, ◌<◌, ◌≡◌, ◌≢◌, inl, inr, refl, Bool, true, false, ◌==◌, Option, none, some, List,
  [], ◌∷◌, arith, if◌then◌else◌, Bool-cases, Option-cases, length, find_by, has, is_empty,
}
use theynix.LinkedList.{
  list_find_from_hash_table, list_empty, list_find_by_id, list_find_node_by_id, scan, Memory,
  NodeList, has_table,
}
use theynix.LinkedList.Holds.{
  IsList, length-Holds, entries, find_by-entries, Holds, content_or_null, entry_id, IsLinked,
}
use theynix.LinkedList.Chain.{Forward, Forward-live}
use theynix.LinkedList.Table.{find_by-has, or_null}
use theynix.LinkedList.Hash.{list_find_from_hash_table-eq}

-- The first element whose key passes a test.
abbrev pub first_that {ℓ} : {A : Type ℓ} (key : A → ℕ) (test : ℕ → Bool) → List A → Option A
first_that key test [] = none
first_that key test (x ∷ xs) = if test (key x) then some x else first_that key test xs

pub first_that-find_by {ℓ} :
    {A : Type ℓ} (key : A → ℕ) (i : ℕ) (xs : List A)
    → first_that key (λ k. k == i) xs ≡ find_by key i xs
first_that-find_by key i [] = refl
first_that-find_by key i (x ∷ xs) = ground (arith, first_that-find_by key i xs)

pub scan-eq :
    (fuel : ℕ) (test : ℕ → Bool) (l : NodeList) (p : ℕ) (m : Memory) (ns : List ℕ)
    → Forward m l.sentinel p ns
    → has l.sentinel ns ≡ false
    → length ns < fuel
    → scan fuel test l p m ≡ some (or_null (first_that m.id test ns))
unfolding scan
scan-eq zero test l p m ns f out le = absurd (omega arith)
scan-eq (suc fuel) test l p m [] f out le = rw f (ground arith)
scan-eq (suc fuel) test l p m (a ∷ ns) f out le =
    let rest = scan-eq fuel test l (m.next a) m ns f.2 (ground arith) (omega arith) in
    rw (f.0) (ground (arith, rest, f.1))

-- The list is empty just when there is no node.
pub list_empty-eq :
    (m : Memory) (l : NodeList) (ns : List ℕ) → IsLinked m l ns → list_empty l ≡ is_empty ns
unfolding list_empty
list_empty-eq m l [] k = ground (arith, k.forward)
list_empty-eq m l (a ∷ ns) k = ground (arith, k.forward.0, k.end_out)

pub list_find_node_by_id-eq :
    (fuel : ℕ) (l : NodeList) (id : ℕ) (m : Memory) (ns : List ℕ)
    → length ns < fuel
    → IsLinked m l ns
    → list_find_node_by_id fuel l id m ≡ some (or_null (find_by m.id id ns))
unfolding list_find_node_by_id
list_find_node_by_id-eq fuel l id m [] le k = ground (arith, list_empty-eq m l [] k)
list_find_node_by_id-eq fuel l id m (a ∷ ns) le k =
    let found = scan-eq fuel (λ i. i == id) l l.head m (a ∷ ns) k.forward k.end_out le in
    ground (arith, list_empty-eq m l (a ∷ ns) k, found, first_that-find_by m.id id (a ∷ ns))

-- A node that is found is a node.
pub found_live :
    (m : Memory) (l : NodeList) (id a : ℕ) (ns : List ℕ)
    → IsLinked m l ns
    → find_by m.id id ns ≡ some a
    → (m.live a ≡ true) × (a ≢ 0)
found_live m l id a ns k e =
    let live = Forward-live m l.sentinel l.head a ns k.forward (find_by-has m.id id a ns e) in
    (live, ground (arith, k.null))

-- The first entry with the id is that of the first node with it.
pub find_by-Holds :
    (m : Memory) (id : ℕ) (ns : List ℕ) (xs : List (ℕ × ℕ))
    → entries m ns ≡ xs
    → content_or_null (find_by entry_id id xs)
      ≡ elim (find_by m.id id ns) [ none ↦ 0 | some a ↦ m.content a ]
find_by-Holds m id ns xs same =
    subst
      (λ ys.
        content_or_null (find_by entry_id id ys)
        ≡ elim (find_by m.id id ns) [ none ↦ 0 | some a ↦ m.content a ])
      same (ground (arith, find_by-entries m id ns, Option-cases (find_by m.id id ns)))

found_node :
    (fuel : ℕ) (l : NodeList) (id : ℕ) (m : Memory) (ns : List ℕ)
    → length ns < fuel
    → IsList m l ns
    → (if has_table l
        then list_find_from_hash_table fuel l id m
        else list_find_node_by_id fuel l id m)
      ≡ some (or_null (find_by m.id id ns))
found_node fuel l id m ns le (k, t) = elim (Bool-cases (has_table l)) [
  | inl sized ↦
      ground
        (arith, list_find_from_hash_table-eq fuel l id m ns sized k.null k.distinct le (t sized))
  | inr plain ↦ ground (arith, list_find_node_by_id-eq fuel l id m ns le k)
]

-- ListFindById finds the content of the first entry with the id, or NULL, with a table or without.
pub list_find_by_id-Holds :
    (fuel : ℕ) (l : NodeList) (id : ℕ) (m : Memory) (xs : List (ℕ × ℕ))
    → length xs < fuel
    → Holds m l xs
    → list_find_by_id fuel l id m ≡ some (content_or_null (find_by entry_id id xs))
unfolding list_find_by_id
list_find_by_id-Holds fuel l id m xs le (ns, (k, t), same) =
    let node = found_node fuel l id m ns (omega (arith, length-Holds m ns xs same)) (k, t) in
    let spec = find_by-Holds m id ns xs same in
    elim (Option-cases (find_by m.id id ns)) [
      | inl absent ↦ ground (arith, node, spec)
      | inr (a, found) ↦ ground (arith, node, spec, found_live m l id a ns k found)
    ]
