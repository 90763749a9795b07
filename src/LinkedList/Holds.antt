-- ===== src/LinkedList/Holds.antt =====
-- What it is for a memory and a struct List to hold a list of entries, each an id and a content.
use mathlib.Core.Option
use theynix.Base.{
  ℕ, ◌≡◌, ◌∙◌, inl, inr, refl, sym, ap, true, false, ◌==◌, Option, none, some, List, [], ◌∷◌, ◌++◌,
  arith, Bool-cases, length, IsDistinct, find_by, has, remove_by,
}
use theynix.LinkedList.{Memory, NodeList, has_table}
use theynix.LinkedList.Chain.{BackAll, BackAll-frame, Forward-frame, Forward}
use theynix.LinkedList.Table.{IsTable}

-- The links of a list through the nodes `ns`, without the hash table.
pub record IsLinked (m : Memory) (l : NodeList) (ns : List ℕ) : Type 0 where
  pub forward : Forward m l.sentinel l.head ns
  pub back : BackAll m (ns ++ (l.sentinel ∷ []))
  pub end_live : m.live l.sentinel ≡ true
  pub end_null : m.content l.sentinel ≡ 0
  pub end_out : has l.sentinel ns ≡ false
  pub distinct : IsDistinct ns
  pub null : m.live 0 ≡ false

abbrev pub IsList : Memory → NodeList → List ℕ → Type 0
IsList m l ns = IsLinked m l ns × (has_table l ≡ true → IsTable m l ns)

-- The entries at nodes.
abbrev pub entries : Memory → List ℕ → List (ℕ × ℕ)
entries m [] = []
entries m (a ∷ ns) = (m.id a, m.content a) ∷ entries m ns

-- The list's nodes, in the order of the links, carry the entries `xs`.
abbrev pub Holds : Memory → NodeList → List (ℕ × ℕ) → Type 0
Holds m l xs = (ns : List ℕ) × IsList m l ns × (entries m ns ≡ xs)

abbrev pub entry_id : ℕ × ℕ → ℕ
entry_id e = e.0

abbrev pub content_or_null : Option (ℕ × ℕ) → ℕ
content_or_null none = 0
content_or_null (some e) = e.1

pub entries-frame :
    (m m' : Memory) (ns : List ℕ)
    → ((a : ℕ) → has a ns ≡ true → (m'.id a ≡ m.id a) × (m'.content a ≡ m.content a))
    → entries m' ns ≡ entries m ns
entries-frame m m' [] same = refl
entries-frame m m' (a ∷ ns) same =
    let (i, c) = same a (ground arith) in
    rw i (rw c (rw (entries-frame m m' ns (λ b h. same b (ground arith)))))

pub entries-append :
    (m : Memory) (xs ys : List ℕ) → entries m (xs ++ ys) ≡ entries m xs ++ entries m ys
entries-append m [] ys = refl
entries-append m (x ∷ xs) ys = rw (entries-append m xs ys)

pub length-entries : (m : Memory) (ns : List ℕ) → length (entries m ns) ≡ length ns
length-entries m [] = refl
length-entries m (a ∷ ns) = rw (length-entries m ns)

pub length-Holds :
    (m : Memory) (ns : List ℕ) (xs : List (ℕ × ℕ)) → entries m ns ≡ xs → length ns ≡ length xs
length-Holds m ns xs same = sym (length-entries m ns) ∙ ap length same

-- Finding and removing by id is the same on the nodes and on their entries.
pub find_by-entries :
    (m : Memory) (id : ℕ) (ns : List ℕ)
    → find_by entry_id id (entries m ns)
      ≡ Option.map (λ a. (m.id a, m.content a)) (find_by m.id id ns)
find_by-entries m id [] = refl
find_by-entries m id (a ∷ ns) = ground (arith, find_by-entries m id ns)

pub remove_by-entries :
    (m : Memory) (id : ℕ) (ns : List ℕ)
    → remove_by entry_id id (entries m ns) ≡ entries m (remove_by m.id id ns)
remove_by-entries m id [] = refl
remove_by-entries m id (a ∷ ns) = elim (Bool-cases (m.id a == id)) [
  | inl hit ↦ rw hit
  | inr miss ↦ rw miss (rw (remove_by-entries m id ns))
]

-- The links and contents of a list do not depend on the fields of the hash table.
pub IsLinked-frame :
    (m m' : Memory) (l l' : NodeList) (ns : List ℕ)
    → l'.sentinel ≡ l.sentinel
    → l'.head ≡ l.head
    → m'.live ≡ m.live
    → m'.next ≡ m.next
    → m'.prev ≡ m.prev
    → m'.content ≡ m.content
    → IsLinked m l ns
    → IsLinked m' l' ns
IsLinked-frame m m' l l' ns s h v n p c k = record {
  forward = rw s (
      rw h (
        Forward-frame m m' l.sentinel l.head ns (λ a i. (ap (λ f. f a) n, ap (λ f. f a) v))
          k.forward));
  back = rw s (BackAll-frame m m' (ns ++ (l.sentinel ∷ [])) (λ a i. ap (λ f. f a) p) k.back);
  end_live = rw s (rw v (k.end_live));
  end_null = rw s (rw c (k.end_null));
  end_out = rw s (k.end_out);
  distinct = k.distinct;
  null = rw v (k.null);
}
