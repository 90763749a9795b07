-- ===== src/LinkedList/Take.antt =====
-- Taking the first node out.
use mathlib.Core.Path.{subst}
use theynix.Base.{
  ℕ, ◌<◌, ◌≡◌, ◌∙◌, inl, inr, refl, true, false, some, List, [], ◌∷◌, ◌++◌, arith, Bool-cases,
  length, update, IsDistinct, has, has-append, remove_by,
}
use theynix.LinkedList.{
  list_dequeue, list_empty, free_node, drop_head, drop_if_table, Memory, NodeList, has_table,
}
use theynix.LinkedList.Holds.{
  Holds, IsLinked-frame, IsList, length-entries, entries, entries-frame, IsLinked,
}
use theynix.LinkedList.Hash.{IsTable-frame, list_remove_from_hash_table-IsTable}
use theynix.LinkedList.Table.{IsTable}
use theynix.LinkedList.Chain.{Back-frame, BackAll, Forward-frame, Forward-live_first}

-- Removing an id from the table, if there is one.
pub drop_if_table-eq :
    (fuel : ℕ) (l : NodeList) (id : ℕ) (m : Memory) (ns : List ℕ)
    → m.live 0 ≡ false
    → IsDistinct ns
    → length ns < fuel
    → (has_table l ≡ true → IsTable m l ns)
    → (table : ℕ → ℕ) × (collissions : ℕ → ℕ) × (drop_if_table fuel l id m
        ≡ some (record l { hash_table = table }, record m { hash_collission_next = collissions }))
      × (has_table l ≡ true
          → IsTable
              (record m { hash_collission_next = collissions })
              (record l { hash_table = table })
              (remove_by m.id id ns))
unfolding drop_if_table
drop_if_table-eq fuel l id m ns null d le t = elim (Bool-cases (has_table l)) [
  | inl sized ↦
      let (table, collissions, run, t', same) =
        list_remove_from_hash_table-IsTable fuel l id m ns sized null d le (t sized) in
      (table, collissions, ground (arith, run), λ _. t')
  | inr plain ↦ (l.hash_table, m.hash_collission_next, ground arith, λ sized. absurd (ground arith))
]

-- The list without its first node `a`, and what it keeps of the other nodes.
abbrev IsRest : Memory → (a : ℕ) → List ℕ → NodeList × Memory → NodeList → Type 0
IsRest m a ns (l', m') l =
    IsLinked m' l' ns
    × (l'.hash_table ≡ l.hash_table)
    × (l'.hash_table_size ≡ l.hash_table_size)
    × ((b : ℕ)
        → has b ns ≡ true
        → (m'.hash_collission_next b ≡ m.hash_collission_next b)
          × (m'.live b ≡ m.live b)
          × (m'.id b ≡ m.id b))
    × (entries m' ns ≡ entries m ns)

-- The memory when the first node is unlinked and freed.
abbrev dropped : NodeList → Memory → (a : ℕ) → Memory
dropped l m a = free_node a (record m { prev = update m.prev (m.next a) l.sentinel })

dropped-BackAll :
    (l : NodeList) (m : Memory) (a : ℕ) (ns : List ℕ)
    → IsLinked m l (a ∷ ns)
    → BackAll (dropped l m a) (ns ++ (l.sentinel ∷ []))
dropped-BackAll l m a [] k = tt
dropped-BackAll l m a (b ∷ ns) k =
    let (f, g, f2) = k.forward in
    let d = k.distinct.1.0 in
    let o = k.end_out in
    Back-frame m (dropped l m a) b (ns ++ (l.sentinel ∷ []))
      (λ c mem. ground (arith, has-append c ns (l.sentinel ∷ []))) (k.back.1)

-- Unlinking and freeing the first node.
drop_head-IsRest :
    (l : NodeList) (m : Memory) (a : ℕ) (ns : List ℕ)
    → IsLinked m l (a ∷ ns)
    → (l' : NodeList) × (m' : Memory) × (drop_head (l, m) ≡ some (m.content a, l', m'))
      × IsRest m a ns (l', m') l
unfolding drop_head
drop_head-IsRest l m a ns k =
    let m' = dropped l m a in
    let s = l.sentinel in
    let (first, live, rest) = k.forward in
    let next_live = Forward-live_first m s (m.next a) ns k.end_live rest in
    let d = k.distinct.0 in
    let o = k.end_out in
    (
      record l { head = m.next a },
      m',
      ground arith,
      (
        record {
          forward = Forward-frame m m' s (m.next a) ns (λ b h. (refl, ground arith)) rest;
          back = dropped-BackAll l m a ns k;
          end_live = ground (arith, k.end_live);
          end_null = k.end_null;
          end_out = ground arith;
          distinct = k.distinct.1;
          null = ground (arith, k.null);
        },
        refl,
        refl,
        λ b h. (refl, ground arith, refl),
        entries-frame m m' ns (λ b h. (refl, refl)),
      ),
    )

-- ListDequeue, where the table may have lost the first node already.
pub list_dequeue-IsList :
    (fuel : ℕ) (l : NodeList) (m : Memory) (a : ℕ) (ns ks : List ℕ)
    → IsLinked m l (a ∷ ns)
    → IsDistinct ks
    → length ks < fuel
    → remove_by m.id (m.id a) ks ≡ ns
    → (has_table l ≡ true → IsTable m l ks)
    → (l' : NodeList) × (m' : Memory) × (list_dequeue fuel l m ≡ some (m.content a, l', m'))
      × IsList m' l' ns
      × (entries m' ns ≡ entries m ns)
unfolding list_dequeue list_empty
list_dequeue-IsList fuel l m a ns ks k d le less t =
    let (table, collissions, run1, t1) = drop_if_table-eq fuel l (m.id a) m ks k.null d le t in
    let l1 = record l { hash_table = table } in
    let m1 = record m { hash_collission_next = collissions } in
    let k1 = IsLinked-frame m m1 l l1 (a ∷ ns) refl refl refl refl refl refl k in
    let (l', m', run2, (k2, table2, size2, same2, kept)) = drop_head-IsRest l1 m1 a ns k1 in
    let (first, live, rest) = k.forward in
    (
      l',
      m',
      ground (arith, k.end_out),
      (
        k2,
        λ sized.
            IsTable-frame m1 m' l1 l' ns table2 size2 same2
              (subst (λ zs. IsTable m1 l1 zs) less (t1 (ground arith))),
      ),
      kept ∙ entries-frame m m1 ns (λ b h. (refl, refl)),
    )

-- ListDequeue takes the first entry.
pub list_dequeue-Holds :
    (fuel : ℕ) (l : NodeList) (m : Memory) (e : ℕ × ℕ) (xs : List (ℕ × ℕ))
    → length (e ∷ xs) < fuel
    → Holds m l (e ∷ xs)
    → (l' : NodeList) × (m' : Memory) × (list_dequeue fuel l m ≡ some (e.1, l', m'))
      × Holds m' l' xs
list_dequeue-Holds fuel l m e xs le ([], k, same) = cc
list_dequeue-Holds fuel l m e xs le (a ∷ ns, (k, t), same) =
    let sizes = length-entries m ns in
    let first : (m.content a ≡ e.1) × (entries m ns ≡ xs) = ground arith in
    let (l', m', run, k', kept) =
      list_dequeue-IsList fuel l m a ns (a ∷ ns) k k.distinct (ground (arith, first)) (ground arith)
        t in
    (l', m', ground (arith, run, first), (ns, k', kept ∙ first.1))

-- From the empty list ListDequeue takes NULL and changes nothing.
pub list_dequeue-empty :
    (fuel : ℕ) (l : NodeList) (m : Memory) → Holds m l [] → list_dequeue fuel l m ≡ some (0, l, m)
unfolding list_dequeue list_empty
list_dequeue-empty fuel l m ([], (k, t), same) = ground (arith, k.forward)
list_dequeue-empty fuel l m (a ∷ ns, k, same) = cc
