-- ===== src/LinkedList/Remove.antt =====
-- Taking out the entry of an id, and the first entry whose id is not too large.
use mathlib.Core.Path.{subst}
use mathlib.Core.Option
use theynix.Base.{
  ℕ, ◌<◌, ◌≡◌, ◌≢◌, ◌∙◌, inl, inr, refl, sym, ap, Bool, true, false, none, some, List, [], ◌∷◌,
  ◌++◌, arith, if◌then◌else◌, Bool-cases, Option-cases, length, IsDistinct, find_by, find_by-key,
  has, has-append, length-append, remove_by,
}
use theynix.LinkedList.{
  list_find_node_by_id, list_remove_by_id, list_remove_from_hash_table, unlink_node, Memory,
  NodeList, has_table,
}
use theynix.LinkedList.Holds.{
  Holds, content_or_null, entry_id, length-Holds, remove_by-entries, IsLinked-frame, IsList,
  entries, entries-frame, IsLinked,
}
use theynix.LinkedList.Hash.{list_remove_from_hash_table-IsTable, IsTable-frame}
use theynix.LinkedList.Unlink.{
  IsDistinct-append, IsDistinct-split, unlinked, unlinked-IsLinked, unlinked-live,
}
use theynix.LinkedList.Table.{
  find_by-absent, find_by-has, remove_by-none, or_null, find_by-split, IsTable,
}
use theynix.LinkedList.Take.{list_dequeue-IsList}
use theynix.LinkedList.Find.{find_by-Holds, list_find_node_by_id-eq}

-- The branches of ListRemoveById once the node `a` is found, where the table, if there is one, has
-- the nodes `ks`.
unlink_node-IsList :
    (fuel : ℕ) (l : NodeList) (m : Memory) (a : ℕ) (before after ks : List ℕ)
    → IsLinked m l (before ++ (a ∷ after))
    → IsDistinct ks
    → length ks < fuel
    → remove_by m.id (m.id a) ks ≡ before ++ after
    → (has_table l ≡ true → ks ≡ before ++ after)
    → (has_table l ≡ true → IsTable m l ks)
    → (l' : NodeList) × (m' : Memory) × (unlink_node fuel a l m ≡ some (m.content a, l', m'))
      × IsList m' l' (before ++ after)
      × (entries m' (before ++ after) ≡ entries m (before ++ after))
unfolding unlink_node
unlink_node-IsList fuel l m a [] after ks k d le less table t =
    let (l', m', run, held, kept) = list_dequeue-IsList fuel l m a after ks k d le less t in
    (l', m', ground (arith, run, k.forward, k.null), held, kept)
unlink_node-IsList fuel l m a (b ∷ bs) after ks k d le less table t =
    let m' = unlinked m a in
    let (live, live_before, live_after, inner) = unlinked-live m l b a bs after k in
    let (e, f, apart) = IsDistinct-split (b ∷ bs) (a ∷ after) k.distinct in
    let out : (c : ℕ) → has c ((b ∷ bs) ++ after) ≡ true → c ≢ a =
      λ c mem. ground (arith, has-append c (b ∷ bs) after, apart a, f.0) in
    (
      l,
      m',
      ground (arith, k.null, live, live_before, live_after, inner),
      (
        unlinked-IsLinked m l b a bs after k,
        λ sized.
            IsTable-frame m m' l l ((b ∷ bs) ++ after) refl refl
              (λ c mem. (refl, ground (arith, out c mem), refl))
              (subst (λ zs. IsTable m l zs) (table sized) (t sized)),
      ),
      entries-frame m m' ((b ∷ bs) ++ after) (λ c mem. (refl, refl)),
    )

-- What ListRemoveById works on once it has looked: the node or NULL, and the table without it.
looked_for :
    (fuel : ℕ) (l : NodeList) (id : ℕ) (m : Memory) (ns : List ℕ)
    → length ns < fuel
    → IsList m l ns
    → (table : ℕ → ℕ) × (collissions : ℕ → ℕ) × ((if has_table l
          then list_remove_from_hash_table fuel l id m
          else Option.map (λ node. (node, l, m)) (list_find_node_by_id fuel l id m))
        ≡ some (
          or_null (find_by m.id id ns),
          record l { hash_table = table },
          record m { hash_collission_next = collissions },
        ))
      × (has_table l ≡ true
          → IsTable
              (record m { hash_collission_next = collissions })
              (record l { hash_table = table })
              (remove_by m.id id ns))
looked_for fuel l id m ns le (k, t) = elim (Bool-cases (has_table l)) [
  | inl sized ↦
      let (table, collissions, run, t', same) =
        list_remove_from_hash_table-IsTable fuel l id m ns sized k.null k.distinct le (t sized) in
      (table, collissions, ground (arith, run), λ _. t')
  | inr plain ↦ (
    l.hash_table,
    m.hash_collission_next,
    ground (arith, list_find_node_by_id-eq fuel l id m ns le k),
    λ sized. absurd (ground arith),
  )
]

-- The nodes that the table has when the node `a` is unlinked: all others. Without a table it does
-- not matter.
table_nodes :
    (fuel : ℕ) (l : NodeList) (m : Memory) (a : ℕ) (before after : List ℕ) (sized : Bool)
    → IsLinked m l (before ++ (a ∷ after))
    → length (before ++ (a ∷ after)) < fuel
    → remove_by m.id (m.id a) (before ++ (a ∷ after)) ≡ before ++ after
    → (sized ≡ true → (c : ℕ) → has c (before ++ (a ∷ after)) ≡ true → m.id c ≡ m.id a → c ≡ a)
    → (ks : List ℕ) × IsDistinct ks
      × (length ks < fuel)
      × (remove_by m.id (m.id a) ks ≡ before ++ after)
      × (sized ≡ true → ks ≡ before ++ after)
table_nodes fuel l m a before after false k le less unique =
    (before ++ (a ∷ after), k.distinct, le, less, λ sized. cc)
table_nodes fuel l m a before after true k le less unique =
    let (d, e, apart) = IsDistinct-split before (a ∷ after) k.distinct in
    let absent : find_by m.id (m.id a) (before ++ after) ≡ none =
      find_by-absent m.id (m.id a) (before ++ after) (λ c mem same. ground (
        arith,
        unique refl c,
        has-append c before after,
        has-append c before (a ∷ after),
        apart a,
        e.0,
      )) in
    (
      before ++ after,
      IsDistinct-append before after d e.1 (λ c mem. ground (arith, apart c)),
      omega (arith, length-append before (a ∷ after), length-append before after, le),
      remove_by-none m.id (m.id a) (before ++ after) absent,
      λ sized. refl,
    )

-- The first entry with an id is gone, and nothing else.
removed_found :
    (fuel : ℕ) (l : NodeList) (id : ℕ) (m : Memory) (ns : List ℕ) (a : ℕ)
    → length ns < fuel
    → IsList m l ns
    → find_by m.id id ns ≡ some a
    → (l' : NodeList) × (m' : Memory) × (list_remove_by_id fuel l id m ≡ some (m.content a, l', m'))
      × IsList m' l' (remove_by m.id id ns)
      × (entries m' (remove_by m.id id ns) ≡ entries m (remove_by m.id id ns))
unfolding list_remove_by_id
removed_found fuel l id m ns a le (k, t) found =
    let (table, collissions, run, t1) = looked_for fuel l id m ns le (k, t) in
    let l1 = record l { hash_table = table } in
    let m1 = record m { hash_collission_next = collissions } in
    let (before, after, whole, less) = find_by-split m.id id a ns found in
    let at = find_by-key m.id id ns a found in
    let k0 = subst (λ zs. IsLinked m l zs) whole k in
    let k1 = IsLinked-frame m m1 l l1 (before ++ (a ∷ after)) refl refl refl refl refl refl k0 in
    let less0 : remove_by m.id (m.id a) (before ++ (a ∷ after)) ≡ before ++ after =
      subst (λ zs. remove_by m.id (m.id a) zs ≡ before ++ after) whole
        (subst (λ i. remove_by m.id i ns ≡ before ++ after) (sym at) less) in
    let mem = find_by-has m.id id a ns found in
    let (ks, d, short, less1, all) =
      table_nodes fuel l m a before after (has_table l) k0 (subst (λ zs. length zs < fuel) whole le)
        less0
        (λ sized c h e. (t sized).unique c a (subst (λ zs. has c zs ≡ true) (sym whole) h) mem e) in
    let (l', m', run2, held, kept) =
      unlink_node-IsList fuel l1 m1 a before after ks k1 d short less1 all
        (λ sized. subst (λ zs. IsTable m1 l1 zs) (less ∙ sym (all sized)) (t1 sized)) in
    (
      l',
      m',
      ground (arith, run, run2, found),
      subst (λ zs. IsList m' l' zs) (sym less) held,
      subst (λ zs. entries m' zs ≡ entries m zs) (sym less)
          (kept ∙ entries-frame m m1 (before ++ after) (λ c h. (refl, refl))),
    )

-- ListRemoveById takes out the first entry with the id, or nothing where there is none.
pub list_remove_by_id-Holds :
    (fuel : ℕ) (l : NodeList) (id : ℕ) (m : Memory) (xs : List (ℕ × ℕ))
    → length xs < fuel
    → Holds m l xs
    → (l' : NodeList) × (m' : Memory) × (list_remove_by_id fuel l id m
        ≡ some (content_or_null (find_by entry_id id xs), l', m'))
      × Holds m' l' (remove_by entry_id id xs)
unfolding list_remove_by_id unlink_node
list_remove_by_id-Holds fuel l id m xs le (ns, (k, t), same) =
    let short : length ns < fuel = omega (arith, length-Holds m ns xs same) in
    let spec = find_by-Holds m id ns xs same in
    let rest : entries m (remove_by m.id id ns) ≡ remove_by entry_id id xs =
      sym (remove_by-entries m id ns) ∙ ap (remove_by entry_id id) same in
    elim (Option-cases (find_by m.id id ns)) [
      | inl absent ↦
          let (table, collissions, run, t1) = looked_for fuel l id m ns short (k, t) in
          let l1 = record l { hash_table = table } in
          let m1 = record m { hash_collission_next = collissions } in
          let less = remove_by-none m.id id ns absent in
          (
            l1,
            m1,
            ground (arith, run, absent, spec),
            (
              remove_by m.id id ns,
              (
                IsLinked-frame m m1 l l1 (remove_by m.id id ns) refl refl refl refl refl refl
                    (subst (λ zs. IsLinked m l zs) (sym less) k),
                t1,
              ),
              entries-frame m m1 (remove_by m.id id ns) (λ c h. (refl, refl)) ∙ rest,
            ),
          )
      | inr (a, found) ↦
          let (l', m', run, held, kept) = removed_found fuel l id m ns a short (k, t) found in
          (l', m', ground (arith, run, found, spec), (remove_by m.id id ns, held, kept ∙ rest))
    ]
