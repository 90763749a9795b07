-- ===== src/LinkedList/Grow.antt =====
-- New lists, and putting a node in at the front and at the end.
use mathlib.Core.Path.{subst}
use theynix.Base.{
  ℕ, ◌≡◌, ◌≢◌, ◌∙◌, inl, inr, refl, sym, ap, true, false, ◌||◌, ◌==◌, none, some, List, [], ◌∷◌,
  ◌++◌, arith, Bool-cases, Option-cases, update, IsDistinct-append_one, find_by, has, has-append,
  has-last_of, last_of, last_of-append,
}
use theynix.LinkedList.{
  list_append, list_empty, list_push, new_node, add_if_table, list_new_list, Memory, NodeList,
  has_table,
}
use theynix.LinkedList.Holds.{
  entries-append, find_by-entries, entry_id, Holds, IsLinked-frame, entries, entries-frame,
  IsLinked,
}
use theynix.LinkedList.Hash.{IsTable-frame, list_add_to_hash_table-IsTable}
use theynix.LinkedList.Table.{find_by-none, IsTable}
use theynix.LinkedList.Chain.{
  Forward-live_first, Back-append, Back-split, Forward-append, Forward-relink, Back, Back-frame,
  Forward-frame, Forward-live,
}

-- Putting the new node in the table, if there is one.
add_if_table-eq :
    (l : NodeList) (ln : ℕ) (m : Memory) (ns ns' : List ℕ)
    → m.live ln ≡ true
    → has ln ns ≡ false
    → (has_table l ≡ true → (a : ℕ) → has a ns ≡ true → m.id a ≢ m.id ln)
    → ((a : ℕ) → has a ns' ≡ (a == ln || has a ns))
    → (has_table l ≡ true → IsTable m l ns)
    → (table : ℕ → ℕ) × (collissions : ℕ → ℕ) × (add_if_table l ln m
        ≡ some (record l { hash_table = table }, record m { hash_collission_next = collissions }))
      × (has_table l ≡ true
          → IsTable
              (record m { hash_collission_next = collissions })
              (record l { hash_table = table })
              ns')
unfolding add_if_table
add_if_table-eq l ln m ns ns' live out fresh more t = elim (Bool-cases (has_table l)) [
  | inl sized ↦
      let (table, collissions, run, t', same) =
        list_add_to_hash_table-IsTable l ln m ns ns' sized live out (fresh sized) more (t sized) in
      (table, collissions, ground (arith, run), λ _. t')
  | inr plain ↦ (l.hash_table, m.hash_collission_next, ground arith, λ sized. absurd (ground arith))
]

-- A list of no nodes.
pub list_new_list-Holds :
    (fresh hash_table_size : ℕ) (m : Memory)
    → fresh ≢ 0
    → m.live 0 ≡ false
    → Holds (list_new_list fresh hash_table_size m).1 (list_new_list fresh hash_table_size m).0 []
unfolding list_new_list
list_new_list-Holds fresh hash_table_size m ne null = (
  [],
  (
    record {
      forward = refl;
      back = tt;
      end_live = ground arith;
      end_null = ground arith;
      end_out = refl;
      distinct = tt;
      null = ground arith;
    },
    λ _. record {
      bucket = λ i. [];
      linked = λ i. refl;
      members = λ i a. refl;
      unique = λ a b ha hb e. cc;
      distinct = λ i. tt;
    },
  ),
  refl,
)

-- What holds of the address of a new node.
fresh_out :
    (m : Memory) (l : NodeList) (ns : List ℕ) (fresh : ℕ)
    → m.live fresh ≡ false
    → IsLinked m l ns
    → (has fresh ns ≡ false) × (l.sentinel ≢ fresh)
fresh_out m l ns fresh dead k = (
  ground (arith, Forward-live m l.sentinel l.head fresh ns k.forward),
  ground (arith, k.end_live),
)

-- The list whose links are done, with the new node put in the table.
finish :
    (m m2 : Memory) (l l2 : NodeList) (ns ns2 : List ℕ) (fresh id : ℕ)
    → l2.hash_table ≡ l.hash_table
    → l2.hash_table_size ≡ l.hash_table_size
    → m2.live fresh ≡ true
    → m2.id fresh ≡ id
    → ((a : ℕ)
        → has a ns ≡ true
        → (m2.hash_collission_next a ≡ m.hash_collission_next a)
          × (m2.live a ≡ m.live a)
          × (m2.id a ≡ m.id a))
    → has fresh ns ≡ false
    → (has_table l ≡ true → find_by m.id id ns ≡ none)
    → ((a : ℕ) → has a ns2 ≡ (a == fresh || has a ns))
    → (has_table l ≡ true → IsTable m l ns)
    → IsLinked m2 l2 ns2
    → (l' : NodeList) × (m' : Memory) × (add_if_table l2 fresh m2 ≡ some (l', m'))
      × Holds m' l' (entries m2 ns2)
finish m m2 l l2 ns ns2 fresh id table size live at same out new more t k =
    let (table', collissions, run, t') =
      add_if_table-eq l2 fresh m2 ns ns2 live out
        (λ sized a mem.
          ground (arith, find_by-none m.id id a ns (new (ground arith)) mem, same a mem))
        more (λ sized. IsTable-frame m m2 l l2 ns table size same (t (ground arith))) in
    let l' = record l2 { hash_table = table' } in
    let m' = record m2 { hash_collission_next = collissions } in
    (
      l',
      m',
      run,
      (
        ns2,
        (IsLinked-frame m2 m' l2 l' ns2 refl refl refl refl refl refl k, t'),
        entries-frame m2 m' ns2 (λ a h. (refl, refl)),
      ),
    )

-- The memory when ListPush has linked its node.
abbrev pushed : NodeList → (fresh content id : ℕ) → Memory → Memory
pushed l fresh content id m =
    let m1 = new_node fresh m in
    record m1 {
      prev = update m1.prev l.head fresh;
      next = update m1.next fresh l.head;
      id = update m1.id fresh id;
      content = update m1.content fresh content;
    }

-- The same for ListAppend.
abbrev appended : NodeList → (fresh content id : ℕ) → Memory → Memory
appended l fresh content id m =
    let m1 = new_node fresh m in
    let last = m.prev l.sentinel in
    record m1 {
      prev = update (update m1.prev fresh last) l.sentinel fresh;
      next = update (update m1.next last fresh) fresh l.sentinel;
      id = update m1.id fresh id;
      content = update m1.content fresh content;
    }

head_live : (m : Memory) (l : NodeList) (ns : List ℕ) → IsLinked m l ns → m.live l.head ≡ true
head_live m l ns k = Forward-live_first m l.sentinel l.head ns k.end_live k.forward

pushed-Back :
    (l : NodeList) (fresh content id : ℕ) (m : Memory) (ns : List ℕ)
    → has fresh ns ≡ false
    → l.sentinel ≢ fresh
    → IsLinked m l ns
    → Back (pushed l fresh content id m) fresh (ns ++ (l.sentinel ∷ []))
pushed-Back l fresh content id m [] out ne k = let f = k.forward in (ground arith, tt)
pushed-Back l fresh content id m (a ∷ ns) out ne k =
    let (f, g, h) = k.forward in
    let d = k.distinct.0 in
    let o = k.end_out in
    (
      ground arith,
      Back-frame m (pushed l fresh content id m) a (ns ++ (l.sentinel ∷ []))
          (λ b mem. ground (arith, has-append b ns (l.sentinel ∷ []))) k.back,
    )

pushed-IsLinked :
    (l : NodeList) (fresh content id : ℕ) (m : Memory) (ns : List ℕ)
    → m.live fresh ≡ false
    → fresh ≢ 0
    → IsLinked m l ns
    → IsLinked (pushed l fresh content id m) (record l { head = fresh }) (fresh ∷ ns)
pushed-IsLinked l fresh content id m ns dead ne k =
    let m2 = pushed l fresh content id m in
    let (out, s_ne) = fresh_out m l ns fresh dead k in
    let to_head : m2.next fresh ≡ l.head = ground arith in
    record {
      forward = (
        refl,
        ground arith,
        rw to_head (
            Forward-frame m m2 l.sentinel l.head ns (λ a h. (ground arith, ground arith))
              k.forward),
      );
      back = pushed-Back l fresh content id m ns out s_ne k;
      end_live = ground (arith, k.end_live);
      end_null = ground (arith, k.end_null);
      end_out = ground (arith, k.end_out);
      distinct = (out, k.distinct);
      null = ground (arith, k.null);
    }

-- No node has the id of no entry.
new_id :
    (m : Memory) (id : ℕ) (ns : List ℕ)
    → find_by entry_id id (entries m ns) ≡ none
    → find_by m.id id ns ≡ none
new_id m id ns e = ground (arith, find_by-entries m id ns, Option-cases (find_by m.id id ns))

-- ListPush puts the entry in front.
pub list_push-Holds :
    (l : NodeList) (fresh content id : ℕ) (m : Memory) (xs : List (ℕ × ℕ))
    → m.live fresh ≡ false
    → fresh ≢ 0
    → (has_table l ≡ true → find_by entry_id id xs ≡ none)
    → Holds m l xs
    → (l' : NodeList) × (m' : Memory) × (list_push l fresh content id m ≡ some (l', m'))
      × Holds m' l' ((id, content) ∷ xs)
unfolding list_push
list_push-Holds l fresh content id m xs dead ne new (ns, (k, t), e) =
    let m2 = pushed l fresh content id m in
    let (out, s_ne) = fresh_out m l ns fresh dead k in
    let k2 = pushed-IsLinked l fresh content id m ns dead ne k in
    let (l', m', run, h) =
      finish m m2 l (record l { head = fresh }) ns (fresh ∷ ns) fresh id refl refl (ground arith)
        (ground arith) (λ a mem. (ground arith, ground arith, ground arith)) out
        (λ sized. new_id m id ns (subst (λ ys. find_by entry_id id ys ≡ none) (sym e) (new sized)))
        (λ a. ground arith) t k2 in
    let old = entries-frame m m2 ns (λ a mem. (ground arith, ground arith)) ∙ e in
    let same : entries m2 (fresh ∷ ns) ≡ (id, content) ∷ xs = ground (arith, old) in
    (l', m', rw (head_live m l ns k) run, rw (← same) h)

appended-IsLinked :
    (l : NodeList) (fresh content id : ℕ) (m : Memory) (a : ℕ) (ns : List ℕ)
    → m.live fresh ≡ false
    → fresh ≢ 0
    → IsLinked m l (a ∷ ns)
    → (m.live (m.prev l.sentinel) ≡ true)
      × IsLinked (appended l fresh content id m) l ((a ∷ ns) ++ (fresh ∷ []))
appended-IsLinked l fresh content id m a ns dead ne k =
    let m2 = appended l fresh content id m in
    let s = l.sentinel in
    let (out, s_ne) = fresh_out m l (a ∷ ns) fresh dead k in
    let (b1, b2) = Back-split m a ns (s ∷ []) k.back in
    let mem = has-last_of a ns in
    let m1 = record m { next = update m.next (last_of a ns) fresh } in
    let f1 = Forward-relink m s fresh l.head a ns k.distinct k.forward in
    let f2 =
      Forward-frame m1 m2 fresh l.head (a ∷ ns)
        (λ c h. (ground (arith, b2.0, k.end_out), ground arith)) f1 in
    let b3 = Back-frame m m2 a ns (λ c h. ground (arith, k.end_out)) b1 in
    let d = k.distinct in
    (
      ground (arith, Forward-live m s l.head (last_of a ns) (a ∷ ns) k.forward, b2.0),
      record {
        forward =
            Forward-append m2 fresh s l.head (a ∷ ns) (fresh ∷ []) f2
              (refl, ground arith, ground arith);
        back =
            Back-append m2 a (ns ++ (fresh ∷ [])) (s ∷ [])
              (Back-append m2 a ns (fresh ∷ []) b3 (ground (arith, b2.0), tt))
              (rw (last_of-append a fresh ns) (ground arith, tt));
        end_live = ground (arith, k.end_live);
        end_null = ground (arith, k.end_null);
        end_out = ground (arith, k.end_out, has-append s (a ∷ ns) (fresh ∷ []));
        distinct = IsDistinct-append_one fresh (a ∷ ns) d out;
        null = ground (arith, k.null);
      },
    )

-- ListAppend puts the entry at the end.
pub list_append-Holds :
    (l : NodeList) (fresh content id : ℕ) (m : Memory) (xs : List (ℕ × ℕ))
    → m.live fresh ≡ false
    → fresh ≢ 0
    → (has_table l ≡ true → find_by entry_id id xs ≡ none)
    → Holds m l xs
    → (l' : NodeList) × (m' : Memory) × (list_append l fresh content id m ≡ some (l', m'))
      × Holds m' l' (xs ++ ((id, content) ∷ []))
unfolding list_append list_empty
list_append-Holds l fresh content id m xs dead ne new ([], (k, t), e) =
    let (l', m', run, h) = list_push-Holds l fresh content id m xs dead ne new ([], (k, t), e) in
    let same : (id, content) ∷ xs ≡ xs ++ ((id, content) ∷ []) =
      subst (λ ys. (id, content) ∷ ys ≡ ys ++ ((id, content) ∷ [])) e refl in
    (l', m', rw (k.forward) (ground (arith, run)), subst (λ ys. Holds m' l' ys) same h)
list_append-Holds l fresh content id m xs dead ne new (a ∷ ns, (k, t), e) =
    let m2 = appended l fresh content id m in
    let (out, s_ne) = fresh_out m l (a ∷ ns) fresh dead k in
    let (live, k2) = appended-IsLinked l fresh content id m a ns dead ne k in
    let (l', m', run, h) =
      finish m m2 l l (a ∷ ns) ((a ∷ ns) ++ (fresh ∷ [])) fresh id refl refl (ground arith)
        (ground arith) (λ a mem. (ground arith, ground arith, ground arith)) out
        (λ sized.
          new_id m id (a ∷ ns) (subst (λ ys. find_by entry_id id ys ≡ none) (sym e) (new sized)))
        (λ c. ground (arith, has-append c (a ∷ ns) (fresh ∷ []))) t k2 in
    let old = entries-frame m m2 (a ∷ ns) (λ a mem. (ground arith, ground arith)) ∙ e in
    let last : entries m2 (fresh ∷ []) ≡ (id, content) ∷ [] = ground arith in
    let same =
      entries-append m2 (a ∷ ns) (fresh ∷ [])
      ∙ ap (λ ys. ys ++ entries m2 (fresh ∷ [])) old
      ∙ ap (λ ys. xs ++ ys) last in
    let first = k.forward.0 in
    (l', m', ground (arith, k.end_live, k.end_out, live, run), subst (λ ys. Holds m' l' ys) same h)
