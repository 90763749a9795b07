-- ===== src/LinkedList.antt =====
-- List.c: a doubly linked list with a sentinel and an optional hash table whose collisions are
-- chained. The nodes stand in a `Memory`; a `NodeList` is the struct List with its table. A pointer
-- is an address, and 0 is NULL. `none` is a failed assert, a read or write through a pointer to no
-- node, such as a freed one, or a loop that used up its fuel. `fresh` is what calloc returns.
pub mod Chain
pub mod Table
pub mod Hash
pub mod Holds
pub mod Grow
pub mod Take
pub mod Find
pub mod Unlink
pub mod Remove
pub mod Walk
pub mod Api
mod Tests
use mathlib.Core.Option
use theynix.Base.{
  ℕ, zero, suc, ◌+◌, ◌-◌, ◌*◌, ◌/◌, ◌%◌, ◌^◌, ◌≤◌, ◌<◌, ◌≡◌, ◌≢◌, ◌∙◌, ◌⊎◌, inl, inr, refl, sym, ap,
  Bool, true, false, not, ◌&&◌, ◌||◌, ◌==◌, Option, none, some, List, [], ◌∷◌, ◌++◌, ℤ, pos, negsuc,
  arith, if◌then◌else◌, ltb, leb, Bool-cases, Option-cases, length, take, drop, update,
}

-- The fields of the nodes, by address.
pub record Memory : Type 0 where
  pub live : ℕ → Bool
  pub next : ℕ → ℕ
  pub prev : ℕ → ℕ
  pub hash_collission_next : ℕ → ℕ
  pub id : ℕ → ℕ
  pub content : ℕ → ℕ

pub record NodeList : Type 0 where
  pub sentinel : ℕ
  pub head : ℕ
  pub hash_table : ℕ → ℕ
  pub hash_table_size : ℕ

-- A read or write through `p`, and what follows.
abbrev pub at_node {ℓ} : {A : Type ℓ} → ℕ → Memory → Option A → Option A
at_node p m k = if m.live p then k else none

-- calloc(1, sizeof(ListNode))
abbrev pub new_node : ℕ → Memory → Memory
new_node fresh m = record m {
  live = update m.live fresh true;
  next = update m.next fresh 0;
  prev = update m.prev fresh 0;
  hash_collission_next = update m.hash_collission_next fresh 0;
  id = update m.id fresh 0;
  content = update m.content fresh 0;
}

abbrev pub free_node : ℕ → Memory → Memory
free_node p m = record m { live = update m.live p false }

abbrev pub has_table : NodeList → Bool
has_table l = not (l.hash_table_size == 0)

abbrev pub bucket_of : NodeList → ℕ → ℕ
bucket_of l id = id % l.hash_table_size

pub list_add_to_hash_table : NodeList → (ln : ℕ) → Memory → Option (NodeList × Memory)
list_add_to_hash_table l ln m =
    let hash_id = bucket_of l (m.id ln) in
    if has_table l
    then at_node ln m (
        some (
          record l { hash_table = update l.hash_table hash_id ln },
          record m {
            hash_collission_next = update m.hash_collission_next ln (l.hash_table hash_id);
          },
        ))
    else none

-- The loop of ListFindFromHashTable.
pub find_in_bucket : (fuel value id : ℕ) → Memory → Option ℕ
find_in_bucket zero value id m = none
find_in_bucket (suc fuel) value id m =
    let rest = find_in_bucket fuel (m.hash_collission_next value) id m in
    if value == 0 then some 0 else at_node value m (if m.id value == id then some value else rest)

pub list_find_from_hash_table : (fuel : ℕ) → NodeList → (id : ℕ) → Memory → Option ℕ
unfolding find_in_bucket
list_find_from_hash_table fuel l id m =
    if has_table l then find_in_bucket fuel (l.hash_table (bucket_of l id)) id m else none

-- The loop of ListRemoveFromHashTable: `value` is not the node, and stays in its bucket.
pub unlink_from_bucket : (fuel value id : ℕ) → Memory → Option (ℕ × Memory)
unlink_from_bucket zero value id m = none
unlink_from_bucket (suc fuel) value id m =
    let next = m.hash_collission_next value in
    let rest = unlink_from_bucket fuel next id m in
    let unlinked = record m {
      hash_collission_next = update m.hash_collission_next value (m.hash_collission_next next);
    } in
    at_node value m (
      if next == 0
      then some (0, m)
      else at_node next m (if m.id next == id then some (next, unlinked) else rest))

pub list_remove_from_hash_table :
    (fuel : ℕ) → NodeList → (id : ℕ) → Memory → Option (ℕ × NodeList × Memory)
unfolding unlink_from_bucket
list_remove_from_hash_table fuel l id m =
    let hash_id = bucket_of l id in
    let value = l.hash_table hash_id in
    let second = m.hash_collission_next value in
    if not (has_table l)
    then none
    else if value == 0
    then some (0, l, m)
    else at_node value m (
        if id == m.id value
        then some (value, record l { hash_table = update l.hash_table hash_id second }, m)
        else Option.map (λ (node, m'). (node, l, m')) (unlink_from_bucket fuel value id m))

-- `list` and `sentinel` come from calloc; the struct List is a value here.
pub list_new_list : (fresh hash_table_size : ℕ) → Memory → NodeList × Memory
list_new_list fresh hash_table_size m = (
  record { sentinel = fresh; head = fresh; hash_table = λ i. 0; hash_table_size = hash_table_size },
  new_node fresh m,
)

pub list_empty : NodeList → Bool
list_empty l = l.sentinel == l.head

pub list_destroy : NodeList → Memory → Option Memory
unfolding list_empty
list_destroy l m = if list_empty l then some (free_node l.sentinel m) else none

-- The last lines of ListPush and ListAppend.
pub add_if_table : NodeList → (ln : ℕ) → Memory → Option (NodeList × Memory)
unfolding list_add_to_hash_table
add_if_table l ln m = if has_table l then list_add_to_hash_table l ln m else some (l, m)

pub list_push : NodeList → (fresh content id : ℕ) → Memory → Option (NodeList × Memory)
unfolding add_if_table
list_push l fresh content id m =
    let m1 = new_node fresh m in
    let m2 = record m1 {
      prev = update m1.prev l.head fresh;
      next = update m1.next fresh l.head;
      id = update m1.id fresh id;
      content = update m1.content fresh content;
    } in
    at_node l.head m (add_if_table (record l { head = fresh }) fresh m2)

pub list_append : NodeList → (fresh content id : ℕ) → Memory → Option (NodeList × Memory)
unfolding list_empty list_push add_if_table
list_append l fresh content id m =
    let m1 = new_node fresh m in
    let last = m.prev l.sentinel in
    let m2 = record m1 {
      prev = update (update m1.prev fresh last) l.sentinel fresh;
      next = update (update m1.next last fresh) fresh l.sentinel;
      id = update m1.id fresh id;
      content = update m1.content fresh content;
    } in
    if list_empty l
    then list_push l fresh content id m
    else at_node l.sentinel m (at_node last m (add_if_table l fresh m2))

-- ListRemoveFromHashTable, if there is a table.
pub drop_if_table : (fuel : ℕ) → NodeList → (id : ℕ) → Memory → Option (NodeList × Memory)
unfolding list_remove_from_hash_table
drop_if_table fuel l id m =
    if has_table l
    then Option.map (λ (node, l', m'). (l', m')) (list_remove_from_hash_table fuel l id m)
    else some (l, m)

-- The end of ListDequeue.
drop_head : NodeList × Memory → Option (ℕ × NodeList × Memory)
drop_head (l, m) =
    let ln = l.head in
    let head = m.next ln in
    at_node ln m (
      at_node head m (
        some (
          m.content ln,
          record l { head = head },
          free_node ln (record m { prev = update m.prev head l.sentinel }),
        )))

pub list_dequeue : (fuel : ℕ) → NodeList → Memory → Option (ℕ × NodeList × Memory)
unfolding list_empty drop_if_table drop_head
list_dequeue fuel l m =
    if list_empty l
    then some (0, l, m)
    else at_node l.head m
        (elim (drop_if_table fuel l (m.id l.head) m) [ none ↦ none | some lm ↦ drop_head lm ])

-- The loop of ListFindNodeById, and that of ListFindFirstLessThanIdAndRemove: the first node whose
-- id passes the test, or NULL.
pub scan : (fuel : ℕ) (test : ℕ → Bool) → NodeList → (iter : ℕ) → Memory → Option ℕ
scan zero test l iter m = none
scan (suc fuel) test l iter m =
    let rest = scan fuel test l (m.next iter) m in
    if iter == l.sentinel
    then some 0
    else at_node iter m (if test (m.id iter) then some iter else rest)

pub list_find_node_by_id : (fuel : ℕ) → NodeList → (id : ℕ) → Memory → Option ℕ
unfolding list_empty scan
list_find_node_by_id fuel l id m =
    if list_empty l then some 0 else scan fuel (λ i. i == id) l l.head m

pub list_find_by_id : (fuel : ℕ) → NodeList → (id : ℕ) → Memory → Option ℕ
unfolding list_find_from_hash_table list_find_node_by_id
list_find_by_id fuel l id m =
    elim (if has_table l
      then list_find_from_hash_table fuel l id m
      else list_find_node_by_id fuel l id m) [
        | none ↦ none
        | some node ↦ if node == 0 then some 0 else at_node node m (some (m.content node))
      ]

-- The branches of ListRemoveById once the node is found.
pub unlink_node : (fuel : ℕ) → (node : ℕ) → NodeList → Memory → Option (ℕ × NodeList × Memory)
unfolding list_dequeue
unlink_node fuel node l m =
    let before = m.prev node in
    let after = m.next node in
    if node == 0
    then some (0, l, m)
    else if node == l.head
    then list_dequeue fuel l m
    else at_node node m (
        at_node before m (
          at_node after m (
            some (
              m.content node,
              l,
              free_node node (record m {
                next = update m.next before after;
                prev = update m.prev after before;
              }),
            ))))

pub list_remove_by_id : (fuel : ℕ) → NodeList → (id : ℕ) → Memory → Option (ℕ × NodeList × Memory)
unfolding list_remove_from_hash_table list_find_node_by_id unlink_node
list_remove_by_id fuel l id m =
    elim (if has_table l
      then list_remove_from_hash_table fuel l id m
      else Option.map (λ node. (node, l, m)) (list_find_node_by_id fuel l id m)) [
        | none ↦ none
        | some (node, l', m') ↦ unlink_node fuel node l' m'
      ]

pub list_find_first_less_than_id_and_remove :
    (fuel : ℕ) → NodeList → (id : ℕ) → Memory → Option (ℕ × NodeList × Memory)
unfolding list_empty scan list_remove_by_id
list_find_first_less_than_id_and_remove fuel l id m =
    if list_empty l then some (0, l, m) else elim (scan fuel (λ i. leb i id) l l.head m) [
      | none ↦ none
      | some iter ↦
          if iter == 0
          then some (0, l, m)
          else Option.map (λ (content, l', m'). (m.content iter, l', m'))
              (list_remove_by_id fuel l (m.id iter) m)
    ]

pub list_enqueue : NodeList → (fresh content id : ℕ) → Memory → Option (NodeList × Memory)
unfolding list_append
list_enqueue l fresh content id m = list_append l fresh content id m

-- ListMap. The function is called with the data and may change the list and the memory, as well as
-- a state of its own; `i->next` is read after the call, which is `none` if the call freed the node.
pub list_map_from {ℓ} :
    {S : Type ℓ} (fuel : ℕ) (ftn : ℕ → S × NodeList × Memory → Option (S × NodeList × Memory))
    (i : ℕ)
    → S × NodeList × Memory
    → Option (S × NodeList × Memory)
list_map_from zero ftn i u = none
list_map_from (suc fuel) ftn i (s, l, m) =
    let after = if m.content i == 0 then some (s, l, m) else ftn (m.content i) (s, l, m) in
    if i == 0 || i == l.sentinel then some (s, l, m) else elim (at_node i m after) [
      | none ↦ none
      | some (s', l', m') ↦ at_node i m' (list_map_from fuel ftn (m'.next i) (s', l', m'))
    ]

pub list_map {ℓ} :
    {S : Type ℓ} (fuel : ℕ) (ftn : ℕ → S × NodeList × Memory → Option (S × NodeList × Memory))
    → NodeList
    → Memory
    → S
    → Option (S × NodeList × Memory)
unfolding list_empty list_map_from
list_map fuel ftn l m s =
    if list_empty l then some (s, l, m) else list_map_from fuel ftn l.head (s, l, m)

pub list_peak : NodeList → Memory → Option ℕ
list_peak l m = at_node l.head m (some (m.content l.head))
