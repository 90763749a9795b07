-- ===== src/LinkedList/Api.antt =====
-- The operations of List.h as one step function on the heap, beside what they are meant to do to a
-- list of entries.
use mathlib.Core.Option
use theynix.Base.{
  ℕ, ◌<◌, ◌≡◌, ◌≢◌, refl, true, false, Option, none, some, List, [], ◌∷◌, ◌++◌, arith, leb, length,
  find_by, remove_by,
}
use theynix.LinkedList.{
  list_append, list_dequeue, list_enqueue, list_find_by_id, list_find_first_less_than_id_and_remove,
  list_peak, list_push, list_remove_by_id, Memory, NodeList, has_table,
}
use theynix.LinkedList.Holds.{content_or_null, Holds, entry_id}
use theynix.LinkedList.Grow.{list_append-Holds, list_push-Holds}
use theynix.LinkedList.Find.{first_that, list_find_by_id-Holds}
use theynix.LinkedList.Walk.{
  first_entry, list_find_first_less_than_id_and_remove-Holds, list_peak-Holds, without_first,
}
use theynix.LinkedList.Take.{list_dequeue-Holds, list_dequeue-empty}
use theynix.LinkedList.Remove.{list_remove_by_id-Holds}

-- A call of one of the functions, with its arguments other than the list.
pub data Operation : Type 0 where
  push : (content id : ℕ) → Operation
  append : (content id : ℕ) → Operation
  enqueue : (content id : ℕ) → Operation
  dequeue : Operation
  find_by_id : (id : ℕ) → Operation
  remove_by_id : (id : ℕ) → Operation
  find_first_less_than_id_and_remove : (id : ℕ) → Operation
  peak : Operation

-- A call that returns nothing counts as returning 0.
abbrev returns_nothing : Option (NodeList × Memory) → Option (ℕ × NodeList × Memory)
returns_nothing = Option.map (λ (l, m). (0, l, m))

-- A call that does not change the list.
abbrev changes_nothing : NodeList → Memory → Option ℕ → Option (ℕ × NodeList × Memory)
changes_nothing l m = Option.map (λ content. (content, l, m))

-- `fresh` is what calloc returns to the call.
pub call : (fuel fresh : ℕ) → Operation → NodeList → Memory → Option (ℕ × NodeList × Memory)
unfolding list_enqueue
call fuel fresh (push content id) l m = returns_nothing (list_push l fresh content id m)
call fuel fresh (append content id) l m = returns_nothing (list_append l fresh content id m)
call fuel fresh (enqueue content id) l m = returns_nothing (list_enqueue l fresh content id m)
call fuel fresh dequeue l m = list_dequeue fuel l m
call fuel fresh (find_by_id id) l m = changes_nothing l m (list_find_by_id fuel l id m)
call fuel fresh (remove_by_id id) l m = list_remove_by_id fuel l id m
call fuel fresh (find_first_less_than_id_and_remove id) l m =
    list_find_first_less_than_id_and_remove fuel l id m
call fuel fresh peak l m = changes_nothing l m (list_peak l m)

abbrev pub rest_of : List (ℕ × ℕ) → List (ℕ × ℕ)
rest_of [] = []
rest_of (e ∷ xs) = xs

-- What the call returns and leaves.
abbrev pub meant : Operation → List (ℕ × ℕ) → ℕ × List (ℕ × ℕ)
meant (push content id) xs = (0, (id, content) ∷ xs)
meant (append content id) xs = (0, xs ++ ((id, content) ∷ []))
meant (enqueue content id) xs = (0, xs ++ ((id, content) ∷ []))
meant dequeue xs = (content_or_null (first_entry xs), rest_of xs)
meant (find_by_id id) xs = (content_or_null (find_by entry_id id xs), xs)
meant (remove_by_id id) xs = (content_or_null (find_by entry_id id xs), remove_by entry_id id xs)
meant (find_first_less_than_id_and_remove id) xs = (
  content_or_null (first_that entry_id (λ i. leb i id) xs),
  without_first entry_id (λ i. leb i id) xs,
)
meant peak xs = (content_or_null (first_entry xs), xs)

-- The id that a call puts in, if it puts one in.
abbrev pub id_put : Operation → Option ℕ
id_put (push content id) = some id
id_put (append content id) = some id
id_put (enqueue content id) = some id
id_put dequeue = none
id_put (find_by_id id) = none
id_put (remove_by_id id) = none
id_put (find_first_less_than_id_and_remove id) = none
id_put peak = none

-- Each of ListPush, ListAppend, ListEnqueue, ListDequeue, ListFindById, ListRemoveById,
-- ListFindFirstLessThanIdAndRemove and ListPeak returns what it is meant to, and the nodes hold the
-- entries that are meant to be left: from a memory whose nodes hold `xs`, with a hash table or
-- without, if calloc returns an address that is not in use, an id that is put in a list with a
-- table is not in it already, and the loops have fuel for every node.
pub call-Holds :
    (fuel fresh : ℕ) (op : Operation) (l : NodeList) (m : Memory) (xs : List (ℕ × ℕ))
    → m.live fresh ≡ false
    → fresh ≢ 0
    → ((id : ℕ) → id_put op ≡ some id → has_table l ≡ true → find_by entry_id id xs ≡ none)
    → length xs < fuel
    → Holds m l xs
    → (l' : NodeList) × (m' : Memory) × (call fuel fresh op l m ≡ some ((meant op xs).0, l', m'))
      × Holds m' l' (meant op xs).1
unfolding call list_enqueue
call-Holds fuel fresh (push content id) l m xs dead ne new le h =
    let (l', m', run, h') = list_push-Holds l fresh content id m xs dead ne (new id refl) h in
    (l', m', ground (arith, run), h')
call-Holds fuel fresh (append content id) l m xs dead ne new le h =
    let (l', m', run, h') = list_append-Holds l fresh content id m xs dead ne (new id refl) h in
    (l', m', ground (arith, run), h')
call-Holds fuel fresh (enqueue content id) l m xs dead ne new le h =
    let (l', m', run, h') = list_append-Holds l fresh content id m xs dead ne (new id refl) h in
    (l', m', ground (arith, run), h')
call-Holds fuel fresh dequeue l m [] dead ne new le h = (l, m, list_dequeue-empty fuel l m h, h)
call-Holds fuel fresh dequeue l m (e ∷ xs) dead ne new le h = list_dequeue-Holds fuel l m e xs le h
call-Holds fuel fresh (find_by_id id) l m xs dead ne new le h =
    (l, m, ground (arith, list_find_by_id-Holds fuel l id m xs le h), h)
call-Holds fuel fresh (remove_by_id id) l m xs dead ne new le h =
    list_remove_by_id-Holds fuel l id m xs le h
call-Holds fuel fresh (find_first_less_than_id_and_remove id) l m xs dead ne new le h =
    list_find_first_less_than_id_and_remove-Holds fuel l id m xs le h
call-Holds fuel fresh peak l m xs dead ne new le h =
    (l, m, ground (arith, list_peak-Holds l m xs h), h)
