-- ===== src/LinkedList/Tests.antt =====
-- A list of two nodes whose ids fall in the same bucket, and runs on it.
use mathlib.Core.Option
use theynix.Base.{
  ℕ, ◌+◌, ◌≡◌, inl, inr, refl, ◌||◌, ◌==◌, Option, none, some, [], ◌∷◌, arith, if◌then◌else◌,
  Bool-cases,
}
use theynix.LinkedList.{list_remove_by_id, list_map, Memory, NodeList}
use theynix.LinkedList.Holds.{Holds}
use theynix.LinkedList.Table.{IsTable}
use theynix.LinkedList.Api.{call, call-Holds, remove_by_id}
use theynix.LinkedList.Walk.{list_map-Holds}

-- The sentinel is node 1; node 2 has id 7 and content 70, node 3 has id 9 and content 90.
abbrev two_nodes : Memory
two_nodes = record {
  live = λ a. a == 1 || a == 2 || a == 3;
  next = λ a. if a == 2 then 3 else if a == 3 then 1 else 0;
  prev = λ a. if a == 3 then 2 else if a == 1 then 3 else 0;
  hash_collission_next = λ a. if a == 3 then 2 else 0;
  id = λ a. if a == 2 then 7 else if a == 3 then 9 else 0;
  content = λ a. if a == 2 then 70 else if a == 3 then 90 else 0;
}

abbrev two_list : NodeList
two_list = record {
  sentinel = 1;
  head = 2;
  hash_table = λ i. if i == 1 then 3 else 0;
  hash_table_size = 2;
}

two_list-IsTable : IsTable two_nodes two_list (2 ∷ 3 ∷ [])
two_list-IsTable = record {
  bucket = λ i. if i == 1 then 3 ∷ (2 ∷ []) else [];
  linked = λ i. elim (Bool-cases (i == 1)) [
    | inl hit ↦ rw hit (refl, refl, (refl, refl, refl))
    | inr miss ↦ rw miss refl
  ];
  members = λ i a. elim (Bool-cases (i == 1)) [ inl hit ↦ ground arith | inr miss ↦ ground arith ];
  unique = λ a b ha hb e. ground arith;
  distinct = λ i. elim (Bool-cases (i == 1)) [
    | inl hit ↦ rw hit (refl, (refl, tt))
    | inr miss ↦ rw miss tt
  ];
}

two_list-Holds : Holds two_nodes two_list ((7, 70) ∷ (9, 90) ∷ [])
two_list-Holds = (
  2 ∷ 3 ∷ [],
  (
    record {
      forward = (refl, refl, (refl, refl, refl));
      back = (refl, (refl, tt));
      end_live = refl;
      end_null = refl;
      end_out = refl;
      distinct = (refl, (refl, tt));
      null = refl;
    },
    λ _. two_list-IsTable,
  ),
  refl,
)

-- The first node is taken out by its id: the table is told twice.
call-Holds_example :
    (l' : NodeList) × (m' : Memory) × (call 3 4 (remove_by_id 7) two_list two_nodes
      ≡ some (70, l', m'))
    × Holds m' l' ((9, 90) ∷ [])
call-Holds_example =
    call-Holds 3 4 (remove_by_id 7) two_list two_nodes ((7, 70) ∷ (9, 90) ∷ []) refl
      (λ e. omega arith) (λ id e. cc) (omega arith) two_list-Holds

-- A function that adds up the contents.
abbrev add_up : ℕ → ℕ × NodeList × Memory → Option (ℕ × NodeList × Memory)
add_up content (sum, l, m) = some (sum + content, l, m)

list_map-Holds_example : list_map 3 add_up two_list two_nodes 0 ≡ some (160, two_list, two_nodes)
list_map-Holds_example =
    list_map-Holds 3 add_up (λ content sum. sum + content) two_list two_nodes 0
      ((7, 70) ∷ (9, 90) ∷ []) (λ c s. refl) (omega arith) two_list-Holds

-- A function that removes the entry with id 7 from the list, as DecrementTicksRemaining does.
abbrev remove_7 : ℕ → ℕ × NodeList × Memory → Option (ℕ × NodeList × Memory)
remove_7 content (sum, l, m) = Option.map (λ (c, l', m'). (sum, l', m')) (list_remove_by_id 4 l 7 m)

-- ListMap goes on through the node that was freed.
list_map_reads_freed : list_map 3 remove_7 two_list two_nodes 0 ≡ none
unfolding list_map list_remove_by_id
list_map_reads_freed = refl
