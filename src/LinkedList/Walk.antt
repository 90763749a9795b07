-- ===== src/LinkedList/Walk.antt =====
-- The operations that walk along the links: ListFindFirstLessThanIdAndRemove and ListMap; and
-- ListPeak and ListDestroy, which look at the ends only.
use mathlib.Core.Option
use mathlib.Core.Path.{subst}
use theynix.Base.{
  ℕ, zero, suc, ◌<◌, ◌≡◌, ◌≢◌, ◌∙◌, inl, inr, refl, sym, ap, Bool, true, false, ◌||◌, ◌==◌, Option,
  none, some, List, [], ◌∷◌, arith, if◌then◌else◌, leb, Bool-cases, Option-cases, length,
  List-cases, find_by, has, is_empty, remove_by,
}
use theynix.LinkedList.{
  free_node, list_destroy, list_map, list_map_from, list_peak,
  list_find_first_less_than_id_and_remove, Memory, NodeList,
}
use theynix.LinkedList.Holds.{Holds, content_or_null, entries, entry_id, length-Holds}
use theynix.LinkedList.Find.{first_that, list_empty-eq, scan-eq}
use theynix.LinkedList.Remove.{list_remove_by_id-Holds}
use theynix.LinkedList.Chain.{Forward, Forward-live}

-- A list without the first element whose key passes a test.
abbrev pub without_first {ℓ} : {A : Type ℓ} (key : A → ℕ) (test : ℕ → Bool) → List A → List A
without_first key test [] = []
without_first key test (x ∷ xs) = if test (key x) then xs else x ∷ without_first key test xs

-- What ListMap's function is called with, in order.
abbrev pub visit {ℓ} : {S : Type ℓ} (ftn : ℕ → S → S) → List (ℕ × ℕ) → S → S
visit ftn [] s = s
visit ftn (e ∷ xs) s = visit ftn xs (if e.1 == 0 then s else ftn (e.1) s)

abbrev pub first_entry : List (ℕ × ℕ) → Option (ℕ × ℕ)
first_entry [] = none
first_entry (e ∷ xs) = some e

-- The first element that passes is the first one with its key.
without_first-remove_by {ℓ} :
    {A : Type ℓ} (key : A → ℕ) (test : ℕ → Bool) (a : A) (xs : List A)
    → first_that key test xs ≡ some a
    → (test (key a) ≡ true)
      × (find_by key (key a) xs ≡ some a)
      × (remove_by key (key a) xs ≡ without_first key test xs)
without_first-remove_by key test a [] e = cc
without_first-remove_by key test a (x ∷ xs) e =
    ground (arith, without_first-remove_by key test a xs)

without_first-none {ℓ} :
    {A : Type ℓ} (key : A → ℕ) (test : ℕ → Bool) (xs : List A)
    → first_that key test xs ≡ none
    → without_first key test xs ≡ xs
without_first-none key test [] e = refl
without_first-none key test (x ∷ xs) e = ground (arith, without_first-none key test xs)

first_that-entries :
    (m : Memory) (test : ℕ → Bool) (ns : List ℕ)
    → first_that entry_id test (entries m ns)
      ≡ Option.map (λ a. (m.id a, m.content a)) (first_that m.id test ns)
first_that-entries m test [] = refl
first_that-entries m test (a ∷ ns) = ground (arith, first_that-entries m test ns)

first_that-has :
    (key : ℕ → ℕ) (test : ℕ → Bool) (a : ℕ) (ns : List ℕ)
    → first_that key test ns ≡ some a
    → has a ns ≡ true
first_that-has key test a [] e = cc
first_that-has key test a (b ∷ ns) e = ground (arith, first_that-has key test a ns)

-- ListFindFirstLessThanIdAndRemove takes out the first entry whose id is not above the given one.
pub list_find_first_less_than_id_and_remove-Holds :
    (fuel : ℕ) (l : NodeList) (id : ℕ) (m : Memory) (xs : List (ℕ × ℕ))
    → length xs < fuel
    → Holds m l xs
    → (l' : NodeList) × (m' : Memory) × (list_find_first_less_than_id_and_remove fuel l id m
        ≡ some (content_or_null (first_that entry_id (λ i. leb i id) xs), l', m'))
      × Holds m' l' (without_first entry_id (λ i. leb i id) xs)
unfolding list_find_first_less_than_id_and_remove
list_find_first_less_than_id_and_remove-Holds fuel l id m xs le (ns, (k, t), same) =
    let test : ℕ → Bool = λ i. leb i id in
    let short : length ns < fuel = omega (arith, length-Holds m ns xs same) in
    let iter = scan-eq fuel test l l.head m ns k.forward k.end_out short in
    let empty = list_empty-eq m l ns k in
    let spec =
      subst
        (λ ys.
          first_that entry_id test ys
          ≡ Option.map (λ a. (m.id a, m.content a)) (first_that m.id test ns))
        same (first_that-entries m test ns) in
    elim (Option-cases (first_that m.id test ns)) [
      | inl absent ↦ (
        l,
        m,
        ground (arith, iter, absent, spec),
        (
          ns,
          (k, t),
          same ∙ sym (without_first-none entry_id test xs (ground (arith, spec, absent))),
        ),
      )
      | inr (a, found) ↦
          let (l', m', run, held) =
            list_remove_by_id-Holds fuel l (m.id a) m xs le (ns, (k, t), same) in
          let (pass, at, rest) =
            without_first-remove_by entry_id test (m.id a, m.content a) xs
              (ground (arith, spec, found)) in
          let live =
            Forward-live m l.sentinel l.head a ns k.forward (first_that-has m.id test a ns found) in
          (
            l',
            m',
            ground (arith, empty, iter, found, run, at, live, spec, k.null, List-cases ns),
            subst (λ ys. Holds m' l' ys) rest held,
          )
    ]

-- The function changes only a state of its own.
abbrev pub LeavesList {ℓ} :
    {S : Type ℓ}
    → (ftn : ℕ → S × NodeList × Memory → Option (S × NodeList × Memory)) (change : ℕ → S → S)
    → NodeList
    → Memory
    → Type ℓ
LeavesList {S = S} ftn change l m = (c : ℕ) (s : S) → ftn c (s, l, m) ≡ some (change c s, l, m)

at_inner :
    (a sentinel : ℕ) (m : Memory)
    → m.live 0 ≡ false
    → m.live a ≡ true
    → a ≢ sentinel
    → (a == 0 || a == sentinel) ≡ false
at_inner a sentinel m null live ne = ground arith

-- One turn of the loop, at a node.
one_step {ℓ} :
    {S : Type ℓ} (fuel : ℕ) (ftn : ℕ → S × NodeList × Memory → Option (S × NodeList × Memory))
    (change : ℕ → S → S) (l : NodeList) (a : ℕ) (m : Memory) (s : S)
    → LeavesList ftn change l m
    → m.live a ≡ true
    → (a == 0 || a == l.sentinel) ≡ false
    → list_map_from (suc fuel) ftn a (s, l, m)
      ≡ list_map_from fuel ftn
          (m.next a)
          (if m.content a == 0 then s else change (m.content a) s, l, m)
unfolding list_map_from
one_step fuel ftn change l a m s leaves live inside = rw inside (
    rw live (elim (Bool-cases (m.content a == 0)) [
      | inl null ↦ rw null (rw live refl)
      | inr some_data ↦ rw some_data (rw (leaves (m.content a) s) (rw live refl))
    ]))

visit-from {ℓ} :
    {S : Type ℓ} (fuel : ℕ) (ftn : ℕ → S × NodeList × Memory → Option (S × NodeList × Memory))
    (change : ℕ → S → S) (l : NodeList) (p : ℕ) (m : Memory) (s : S) (ns : List ℕ)
    → LeavesList ftn change l m
    → m.live 0 ≡ false
    → Forward m l.sentinel p ns
    → has l.sentinel ns ≡ false
    → length ns < fuel
    → list_map_from fuel ftn p (s, l, m) ≡ some (visit change (entries m ns) s, l, m)
unfolding list_map_from
visit-from zero ftn change l p m s ns leaves null f out le = absurd (omega arith)
visit-from (suc fuel) ftn change l p m s [] leaves null f out le = rw f (ground arith)
visit-from (suc fuel) ftn change l p m s (a ∷ ns) leaves null f out le =
    let s' = if m.content a == 0 then s else change (m.content a) s in
    let rest =
      visit-from fuel ftn change l (m.next a) m s' ns leaves null f.2 (ground arith)
        (omega arith) in
    ap (λ c. list_map_from (suc fuel) ftn c (s, l, m)) f.0
    ∙ (one_step fuel ftn change l a m s leaves f.1 (at_inner a l.sentinel m null f.1 (ground arith))
        ∙ rest)

-- With a function that leaves the list and its nodes alone, ListMap calls it once for each entry whose
-- content is not NULL, in order, and stops, and the list is as it was.
pub list_map-Holds {ℓ} :
    {S : Type ℓ} (fuel : ℕ) (ftn : ℕ → S × NodeList × Memory → Option (S × NodeList × Memory))
    (change : ℕ → S → S) (l : NodeList) (m : Memory) (s : S) (xs : List (ℕ × ℕ))
    → LeavesList ftn change l m
    → length xs < fuel
    → Holds m l xs
    → list_map fuel ftn l m s ≡ some (visit change xs s, l, m)
unfolding list_map
list_map-Holds fuel ftn change l m s xs leaves le (ns, (k, t), same) =
    let short : length ns < fuel = omega (arith, length-Holds m ns xs same) in
    let run = visit-from fuel ftn change l l.head m s ns leaves k.null k.forward k.end_out short in
    subst (λ ys. list_map fuel ftn l m s ≡ some (visit change ys s, l, m)) same
      (ground (arith, list_empty-eq m l ns k, run, List-cases ns))

-- ListPeak returns the first content, or NULL from the sentinel.
pub list_peak-Holds :
    (l : NodeList) (m : Memory) (xs : List (ℕ × ℕ))
    → Holds m l xs
    → list_peak l m ≡ some (content_or_null (first_entry xs))
unfolding list_peak
list_peak-Holds l m xs ([], (k, t), same) =
    subst (λ ys. list_peak l m ≡ some (content_or_null (first_entry ys))) same
      (ground (arith, k.forward, k.end_live, k.end_null))
list_peak-Holds l m xs (a ∷ ns, (k, t), same) =
    subst (λ ys. list_peak l m ≡ some (content_or_null (first_entry ys))) same
      (ground (arith, k.forward.0, k.forward.1))

-- ListDestroy's assert fails just where an entry is left.
pub list_destroy-Holds :
    (l : NodeList) (m : Memory) (xs : List (ℕ × ℕ))
    → Holds m l xs
    → list_destroy l m ≡ (if is_empty xs then some (free_node l.sentinel m) else none)
unfolding list_destroy
list_destroy-Holds l m xs ([], (k, t), same) =
    subst (λ ys. list_destroy l m ≡ (if is_empty ys then some (free_node l.sentinel m) else none))
      same (ground (arith, list_empty-eq m l [] k))
list_destroy-Holds l m xs (a ∷ ns, (k, t), same) =
    subst (λ ys. list_destroy l m ≡ (if is_empty ys then some (free_node l.sentinel m) else none))
      same (ground (arith, list_empty-eq m l (a ∷ ns) k))
