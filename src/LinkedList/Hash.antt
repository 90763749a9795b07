-- ===== src/LinkedList/Hash.antt =====
-- Adding to, looking up in and removing from the hash table.
use mathlib.Core.Path.{fun_ext}
use theynix.Base.{
  ℕ, zero, suc, ◌≤◌, ◌<◌, ◌≡◌, ◌≢◌, ◌∙◌, inl, inr, refl, ap, true, false, ◌||◌, ◌==◌, some, List,
  [], ◌∷◌, arith, if◌then◌else◌, Bool-cases, length, update, IsDistinct, find_by, has, remove_by,
}
use theynix.LinkedList.{
  list_remove_from_hash_table, unlink_from_bucket, Memory, NodeList, bucket_of, find_in_bucket,
  has_table, list_add_to_hash_table, list_find_from_hash_table,
}
use theynix.LinkedList.Table.{
  IsDistinct-remove_by, has-remove_by, length-le, Bucket, IsTable, find_by-agree, or_null,
}

Bucket-frame :
    (m m' : Memory) (p : ℕ) (ns : List ℕ)
    → ((a : ℕ)
        → has a ns ≡ true
        → (m'.hash_collission_next a ≡ m.hash_collission_next a) × (m'.live a ≡ m.live a))
    → Bucket m p ns
    → Bucket m' p ns
Bucket-frame m m' p [] same b = b
Bucket-frame m m' p (a ∷ ns) same b = (
  b.0,
  ground (arith, same a),
  rw ((same a (ground arith)).0)
      (Bucket-frame m m' (m.hash_collission_next a) ns (λ c h. same c (ground arith)) b.2),
)

-- A change of the memory that spares the nodes' table fields keeps the table.
pub IsTable-frame :
    (m m' : Memory) (l l' : NodeList) (ns : List ℕ)
    → l'.hash_table ≡ l.hash_table
    → l'.hash_table_size ≡ l.hash_table_size
    → ((a : ℕ)
        → has a ns ≡ true
        → (m'.hash_collission_next a ≡ m.hash_collission_next a)
          × (m'.live a ≡ m.live a)
          × (m'.id a ≡ m.id a))
    → IsTable m l ns
    → IsTable m' l' ns
IsTable-frame m m' l l' ns table size same t = record {
  bucket = t.bucket;
  linked = λ i. rw (ap (λ f. f i) table) (
      Bucket-frame m m' (l.hash_table i) (t.bucket i)
        (λ a h. let (c, v, d) = same a (ground (arith, t.members i a)) in (c, v)) (t.linked i));
  members = λ i a. ground (arith, t.members i a, same a, size);
  unique = λ a b ha hb e. t.unique a b ha hb (ground (arith, same a, same b));
  distinct = t.distinct;
}

pub list_add_to_hash_table-IsTable :
    (l : NodeList) (ln : ℕ) (m : Memory) (ns ns' : List ℕ)
    → has_table l ≡ true
    → m.live ln ≡ true
    → has ln ns ≡ false
    → ((a : ℕ) → has a ns ≡ true → m.id a ≢ m.id ln)
    → ((a : ℕ) → has a ns' ≡ (a == ln || has a ns))
    → IsTable m l ns
    → (table : ℕ → ℕ) × (collissions : ℕ → ℕ) × (list_add_to_hash_table l ln m
        ≡ some (record l { hash_table = table }, record m { hash_collission_next = collissions }))
      × IsTable
          (record m { hash_collission_next = collissions })
          (record l { hash_table = table })
          ns'
      × ((a : ℕ) → a ≢ ln → collissions a ≡ m.hash_collission_next a)
unfolding list_add_to_hash_table
list_add_to_hash_table-IsTable l ln m ns ns' sized live out fresh more t =
    let h = bucket_of l (m.id ln) in
    let table = update l.hash_table h ln in
    let collissions = update m.hash_collission_next ln (l.hash_table h) in
    let m' = record m { hash_collission_next = collissions } in
    let out_of = λ (i : ℕ). t.members i ln in
    let old = λ (i : ℕ).
      Bucket-frame m m' (l.hash_table i) (t.bucket i)
        (λ a mem. (ground (arith, t.members i a), refl)) (t.linked i) in
    (
      table,
      collissions,
      ground arith,
      record {
        bucket = λ i. if h == i then ln ∷ t.bucket i else t.bucket i;
        linked = λ i. elim (Bool-cases (h == i)) [
          | inl hit ↦ ground (arith, old i)
          | inr miss ↦
              let same : table i ≡ l.hash_table i = ground arith in rw miss (rw same (old i))
        ];
        members = λ i a. elim (Bool-cases (h == i)) [
          | inl hit ↦ ground (arith, t.members i a, more a)
          | inr miss ↦ ground (arith, t.members i a, more a)
        ];
        unique = λ a b ha hb e. ground (arith, t.unique a b, more a, more b, fresh a, fresh b);
        distinct = λ i. elim (Bool-cases (h == i)) [
          | inl hit ↦ rw hit (ground (arith, out_of i), t.distinct i)
          | inr miss ↦ rw miss (t.distinct i)
        ];
      },
      λ a ne. ground arith,
    )

find_in_bucket-eq :
    (fuel p id : ℕ) (m : Memory) (ns : List ℕ)
    → m.live 0 ≡ false
    → Bucket m p ns
    → length ns < fuel
    → find_in_bucket fuel p id m ≡ some (or_null (find_by m.id id ns))
unfolding find_in_bucket
find_in_bucket-eq zero p id m ns null b le = absurd (omega arith)
find_in_bucket-eq (suc fuel) p id m [] null b le = rw b (ground arith)
find_in_bucket-eq (suc fuel) p id m (a ∷ ns) null b le =
    let rest = find_in_bucket-eq fuel (m.hash_collission_next a) id m ns null b.2 (omega arith) in
    rw (b.0) (ground (arith, rest, b.1))

-- A bucket is no longer than the list.
length_of_Bucket :
    (m : Memory) (l : NodeList) (ns : List ℕ) (i : ℕ) (t : IsTable m l ns)
    → IsDistinct ns
    → length (t.bucket i) ≤ length ns
length_of_Bucket m l ns i t d =
    length-le (t.bucket i) ns (t.distinct i) d (λ a h. ground (arith, t.members i a))

find_in_table :
    (m : Memory) (l : NodeList) (ns : List ℕ) (id : ℕ) (t : IsTable m l ns)
    → find_by m.id id (t.bucket (bucket_of l id)) ≡ find_by m.id id ns
find_in_table m l ns id t =
    find_by-agree m.id id (t.bucket (bucket_of l id)) ns
      (λ a h. ground (arith, t.members (bucket_of l id) a))
      (λ a h e. ground (arith, t.members (bucket_of l id) a)) t.unique

pub list_find_from_hash_table-eq :
    (fuel : ℕ) (l : NodeList) (id : ℕ) (m : Memory) (ns : List ℕ)
    → has_table l ≡ true
    → m.live 0 ≡ false
    → IsDistinct ns
    → length ns < fuel
    → IsTable m l ns
    → list_find_from_hash_table fuel l id m ≡ some (or_null (find_by m.id id ns))
unfolding list_find_from_hash_table
list_find_from_hash_table-eq fuel l id m ns sized null d le t =
    let h = bucket_of l id in
    let short = length_of_Bucket m l ns h t d in
    let found =
      find_in_bucket-eq fuel (l.hash_table h) id m (t.bucket h) null (t.linked h) (omega arith) in
    rw sized (found ∙ ap (λ o. some (or_null o)) (find_in_table m l ns id t))

-- What removing the node of an id leaves of a bucket, after the node `p` that stays.
unlink_from_bucket-Bucket :
    (fuel p id : ℕ) (m : Memory) (ns : List ℕ)
    → m.live 0 ≡ false
    → m.live p ≡ true
    → IsDistinct (p ∷ ns)
    → Bucket m (m.hash_collission_next p) ns
    → length ns < fuel
    → (collissions : ℕ → ℕ) × (unlink_from_bucket fuel p id m
        ≡ some (or_null (find_by m.id id ns), record m { hash_collission_next = collissions }))
      × Bucket
          (record m { hash_collission_next = collissions })
          (collissions p)
          (remove_by m.id id ns)
      × ((a : ℕ) → has a (p ∷ ns) ≡ false → collissions a ≡ m.hash_collission_next a)
unfolding unlink_from_bucket
unlink_from_bucket-Bucket zero p id m ns null live d b le = absurd (omega arith)
unlink_from_bucket-Bucket (suc fuel) p id m [] null live d b le =
    (m.hash_collission_next, ground arith, b, λ a h. refl)
unlink_from_bucket-Bucket (suc fuel) p id m (a ∷ ns) null live d b le =
    elim (Bool-cases (m.id a == id)) [
      | inl hit ↦
          let collissions = update m.hash_collission_next p (m.hash_collission_next a) in
          let m' = record m { hash_collission_next = collissions } in
          let at : collissions p ≡ m.hash_collission_next a = ground arith in
          (
            collissions,
            ground arith,
            rw hit (
                rw at (
                  Bucket-frame m m' (m.hash_collission_next a) ns (λ c h. (ground arith, refl))
                    b.2)),
            λ c h. ground arith,
          )
      | inr miss ↦
          let (collissions, run, linked, same) =
            unlink_from_bucket-Bucket fuel a id m ns null b.1 d.1 b.2 (omega arith) in
          (
            collissions,
            ground (arith, run),
            rw miss (same p (ground arith) ∙ b.0, b.1, linked),
            λ c h. same c (ground arith),
          )
    ]

-- How a bucket's new first node, table entry and collisions are found.
removed_from_Bucket :
    (fuel id : ℕ) (l : NodeList) (m : Memory) (bs : List ℕ)
    → has_table l ≡ true
    → m.live 0 ≡ false
    → IsDistinct bs
    → Bucket m (l.hash_table (bucket_of l id)) bs
    → length bs < fuel
    → (entry : ℕ) × (collissions : ℕ → ℕ) × (list_remove_from_hash_table fuel l id m
        ≡ some (
          or_null (find_by m.id id bs),
          record l { hash_table = update l.hash_table (bucket_of l id) entry },
          record m { hash_collission_next = collissions },
        ))
      × Bucket (record m { hash_collission_next = collissions }) entry (remove_by m.id id bs)
      × ((a : ℕ) → has a bs ≡ false → collissions a ≡ m.hash_collission_next a)
unfolding list_remove_from_hash_table
removed_from_Bucket fuel id l m [] sized null d b le =
    let same : update l.hash_table (bucket_of l id) 0 ≡ l.hash_table =
      fun_ext (λ i. ground arith) in
    (0, m.hash_collission_next, rw same (ground arith), refl, λ a h. refl)
removed_from_Bucket fuel id l m (a ∷ bs) sized null d b le = elim (Bool-cases (m.id a == id)) [
  | inl hit ↦
      (m.hash_collission_next a, m.hash_collission_next, ground arith, rw hit (b.2), λ c h. refl)
  | inr miss ↦
      let (collissions, run, linked, same) =
        unlink_from_bucket-Bucket fuel a id m bs null b.1 d b.2 (omega arith) in
      let kept : update l.hash_table (bucket_of l id) a ≡ l.hash_table =
        fun_ext (λ i. ground arith) in
      (a, collissions, rw kept (ground (arith, run)), rw miss (refl, b.1, linked), same)
]

pub list_remove_from_hash_table-IsTable :
    (fuel : ℕ) (l : NodeList) (id : ℕ) (m : Memory) (ns : List ℕ)
    → has_table l ≡ true
    → m.live 0 ≡ false
    → IsDistinct ns
    → length ns < fuel
    → IsTable m l ns
    → (table : ℕ → ℕ) × (collissions : ℕ → ℕ) × (list_remove_from_hash_table fuel l id m
        ≡ some (
          or_null (find_by m.id id ns),
          record l { hash_table = table },
          record m { hash_collission_next = collissions },
        ))
      × IsTable
          (record m { hash_collission_next = collissions })
          (record l { hash_table = table })
          (remove_by m.id id ns)
      × ((a : ℕ) → has a ns ≡ false → collissions a ≡ m.hash_collission_next a)
list_remove_from_hash_table-IsTable fuel l id m ns sized null d le t =
    let h = bucket_of l id in
    let bs = t.bucket h in
    let short = length_of_Bucket m l ns h t d in
    let (entry, collissions, run, linked, same) =
      removed_from_Bucket fuel id l m bs sized null (t.distinct h) (t.linked h) (omega arith) in
    let m' = record m { hash_collission_next = collissions } in
    let less = λ (a : ℕ). has-remove_by m.id id a bs (t.distinct h) (λ b c hb hc e.
      t.unique b c (ground (arith, t.members h b)) (ground (arith, t.members h c)) e) in
    let removed = λ (a : ℕ). has-remove_by m.id id a ns d t.unique in
    (
      update l.hash_table h entry,
      collissions,
      run
          ∙ ap (λ o. some (or_null o, record l { hash_table = update l.hash_table h entry }, m'))
              (find_in_table m l ns id t),
      record {
        bucket = λ i. if i == h then remove_by m.id id bs else t.bucket i;
        linked = λ i. elim (Bool-cases (i == h)) [
          | inl hit ↦ rw hit linked
          | inr miss ↦ rw miss (
              Bucket-frame m m' (l.hash_table i) (t.bucket i)
                (λ a mem. (same a (ground (arith, t.members i a, t.members h a)), refl))
                (t.linked i))
        ];
        members = λ i a. elim (Bool-cases (i == h)) [
          | inl hit ↦ ground (arith, less a, removed a, t.members h a)
          | inr miss ↦ ground (arith, removed a, t.members i a)
        ];
        unique =
            λ a b ha hb e. t.unique a b (ground (arith, removed a)) (ground (arith, removed b)) e;
        distinct = λ i. elim (Bool-cases (i == h)) [
          | inl hit ↦ rw hit (IsDistinct-remove_by m.id id bs (t.distinct h))
          | inr miss ↦ rw miss (t.distinct i)
        ];
      },
      λ a out. same a (ground (arith, t.members h a)),
    )
