-- ===== src/Locks/Acquire.antt =====
-- KernelAcquire: the branches, and that the locks stay consistent.
use mathlib.Core.Option.{none, some-injective}
use theynix.Base.{
  ◌≢◌, Option-cases, find_by-key, ℕ, ◌≡◌, ◌∙◌, sym, refl, true, false, some, [], ◌∷◌, ◌++◌, ◌==◌,
  has, has-append, arith, IsDistinct-append_one, Bool-cases, inl, inr,
}
use theynix.Kernel.{
  next_proc, nothing, Kernel, Lock, Resume, lock_handed, switch_to_next_proc, Outcome, returned,
  switched, failed_assert, halted, current, change_proc,
}
use theynix.Locks.{
  success, error, acquire_found, kernel_acquire, lock_id, find_lock, change_lock, own,
}
use theynix.Locks.Invariant.{IsConsistent}
use theynix.Locks.Release.{find-change}

-- What holds of the kernel that a call leaves, however it ends without a failed assert.
abbrev pub Leaves : (Kernel → Type 0) → Outcome → Type 0
Leaves P (returned rc w k) = P k
Leaves P (switched k) = P k
Leaves P failed_assert = ⊥
Leaves P halted = ⊥

module _ (k : Kernel) (i : ℕ) (lock : Lock) (is : IsConsistent k)
    (found : find_lock i k ≡ some lock) (same_id : lock.id ≡ i) where
  not_owned : lock.acquired ≡ false → (p : ℕ) → has i (k.procs p).owned_lock_ids ≡ false
  not_owned free p = elim (Bool-cases (has i (k.procs p).owned_lock_ids)) [
    | inr no_owner ↦ no_owner
    | inl owner ↦
        let (l, e, a, o) = is.owned i p owner in ground (arith, some-injective (sym found ∙ e))
  ]

  take-IsConsistent :
      lock.acquired ≡ false
      → IsConsistent (
          change_proc k.current_proc
            (own lock.id)
            (change_lock i (λ l. record l { acquired = true; owner_id = k.current_proc }) k))
  take-IsConsistent free =
      let me = k.current_proc in
      let took : Lock → Lock = λ l. record l { acquired = true; owner_id = me } in
      let change = λ (j : ℕ). find-change i j took k (λ l. refl) in
      let appended = λ (j : ℕ). has-append j (current k).owned_lock_ids (i ∷ []) in
      record {
        held = λ j l e a. ground (arith, change j, is.held j l, appended j, found);
        idle = λ j l e a. ground (arith, change j, is.idle j l, found);
        owned = λ j p h. elim (Bool-cases (i == j)) [
          | inl hit ↦ (
            took lock,
            ground (arith, change j, found),
            refl,
            ground (arith, not_owned free p, appended j),
          )
          | inr miss ↦
              let (l, e, a, o) = is.owned j p (ground (arith, appended j)) in
              (l, ground (arith, change j), a, o)
        ];
        distinct = λ p. ground (
          arith,
          is.distinct p,
          IsDistinct-append_one i (current k).owned_lock_ids,
          not_owned free me,
        );
        fresh = λ j h. ground (arith, change j, is.fresh j);
        nonzero = ground (arith, change 0, is.nonzero);
        counting = is.counting;
      }

  wait-IsConsistent :
      lock.acquired ≡ true
      → IsConsistent (
          change_lock i
            (λ l. record l { waiting_procs = l.waiting_procs ++ (k.current_proc ∷ []) })
            k)
  wait-IsConsistent taken =
      let wait : Lock → Lock =
        λ l. record l { waiting_procs = l.waiting_procs ++ (k.current_proc ∷ []) } in
      let change = λ (j : ℕ). find-change i j wait k (λ l. refl) in
      record {
        held = λ j l e a. ground (arith, change j, is.held j l, found, is.held i lock);
        idle = λ j l e a. ground (arith, change j, is.idle j l, found);
        owned = λ j p h.
            let (l, e, a, o) = is.owned j p h in
            elim (Bool-cases (i == j)) [
              | inl hit ↦ (wait l, ground (arith, change j), a, o)
              | inr miss ↦ (l, ground (arith, change j), a, o)
            ];
        distinct = is.distinct;
        fresh = λ j h. ground (arith, change j, is.fresh j);
        nonzero = ground (arith, change 0, is.nonzero);
        counting = is.counting;
      }

-- Switching to another process touches no lock and no list of owned locks.
pub switch-IsConsistent :
    (r : Resume) (k : Kernel) → IsConsistent k → IsConsistent (switch_to_next_proc r k)
switch-IsConsistent r k is =
    let me = k.current_proc in
    let same : (p : ℕ)
        → ((switch_to_next_proc r k).procs p).owned_lock_ids ≡ (k.procs p).owned_lock_ids =
      λ p. ground arith in
    record {
      held = λ j l e a. ground (arith, same l.owner_id, is.held j l);
      idle = is.idle;
      owned = λ j p h. is.owned j p (ground (arith, same p));
      distinct = λ p. ground (arith, same p, is.distinct p);
      fresh = is.fresh;
      nonzero = is.nonzero;
      counting = is.counting;
    }

acquire_found-IsConsistent :
    (k : Kernel) (i : ℕ) (lock : Lock)
    → IsConsistent k
    → find_lock i k ≡ some lock
    → Leaves IsConsistent (acquire_found i lock k)
unfolding acquire_found
acquire_found-IsConsistent k i lock is found =
    let me = k.current_proc in
    let same_id = find_by-key lock_id i k.locks lock found in
    elim (Bool-cases lock.acquired) [
      | inr free ↦ rw free (take-IsConsistent k i lock is found same_id free)
      | inl taken ↦ rw taken (elim (Bool-cases (lock.owner_id == me)) [
        | inl mine ↦ rw mine is
        | inr other ↦ rw other (
            switch-IsConsistent (lock_handed i) _
              (wait-IsConsistent k i lock is found same_id taken))
      ])
    ]

-- However KernelAcquire ends, the kernel it leaves is consistent.
pub kernel_acquire-IsConsistent :
    (i : ℕ) (k : Kernel) → IsConsistent k → Leaves IsConsistent (kernel_acquire i k)
unfolding kernel_acquire
kernel_acquire-IsConsistent i k is = elim (Option-cases (find_lock i k)) [
  | inl missing ↦ rw (missing, kernel_acquire) is
  | inr (lock, found) ↦ rw (found, kernel_acquire) (acquire_found-IsConsistent k i lock is found)
]

-- KernelAcquire refuses an unknown lock and changes nothing; on a lock that the caller holds it
-- returns SUCCESS and changes nothing; it gives a free lock to the caller; and on a lock that
-- another process holds it puts the caller at the end of the lock's queue and switches.
pub kernel_acquire-branches :
    (i : ℕ) (k : Kernel) (lock : Lock)
    → IsConsistent k
    → let me = k.current_proc in
      (find_lock i k ≡ none → kernel_acquire i k ≡ returned error nothing k)
      × (find_lock i k ≡ some lock
          → (lock.acquired ≡ true
              → lock.owner_id ≡ me
              → kernel_acquire i k ≡ returned success nothing k)
            × (lock.acquired ≡ false
                → (k' : Kernel) × (kernel_acquire i k ≡ returned success nothing k')
                  × (find_lock i k' ≡ some (record lock { acquired = true; owner_id = me }))
                  × (has i (k'.procs me).owned_lock_ids ≡ true))
            × (lock.acquired ≡ true
                → lock.owner_id ≢ me
                → (k' : Kernel) × (kernel_acquire i k ≡ switched k')
                  × (find_lock i k'
                      ≡ some (record lock { waiting_procs = lock.waiting_procs ++ (me ∷ []) }))
                  × (k'.current_proc ≡ (next_proc k.ready_queue).0)))
unfolding kernel_acquire acquire_found
kernel_acquire-branches i k lock is =
    let me = k.current_proc in
    let took : Lock → Lock = λ l. record l { acquired = true; owner_id = me } in
    let wait : Lock → Lock = λ l. record l { waiting_procs = l.waiting_procs ++ (me ∷ []) } in
    (
      λ missing. rw (missing, kernel_acquire),
      λ found. (
        λ taken mine. ground arith,
        λ free. (
          change_proc me (own i) (change_lock i took k),
          ground (arith, find_by-key lock_id i k.locks lock),
          ground (arith, find-change i i took k (λ l. refl)),
          ground (arith, has-append i (current k).owned_lock_ids (i ∷ [])),
        ),
        λ taken other. (
          switch_to_next_proc (lock_handed i) (change_lock i wait k),
          ground arith,
          ground (arith, find-change i i wait k (λ l. refl)),
          refl,
        ),
      ),
    )
