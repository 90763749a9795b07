-- ===== src/Locks/Release.antt =====
-- KernelRelease keeps the locks consistent, and hands the lock to the first waiting process.
use mathlib.Core.Option
use mathlib.Core.Option.{some-injective}
use theynix.Base.{
  ℕ, ◌≡◌, ◌≢◌, ◌∙◌, ◌⊎◌, inl, inr, refl, sym, true, false, ◌&&◌, ◌==◌, none, some, List, [], ◌∷◌,
  ◌++◌, ℤ, arith, if◌then◌else◌, Bool-cases, Option-cases, IsDistinct, IsDistinct-append_one,
  IsDistinct-remove, find_by-change, has, has-append, has-remove,
}
use theynix.PMem.{success, error}
use theynix.Kernel.{Kernel, Lock, current, change_proc}
use theynix.Locks.{
  find_lock, change_lock, lock_id, disown, hand_over, release_found, kernel_release,
}
use theynix.Locks.Invariant.{IsConsistent}

pub find-change :
    (i j : ℕ) (f : Lock → Lock) (k : Kernel)
    → ((l : Lock) → (f l).id ≡ l.id)
    → find_lock j (change_lock i f k)
      ≡ (if i == j then Option.map f (find_lock j k) else find_lock j k)
find-change i j f k same = find_by-change lock_id i j f k.locks same

module _ (k : Kernel) (i : ℕ) (lock : Lock) (is : IsConsistent k)
    (found : find_lock i k ≡ some lock) (taken : lock.acquired ≡ true)
    (mine : lock.owner_id ≡ k.current_proc) where
  -- Only the caller has the lock on its list.
  owned_by_caller : (p : ℕ) → has i (k.procs p).owned_lock_ids ≡ true → p ≡ k.current_proc
  owned_by_caller p h =
      let (l, e, a, o) = is.owned i p h in ground (arith, some-injective (sym found ∙ e))

  -- After the caller gave the lock up, no list has it, and the others are as they were.
  after : ℕ → List ℕ
  after p = ((change_proc k.current_proc (disown i) k).procs p).owned_lock_ids

  has-after :
      (j p : ℕ) → has j (after p) ≡ (if i == j then false else has j (k.procs p).owned_lock_ids)
  unfolding after
  has-after j p = ground (
    arith,
    has-remove i j (current k).owned_lock_ids (is.distinct k.current_proc),
    owned_by_caller p,
  )

  after-IsDistinct : (p : ℕ) → IsDistinct (after p)
  unfolding after
  after-IsDistinct p = ground (arith, is.distinct p, IsDistinct-remove i (k.procs p).owned_lock_ids)

  freed-IsConsistent :
      lock.waiting_procs ≡ []
      → IsConsistent (hand_over i [] (change_proc k.current_proc (disown i) k))
  unfolding hand_over after
  freed-IsConsistent none_waits =
      let change = λ (j : ℕ). find-change i j (λ l. record l { acquired = false }) k (λ l. refl) in
      record {
        held = λ j l e a. ground (arith, change j, is.held j l, has-after j l.owner_id);
        idle = λ j l e a. ground (arith, change j, is.idle j l);
        owned = λ j p h.
            let (l, e, a, o) = is.owned j p (ground (arith, has-after j p)) in
            (l, ground (arith, change j, has-after j p), a, o);
        distinct = after-IsDistinct;
        fresh = λ j h. ground (arith, change j, is.fresh j);
        nonzero = ground (arith, change 0, is.nonzero);
        counting = is.counting;
      }

  handed-IsConsistent :
      (q : ℕ) (qs : List ℕ)
      → lock.waiting_procs ≡ q ∷ qs
      → IsConsistent (hand_over i (q ∷ qs) (change_proc k.current_proc (disown i) k))
  unfolding hand_over after
  handed-IsConsistent q qs waits =
      let give : Lock → Lock = λ l. record l { waiting_procs = qs; owner_id = q } in
      let change = λ (j : ℕ). find-change i j give k (λ l. refl) in
      record {
        held = λ j l e a. ground (
          arith,
          change j,
          is.held j l,
          has-after j l.owner_id,
          has-append j (after q) (i ∷ []),
          found,
        );
        idle = λ j l e a. ground (arith, change j, is.idle j l, found);
        owned = λ j p h. elim (Bool-cases (i == j)) [
          | inl hit ↦ (
            give lock,
            ground (arith, change j, found),
            taken,
            ground (arith, has-after j p, has-append j (after p) (i ∷ [])),
          )
          | inr miss ↦
              let (l, e, a, o) =
                is.owned j p (ground (arith, has-after j p, has-append j (after p) (i ∷ []))) in
              (l, ground (arith, change j), a, o)
        ];
        distinct = λ p. ground (
          arith,
          after-IsDistinct p,
          IsDistinct-append_one i (after p) (after-IsDistinct p),
          has-after i p,
        );
        fresh = λ j h. ground (arith, change j, is.fresh j);
        nonzero = ground (arith, change 0, is.nonzero);
        counting = is.counting;
      }

  hand_over-IsConsistent :
      (ps : List ℕ)
      → lock.waiting_procs ≡ ps
      → IsConsistent (hand_over i ps (change_proc k.current_proc (disown i) k))
  hand_over-IsConsistent [] e = freed-IsConsistent e
  hand_over-IsConsistent (q ∷ qs) e = handed-IsConsistent q qs e

release_found-IsConsistent :
    (k : Kernel) (i : ℕ) (lock : Lock)
    → IsConsistent k
    → find_lock i k ≡ some lock
    → (rc : ℤ) × (k' : Kernel) × (release_found i lock k ≡ some (rc, k')) × IsConsistent k'
unfolding release_found
release_found-IsConsistent k i lock is found =
    elim (Bool-cases (lock.acquired && lock.owner_id == k.current_proc)) [
      | inr refused ↦ (error, k, ground arith, is)
      | inl holds ↦
          let taken : lock.acquired ≡ true = ground arith in
          let mine : lock.owner_id ≡ k.current_proc = ground arith in
          let k' = hand_over i lock.waiting_procs (change_proc k.current_proc (disown i) k) in
          (
            success,
            k',
            ground (arith, is.held i lock, is.nonzero),
            hand_over-IsConsistent k i lock is found taken mine lock.waiting_procs refl,
          )
    ]

-- Releasing a lock never fails its assert in a consistent kernel, and leaves the kernel consistent.
pub kernel_release-IsConsistent :
    (i : ℕ) (k : Kernel)
    → IsConsistent k
    → (rc : ℤ) × (k' : Kernel) × (kernel_release i k ≡ some (rc, k')) × IsConsistent k'
unfolding kernel_release
kernel_release-IsConsistent i k is = elim (Option-cases (find_lock i k)) [
  | inl missing ↦ (error, k, rw (missing, kernel_release), is)
  | inr (lock, found) ↦ rw (found, kernel_release) (release_found-IsConsistent k i lock is found)
]

hand_over-keeps :
    (i : ℕ) (ps : List ℕ) (k : Kernel)
    → ((hand_over i ps k).cvars ≡ k.cvars) × ((hand_over i ps k).current_proc ≡ k.current_proc)
unfolding hand_over
hand_over-keeps i [] k = (refl, refl)
hand_over-keeps i (p ∷ ps) k = (refl, refl)

-- A release of a lock that the caller holds succeeds, and no condition variable changes. If nobody
-- waits, the lock is free and the ready queue as before; otherwise the process that has waited
-- longest owns the lock, has it on its list, is at the end of the ready queue, and waits no more.
pub kernel_release-hands_over :
    (i : ℕ) (k : Kernel) (lock : Lock)
    → IsConsistent k
    → find_lock i k ≡ some lock
    → lock.acquired ≡ true
    → lock.owner_id ≡ k.current_proc
    → (k' : Kernel) × (kernel_release i k ≡ some (success, k'))
      × ((k'.cvars ≡ k.cvars) × (k'.current_proc ≡ k.current_proc))
      × (lock.waiting_procs ≡ []
          → (find_lock i k' ≡ some (record lock { acquired = false }))
            × (k'.ready_queue ≡ k.ready_queue))
      × ((q : ℕ) (qs : List ℕ)
          → lock.waiting_procs ≡ q ∷ qs
          → (find_lock i k' ≡ some (record lock { owner_id = q; waiting_procs = qs }))
            × (has i (k'.procs q).owned_lock_ids ≡ true)
            × (k'.ready_queue ≡ k.ready_queue ++ (q ∷ [])))
unfolding kernel_release release_found hand_over
kernel_release-hands_over i k lock is found taken mine =
    let k1 = change_proc k.current_proc (disown i) k in
    (
      hand_over i lock.waiting_procs k1,
      ground (arith, is.held i lock, is.nonzero),
      hand_over-keeps i lock.waiting_procs k1,
      λ e. ground (arith, find-change i i (λ l. record l { acquired = false }) k1 (λ l. refl)),
      λ q qs e. ground (
        arith,
        find-change i i (λ l. record l { waiting_procs = qs; owner_id = q }) k1 (λ l. refl),
        has-append i (k1.procs q).owned_lock_ids (i ∷ []),
      ),
    )

pub kernel_release-refused :
    (i : ℕ) (k : Kernel) (lock : Lock)
    → find_lock i k ≡ some lock
    → (lock.acquired ≡ false) ⊎ (lock.owner_id ≢ k.current_proc)
    → kernel_release i k ≡ some (error, k)
unfolding kernel_release release_found
kernel_release-refused i k lock found other = ground arith

pub kernel_release-missing :
    (i : ℕ) (k : Kernel) → find_lock i k ≡ none → kernel_release i k ≡ some (error, k)
unfolding kernel_release
kernel_release-missing i k missing = rw (missing, kernel_release)
