-- ===== src/Locks/Turns.antt =====
-- That the lock calls of the running process keep the queues in order.
use theynix.Base.{
  ℕ, ◌+◌, ◌≡◌, ◌≢◌, inl, inr, refl, sym, true, false, ◌&&◌, ◌==◌, none, some, List, [], ◌∷◌, ◌++◌,
  ℤ, arith, Bool-cases, Option-cases, IsDistinct, IsDistinct-append_one, find_by-append_one,
  find_by-append_some, find_by-key, has, has-append,
}
use mathlib.Core.Path.{subst}
use theynix.Kernel.{Kernel, Lock, idle_pid, lock_handed, switch_to_next_proc, current, change_proc}
use theynix.Locks.{
  find_owned, find_lock, change_lock, own, disown, hand_over, release_found, kernel_release,
  kernel_acquire, acquire_found, lock_new_lock, lock_id,
}
use theynix.Locks.Invariant.{IsConsistent}
use theynix.Locks.Release.{find-change}
use theynix.Locks.Acquire.{Leaves}
use theynix.Locks.Queues.{IsBack, IsQueued, resume_of, switch-IsQueued}

module _ (k : Kernel) (q : IsQueued k) (back : IsBack (resume_of k k.current_proc))
    (busy : k.current_proc ≢ idle_pid) where
  abbrev me : ℕ
  me = k.current_proc

  take-IsQueued :
      (i : ℕ)
      → IsQueued (
          change_proc me
            (own i)
            (change_lock i (λ l. record l { acquired = true; owner_id = me }) k))
  take-IsQueued i =
      let took : Lock → Lock = λ l. record l { acquired = true; owner_id = me } in
      let change = λ (j : ℕ). find-change i j took k (λ l. refl) in
      record {
        once = q.once;
        runs = q.runs;
        idles = q.idles;
        idle_resume = λ j e. ground (arith, q.idle_resume j);
        waits_once = λ j l e. elim (Option-cases (find_lock j k)) [
          | inl missing ↦ ground (arith, change j)
          | inr (l', found) ↦ ground (arith, change j, q.waits_once j l' found)
        ];
        waits = λ j p l e h. elim (Option-cases (find_lock j k)) [
          | inl missing ↦ ground (arith, change j)
          | inr (l', found) ↦ ground (arith, change j, q.waits j p l' found)
        ];
        handed = λ j p e h.
            ground (arith, q.handed j p, has-append j (current k).owned_lock_ids (i ∷ []));
      }

  -- The running process waits for no lock.
  waits_not : (j : ℕ) (l : Lock) → find_lock j k ≡ some l → has me l.waiting_procs ≡ false
  waits_not j l found = elim (Bool-cases (has me l.waiting_procs)) [
    | inl waiting ↦ absurd ((q.waits j me l found waiting).2 refl)
    | inr out ↦ out
  ]

  wait-IsQueued :
      (i : ℕ)
      → IsQueued (
          switch_to_next_proc
            (lock_handed i)
            (change_lock i (λ l. record l { waiting_procs = l.waiting_procs ++ (me ∷ []) }) k))
  wait-IsQueued i =
      let wait : Lock → Lock = λ l. record l { waiting_procs = l.waiting_procs ++ (me ∷ []) } in
      let k1 = change_lock i wait k in
      let change = λ (j : ℕ). find-change i j wait k (λ l. refl) in
      switch-IsQueued (lock_handed i) k1 (record {
        once = q.once;
        idles = q.idles;
        idle_resume = q.idle_resume;
        parked = λ j e. (q.runs, busy);
        waits_once = λ j l e. elim (Option-cases (find_lock j k)) [
          | inl missing ↦ ground (arith, change j)
          | inr (l', found) ↦ ground (
            arith,
            change j,
            q.waits_once j l' found,
            IsDistinct-append_one me l'.waiting_procs,
            waits_not j l' found,
          )
        ];
        waits = λ j p l e h. elim (Option-cases (find_lock j k)) [
          | inl missing ↦ ground (arith, change j)
          | inr (l', found) ↦ ground (
            arith,
            change j,
            q.waits j p l' found,
            has-append p l'.waiting_procs (me ∷ []),
            q.runs,
          )
        ];
        handed = λ j p e h. q.handed j p e (ground arith);
      })

  freed-IsQueued : (i : ℕ) → IsQueued (hand_over i [] (change_proc me (disown i) k))
  unfolding hand_over
  freed-IsQueued i =
      let change = λ (j : ℕ). find-change i j (λ l. record l { acquired = false }) k (λ l. refl) in
      record {
        once = q.once;
        runs = q.runs;
        idles = q.idles;
        idle_resume = λ j e. ground (arith, q.idle_resume j);
        waits_once = λ j l e. elim (Option-cases (find_lock j k)) [
          | inl missing ↦ ground (arith, change j)
          | inr (l', found) ↦ ground (arith, change j, q.waits_once j l' found)
        ];
        waits = λ j p l e h. elim (Option-cases (find_lock j k)) [
          | inl missing ↦ ground (arith, change j)
          | inr (l', found) ↦ ground (arith, change j, q.waits j p l' found)
        ];
        handed = λ j p e h. ground (arith, q.handed j p, back j);
      }

  handed-IsQueued :
      (i n : ℕ) (ns : List ℕ) (lock : Lock)
      → find_lock i k ≡ some lock
      → lock.waiting_procs ≡ n ∷ ns
      → IsQueued (hand_over i (n ∷ ns) (change_proc me (disown i) k))
  unfolding hand_over
  handed-IsQueued i n ns lock found waiting =
      let give : Lock → Lock = λ l. record l { waiting_procs = ns; owner_id = n } in
      let change = λ (j : ℕ). find-change i j give k (λ l. refl) in
      let (goes_on, not_ready, not_me, not_idle) = q.waits i n lock found (ground arith) in
      let distinct : IsDistinct (n ∷ ns) = subst IsDistinct waiting (q.waits_once i lock found) in
      record {
        once = IsDistinct-append_one n k.ready_queue q.once not_ready;
        runs = ground (arith, has-append me k.ready_queue (n ∷ []), q.runs);
        idles = ground (arith, has-append idle_pid k.ready_queue (n ∷ []), q.idles);
        idle_resume = λ j e. ground (arith, q.idle_resume j);
        waits_once = λ j l e. elim (Option-cases (find_lock j k)) [
          | inl missing ↦ ground (arith, change j)
          | inr (l', found') ↦ ground (arith, change j, q.waits_once j l' found', distinct)
        ];
        waits = λ j p l e h. elim (Bool-cases (i == j)) [
          | inl hit ↦ ground (
            arith,
            change j,
            found,
            q.waits i p lock found,
            has-append p k.ready_queue (n ∷ []),
            distinct,
          )
          | inr miss ↦ elim (Option-cases (find_lock j k)) [
            | inl missing ↦ ground (arith, change j)
            | inr (l', found') ↦
                ground (arith, change j, q.waits j p l' found', has-append p k.ready_queue (n ∷ []))
          ]
        ];
        handed = λ j p e h. elim (Bool-cases (n == p)) [
          | inl hit ↦ ground (arith, has-append j (k.procs n).owned_lock_ids (i ∷ []))
          | inr miss ↦ ground (arith, q.handed j p, back j, has-append p k.ready_queue (n ∷ []))
        ];
      }

pub new_lock-IsQueued :
    (k : Kernel)
    → IsConsistent k
    → IsQueued k
    → IsQueued (record k {
      locks = k.locks ++ (lock_new_lock k.next_synch_resource_id ∷ []);
      next_synch_resource_id = k.next_synch_resource_id + 1;
    })
unfolding lock_new_lock
new_lock-IsQueued k is q =
    let new = lock_new_lock k.next_synch_resource_id in
    let missing_yet =
      λ (j : ℕ) (e : find_lock j k ≡ none). find_by-append_one lock_id j new k.locks e in
    let old = λ (j : ℕ) (l : Lock) (e : find_lock j k ≡ some l).
      find_by-append_some lock_id j new l k.locks e in
    record {
      once = q.once;
      runs = q.runs;
      idles = q.idles;
      idle_resume = q.idle_resume;
      waits_once = λ j l e. elim (Option-cases (find_lock j k)) [
        | inl missing ↦ ground (arith, missing_yet j missing)
        | inr (l', found) ↦ ground (arith, old j l' found, q.waits_once j l' found)
      ];
      waits = λ j p l e h. elim (Option-cases (find_lock j k)) [
        | inl missing ↦ ground (arith, missing_yet j missing)
        | inr (l', found) ↦ ground (arith, old j l' found, q.waits j p l' found)
      ];
      handed = q.handed;
    }

hand_over-IsQueued :
    (k : Kernel) (i : ℕ) (ns : List ℕ) (lock : Lock)
    → IsQueued k
    → IsBack (resume_of k k.current_proc)
    → k.current_proc ≢ idle_pid
    → find_lock i k ≡ some lock
    → lock.waiting_procs ≡ ns
    → IsQueued (hand_over i ns (change_proc k.current_proc (disown i) k))
hand_over-IsQueued k i [] lock q back busy found waiting = freed-IsQueued k q back busy i
hand_over-IsQueued k i (n ∷ ns) lock q back busy found waiting =
    handed-IsQueued k q back busy i n ns lock found waiting

-- However the running process calls KernelAcquire, the queues are in order after it.
pub kernel_acquire-IsQueued :
    (i : ℕ) (k : Kernel)
    → IsQueued k
    → IsBack (resume_of k k.current_proc)
    → k.current_proc ≢ idle_pid
    → Leaves IsQueued (kernel_acquire i k)
unfolding kernel_acquire acquire_found
kernel_acquire-IsQueued i k q back busy = elim (Option-cases (find_lock i k)) [
  | inl missing ↦ rw (missing, kernel_acquire) q
  | inr (lock, found) ↦
      rw (found, kernel_acquire)
        (elim (Bool-cases lock.acquired) [
          | inr free ↦ rw free (
              subst
                (λ j. IsQueued (
                  change_proc k.current_proc (own j) (
                    change_lock i (λ l. record l { acquired = true; owner_id = k.current_proc })
                      k)))
                (sym (find_by-key lock_id i k.locks lock found)) (take-IsQueued k q back busy i))
          | inl taken ↦ rw taken (elim (Bool-cases (lock.owner_id == k.current_proc)) [
            | inl mine ↦ rw mine q
            | inr other ↦ rw other (wait-IsQueued k q back busy i)
          ])
        ])
]

-- However the running process calls KernelRelease, the queues are in order after it.
pub kernel_release-IsQueued :
    (i : ℕ) (k k' : Kernel) (rc : ℤ)
    → IsQueued k
    → IsBack (resume_of k k.current_proc)
    → k.current_proc ≢ idle_pid
    → kernel_release i k ≡ some (rc, k')
    → IsQueued k'
unfolding kernel_release release_found
kernel_release-IsQueued i k k' rc q back busy e = elim (Option-cases (find_lock i k)) [
  | inl missing ↦ let same : k ≡ k' = ground arith in subst IsQueued same q
  | inr (lock, found) ↦
      let me = k.current_proc in
      let after = hand_over i lock.waiting_procs (change_proc me (disown i) k) in
      elim (Bool-cases (lock.acquired && lock.owner_id == me)) [
        | inr refused ↦ let same : k ≡ k' = ground arith in subst IsQueued same q
        | inl holds ↦ elim (Bool-cases (find_owned i (current k))) [
          | inr lost ↦ absurd (ground arith)
          | inl listed ↦
              let same : after ≡ k' = ground arith in
              subst IsQueued same
                (hand_over-IsQueued k i lock.waiting_procs lock q back busy found refl)
        ]
      ]
]
