-- ===== src/Locks/Steps.antt =====
-- What any sequence of lock calls by any processes keeps, with the scheduling: mutual exclusion, and
-- that no assert fails.
use mathlib.Core.Option.{some-injective}
use mathlib.Core.Path.{subst}
use theynix.Base.{
  ℕ, ◌≡◌, ◌≢◌, ◌∙◌, inl, inr, sym, true, false, ◌==◌, some, [], ◌∷◌, arith, if◌then◌else◌,
  Bool-cases, IsDistinct-append_one, has, has-append,
}
use theynix.Kernel.{
  Kernel, Lock, Outcome, Resume, change_proc, failed_assert, halted, idle_pid, lock_handed,
  make_ready, nothing, returned, switch_to_next_proc, switched, to_user, current,
}
use theynix.Locks.{find_lock, kernel_acquire_resumed, kernel_lock_init, success}
use theynix.Locks.Invariant.{IsConsistent}
use theynix.Locks.Acquire.{Leaves, switch-IsConsistent}
use theynix.Locks.Init.{
  release_outcome, Call, acquire, init, release, run_call, run_call-IsConsistent,
}
use theynix.Locks.Queues.{IsBack, IsParked, IsQueued, resume_of, switch-IsQueued}
use theynix.Locks.Release.{kernel_release-IsConsistent}
use theynix.Locks.Turns.{kernel_acquire-IsQueued, kernel_release-IsQueued, new_lock-IsQueued}

-- The running process is back from its call, and will be at this point of the user's program.
abbrev back_in_user : Kernel → Kernel
back_in_user k = change_proc k.current_proc (λ p. record p { resume = to_user }) k

-- One step of the system. The running process makes a lock call; it goes on in KernelAcquire, which
-- had switched to another process; the clock interrupts it; or it blocks for another reason than a
-- lock. And a process that was blocked for another reason becomes ready.
pub data Step (k : Kernel) : Kernel → Type 0 where
  called :
      (c : Call) (k' : Kernel)
      → k.current_proc ≢ idle_pid
      → IsBack (resume_of k k.current_proc)
      → Leaves (λ x. x ≡ k') (run_call c k)
      → Step k k'
  resumed :
      (i : ℕ) (k' : Kernel)
      → resume_of k k.current_proc ≡ lock_handed i
      → Leaves (λ x. x ≡ k') (kernel_acquire_resumed i k)
      → Step k (back_in_user k')
  ticked :
      IsBack (resume_of k k.current_proc)
      → Step k (
          switch_to_next_proc to_user
            (if k.current_proc == idle_pid then k else make_ready k.current_proc k))
  blocked :
      (r : Resume)
      → k.current_proc ≢ idle_pid
      → IsBack (resume_of k k.current_proc)
      → IsBack r
      → Step k (switch_to_next_proc r k)
  woken :
      (p : ℕ)
      → p ≢ k.current_proc
      → p ≢ idle_pid
      → has p k.ready_queue ≡ false
      → IsBack (resume_of k p)
      → Step k (make_ready p k)

pub data Reach (k : Kernel) : Kernel → Type 0 where
  here : Reach k k
  next : {u v : Kernel} → Reach k u → Step u v → Reach k v

-- What holds between two steps.
abbrev pub IsSound : Kernel → Type 0
IsSound k = IsConsistent k × IsQueued k

Leaves-elim :
    (P : Kernel → Type 0) (o : Outcome) (k : Kernel) → Leaves P o → Leaves (λ x. x ≡ k) o → P k
Leaves-elim P (returned rc w k') k p e = subst P e p
Leaves-elim P (switched k') k p e = subst P e p
Leaves-elim P failed_assert k p e = absurd p
Leaves-elim P halted k p e = absurd p

run_call-IsQueued :
    (c : Call) (k : Kernel)
    → IsSound k
    → k.current_proc ≢ idle_pid
    → IsBack (resume_of k k.current_proc)
    → Leaves IsQueued (run_call c k)
unfolding run_call release_outcome kernel_lock_init
run_call-IsQueued (init true) k (is, q) busy back = new_lock-IsQueued k is q
run_call-IsQueued (init false) k (is, q) busy back = q
run_call-IsQueued (acquire i) k (is, q) busy back = kernel_acquire-IsQueued i k q back busy
run_call-IsQueued (release i) k (is, q) busy back =
    let (rc, k', e, is') = kernel_release-IsConsistent i k is in
    rw e (kernel_release-IsQueued i k k' rc q back busy e)

-- A process that goes on in KernelAcquire finds what the asserts say.
kernel_acquire_resumed-lem :
    (i : ℕ) (k : Kernel)
    → IsSound k
    → resume_of k k.current_proc ≡ lock_handed i
    → kernel_acquire_resumed i k ≡ returned success nothing k
unfolding kernel_acquire_resumed
kernel_acquire_resumed-lem i k (is, q) e =
    let listed = q.handed i k.current_proc e (ground arith) in
    let (l, found, taken, mine) = is.owned i k.current_proc listed in ground (arith, is.nonzero)

back_in_user-IsSound : (k : Kernel) → IsSound k → IsSound (back_in_user k)
back_in_user-IsSound k (is, q) = (
  record {
    held = λ j l e a. ground (arith, is.held j l);
    idle = is.idle;
    owned = λ j p h. is.owned j p (ground arith);
    distinct = λ p. ground (arith, is.distinct p);
    fresh = is.fresh;
    nonzero = is.nonzero;
    counting = is.counting;
  },
  record {
    once = q.once;
    runs = q.runs;
    idles = q.idles;
    idle_resume = λ j e. ground (arith, q.idle_resume j);
    waits_once = q.waits_once;
    waits = λ j p l e h. ground (arith, q.waits j p l e h);
    handed = λ j p e h. ground (arith, q.handed j p);
  },
)

make_ready-IsConsistent : (p : ℕ) (k : Kernel) → IsConsistent k → IsConsistent (make_ready p k)
make_ready-IsConsistent p k is = record {
  held = is.held;
  idle = is.idle;
  owned = is.owned;
  distinct = is.distinct;
  fresh = is.fresh;
  nonzero = is.nonzero;
  counting = is.counting;
}

ticked-IsParked :
    (k : Kernel)
    → IsQueued k
    → IsBack (resume_of k k.current_proc)
    → IsParked to_user (if k.current_proc == idle_pid then k else make_ready k.current_proc k)
ticked-IsParked k q back = elim (Bool-cases (k.current_proc == idle_pid)) [
  | inl idle ↦ rw idle record {
    once = q.once;
    idles = q.idles;
    idle_resume = q.idle_resume;
    parked = λ i e. absurd (ground arith);
    waits_once = q.waits_once;
    waits = λ i p l e h. ground (arith, q.waits i p l e h);
    handed = λ i p e h. q.handed i p e (ground arith);
  }
  | inr busy ↦ rw busy record {
    once = IsDistinct-append_one k.current_proc k.ready_queue q.once q.runs;
    idles = ground (arith, q.idles, has-append idle_pid k.ready_queue (k.current_proc ∷ []));
    idle_resume = q.idle_resume;
    parked = λ i e. absurd (ground arith);
    waits_once = q.waits_once;
    waits = λ i p l e h.
        ground (arith, q.waits i p l e h, has-append p k.ready_queue (k.current_proc ∷ []));
    handed = λ i p e h.
        q.handed i p e (ground (arith, has-append p k.ready_queue (k.current_proc ∷ [])));
  }
]

blocked-IsParked : (r : Resume) (k : Kernel) → IsQueued k → IsBack r → IsParked r k
blocked-IsParked r k q other = record {
  once = q.once;
  idles = q.idles;
  idle_resume = q.idle_resume;
  parked = λ i e. absurd (other i e);
  waits_once = q.waits_once;
  waits = λ i p l e h. ground (arith, q.waits i p l e h);
  handed = λ i p e h. q.handed i p e (ground arith);
}

woken-IsQueued :
    (k : Kernel) (n : ℕ)
    → IsQueued k
    → n ≢ k.current_proc
    → n ≢ idle_pid
    → has n k.ready_queue ≡ false
    → IsBack (resume_of k n)
    → IsQueued (make_ready n k)
woken-IsQueued k n q other busy out back = record {
  once = IsDistinct-append_one n k.ready_queue q.once out;
  runs = ground (arith, q.runs, has-append k.current_proc k.ready_queue (n ∷ []));
  idles = ground (arith, q.idles, has-append idle_pid k.ready_queue (n ∷ []));
  idle_resume = q.idle_resume;
  waits_once = q.waits_once;
  waits =
      λ i p l e h. ground (arith, q.waits i p l e h, back i, has-append p k.ready_queue (n ∷ []));
  handed = λ i p e h. q.handed i p e (ground (arith, back i, has-append p k.ready_queue (n ∷ [])));
}

ticked-IsConsistent :
    (k : Kernel)
    → IsConsistent k
    → IsConsistent (if k.current_proc == idle_pid then k else make_ready k.current_proc k)
ticked-IsConsistent k is = elim (Bool-cases (k.current_proc == idle_pid)) [
  | inl idle ↦ rw idle is
  | inr busy ↦ rw busy (make_ready-IsConsistent k.current_proc k is)
]

Step-IsSound : {u v : Kernel} → Step u v → IsSound u → IsSound v
Step-IsSound {u} (called c v busy back e) (is, q) = (
  Leaves-elim IsConsistent (run_call c u) v (run_call-IsConsistent c u is) e,
  Leaves-elim IsQueued (run_call c u) v (run_call-IsQueued c u (is, q) busy back) e,
)
Step-IsSound {u} (resumed i v waits e) (is, q) = back_in_user-IsSound v (
    Leaves-elim IsSound (kernel_acquire_resumed i u) v
      (rw (kernel_acquire_resumed-lem i u (is, q) waits) (is, q)) e)
Step-IsSound {u} (ticked back) (is, q) =
    let k1 = if u.current_proc == idle_pid then u else make_ready u.current_proc u in
    (
      switch-IsConsistent to_user k1 (ticked-IsConsistent u is),
      switch-IsQueued to_user k1 (ticked-IsParked u q back),
    )
Step-IsSound {u} (blocked r busy back other) (is, q) =
    (switch-IsConsistent r u is, switch-IsQueued r u (blocked-IsParked r u q other))
Step-IsSound {u} (woken p other busy out back) (is, q) =
    (make_ready-IsConsistent p u is, woken-IsQueued u p q other busy out back)

Reach-IsSound : {k u : Kernel} → IsSound k → Reach k u → IsSound u
Reach-IsSound is here = is
Reach-IsSound is (next r s) = Step-IsSound s (Reach-IsSound is r)

-- From a kernel with consistent locks and queues on, however the processes call KernelLockInit,
-- KernelAcquire and KernelRelease, are interrupted by the clock, and block and become ready for other
-- reasons: two processes never have the same lock on their lists of owned locks; the lock of a list
-- is held, and names that process as its owner; the next lock call of the running process fails no
-- assert; and a process that waited in KernelAcquire and runs again passes the asserts behind the
-- switch, so that the call returns SUCCESS.
pub locks_exclude :
    (k u : Kernel)
    → IsConsistent k
    → IsQueued k
    → Reach k u
    → ((i p q : ℕ)
        → has i (u.procs p).owned_lock_ids ≡ true
        → has i (u.procs q).owned_lock_ids ≡ true
        → (p ≡ q)
          × ((l : Lock) × (find_lock i u ≡ some l) × (l.acquired ≡ true) × (l.owner_id ≡ p)))
      × ((c : Call) → run_call c u ≢ failed_assert)
      × ((i : ℕ)
          → (current u).resume ≡ lock_handed i
          → kernel_acquire_resumed i u ≡ returned success nothing u)
locks_exclude k u is q r =
    let (is', q') = Reach-IsSound (is, q) r in
    (
      λ i p n hp hn.
          let (l, e, a, o) = is'.owned i p hp in
          let (l', e', a', o') = is'.owned i n hn in
          (ground (arith, some-injective (sym e ∙ e')), (l, e, a, o)),
      λ c failed. subst (Leaves IsConsistent) failed (run_call-IsConsistent c u is'),
      λ i waits. kernel_acquire_resumed-lem i u (is', q') waits,
    )
