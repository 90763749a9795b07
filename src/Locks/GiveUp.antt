-- ===== src/Locks/GiveUp.antt =====
-- A process that gives up the first lock on its list, as KernelExit does.
use theynix.Locks.Release.{find-change}
use mathlib.Core.Path.{subst}
use theynix.Base.{
  ℕ, ◌≡◌, ◌∙◌, inl, inr, refl, sym, ap, false, ◌==◌, some, List, [], ◌∷◌, ◌++◌, arith, Bool-cases,
  Option-cases, append-nil, has, remove,
}
use theynix.Kernel.{Kernel, Lock, Pcb, change_proc, current}
use theynix.PMem.{success}
use theynix.Locks.{hand_over, release_found, disown, find_lock, kernel_release}
use theynix.Locks.Release.{find-change}
use theynix.Locks.Invariant.{IsConsistent}

-- The process waits for no lock.
abbrev pub WaitsForNone : ℕ → Kernel → Type 0
WaitsForNone me k = (j : ℕ) (l : Lock) → find_lock j k ≡ some l → has me l.waiting_procs ≡ false

-- A PCB but for its list of owned locks.
abbrev pub but_locks : Pcb → Pcb
but_locks p = record p { owned_lock_ids = [] }

-- What releasing locks leaves alone, and the processes that it makes ready.
pub record Released (k k' : Kernel) : Type 0 where
  pub same_proc : k'.current_proc ≡ k.current_proc
  pub same_pcbs : (p : ℕ) → but_locks (k'.procs p) ≡ but_locks (k.procs p)
  pub woken : List ℕ
  pub woken_last : k'.ready_queue ≡ k.ready_queue ++ woken

hand_over-Released :
    (me i : ℕ) (ps : List ℕ) (k : Kernel)
    → has me ps ≡ false
    → WaitsForNone me k
    → Released k (hand_over i ps k)
      × (((hand_over i ps k).procs me).owned_lock_ids ≡ (k.procs me).owned_lock_ids)
      × WaitsForNone me (hand_over i ps k)
unfolding hand_over
hand_over-Released me i [] k out none_of = (
  record {
    same_proc = refl;
    same_pcbs = λ p. refl;
    woken = [];
    woken_last = sym (append-nil k.ready_queue);
  },
  refl,
  λ j l e. elim (Option-cases (find_lock j k)) [
    | inl missing ↦
        ground (arith, find-change i j (λ m. record m { acquired = false }) k (λ m. refl))
    | inr (m, f) ↦
        ground
          (arith, find-change i j (λ m. record m { acquired = false }) k (λ m. refl), none_of j m f)
  ],
)
hand_over-Released me i (q ∷ qs) k out none_of = (
  record {
    same_proc = refl;
    same_pcbs =
        λ p. elim (Bool-cases (q == p)) [ inl hit ↦ ground arith | inr miss ↦ ground arith ];
    woken = q ∷ [];
    woken_last = refl;
  },
  ground arith,
  λ j l e.
      let change =
        find-change i j (λ m. record m { waiting_procs = qs; owner_id = q }) k (λ m. refl) in
      elim (Option-cases (find_lock j k)) [
        | inl missing ↦ ground (arith, change)
        | inr (m, f) ↦ ground (arith, change, none_of j m f)
      ],
)

remove-first : (i : ℕ) (is : List ℕ) → remove i (i ∷ is) ≡ is
remove-first i is = ground arith

change_proc-but_locks :
    (q : ℕ) (f : Pcb → Pcb) (k : Kernel) (p : ℕ)
    → ((x : Pcb) → but_locks (f x) ≡ but_locks x)
    → but_locks ((change_proc q f k).procs p) ≡ but_locks (k.procs p)
change_proc-but_locks q f k p same = elim (Bool-cases (q == p)) [
  | inl hit ↦ ground (arith, same (k.procs p))
  | inr miss ↦ ground arith
]

change_proc-same :
    (q : ℕ) (k : Kernel) (f : Pcb → Pcb)
    → ((change_proc q f k).procs q).owned_lock_ids ≡ (f (k.procs q)).owned_lock_ids
change_proc-same q k f = ground arith

pub kernel_release-first :
    (i : ℕ) (is : List ℕ) (k : Kernel)
    → IsConsistent k
    → (current k).owned_lock_ids ≡ i ∷ is
    → WaitsForNone k.current_proc k
    → (k' : Kernel) × (kernel_release i k ≡ some (success, k'))
      × Released k k'
      × ((current k').owned_lock_ids ≡ is)
      × WaitsForNone k'.current_proc k'
unfolding kernel_release release_found
kernel_release-first i is k ok owns none_of =
    let me = k.current_proc in
    let (l, found, taken, mine) = ok.owned i me (ground arith) in
    let k1 = change_proc me (disown i) k in
    let (r, kept, none_of') =
      hand_over-Released me i l.waiting_procs k1 (none_of i l found) none_of in
    (
      hand_over i l.waiting_procs k1,
      ground arith,
      record {
        same_proc = r.same_proc;
        same_pcbs = λ p. r.same_pcbs p ∙ change_proc-but_locks me (disown i) k p (λ q. refl);
        woken = r.woken;
        woken_last = r.woken_last;
      },
      ap (λ m. ((hand_over i l.waiting_procs k1).procs m).owned_lock_ids) r.same_proc
          ∙ kept
          ∙ change_proc-same me k (disown i)
          ∙ rw owns (remove-first i is),
      subst (λ m. WaitsForNone m (hand_over i l.waiting_procs k1)) (sym r.same_proc) none_of',
    )
