-- ===== src/KernelHeap/Start.antt =====
-- The kernel's data at the start satisfies the invariant of the locks.
use theynix.Base.{ℕ, ◌<◌, ◌≡◌, refl, none, [], arith}
use theynix.Locks.Invariant.{IsConsistent}
use theynix.Kernel.{Kernel}
use theynix.CVars.{find_cvar}
use theynix.Ttys.{num_terminals, tty_init}
use theynix.KernelHeap.{init_bookkeeping_structs}
use theynix.Pipes.{find_pipe}
use theynix.Locks.{find_lock}

-- InitBookkeepingStructs makes the locks consistent, whatever the globals held before, if ids begin
-- above 0 and no process has a lock on its list; it leaves no resource, no ready and no blocked
-- process, and no terminal with anything on its queues.
pub init_bookkeeping_structs-IsConsistent :
    (k : Kernel)
    → 0 < k.next_synch_resource_id
    → ((p : ℕ) → (k.procs p).owned_lock_ids ≡ [])
    → let k' = init_bookkeeping_structs k in
      IsConsistent k'
      × ((i : ℕ) → (find_lock i k' ≡ none) × (find_cvar i k' ≡ none) × (find_pipe i k' ≡ none))
      × (k'.ready_queue ≡ [])
      × (k'.clock_block_procs ≡ [])
      × ((i : ℕ) → i < num_terminals → k'.ttys i ≡ tty_init)
unfolding init_bookkeeping_structs
init_bookkeeping_structs-IsConsistent k counting none_owned = (
  record {
    held = λ i l e a. ground arith;
    idle = λ i l e a. ground arith;
    owned = λ i p h. absurd (ground (arith, none_owned p));
    distinct = λ p. rw (none_owned p) tt;
    fresh = λ i h. refl;
    nonzero = refl;
    counting = counting;
  },
  λ i. (refl, refl, refl),
  refl,
  refl,
  λ i h. ground arith,
)
