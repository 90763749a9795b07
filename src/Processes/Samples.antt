-- ===== src/Processes/Samples.antt =====
-- A small kernel with a family: process 2 runs, owns lock 1, and has the child 9; its parent 7 waits
-- for a child; process 8 is blocked for three more ticks.
use theynix.Base.{inl, inr, refl, true, ◌==◌, some, [], ◌∷◌, pos, arith, if◌then◌else◌, Bool-cases}
use theynix.Locks.Invariant.{IsConsistent}
use theynix.Kernel.{Kernel, Pcb}
use theynix.Kernel.Samples.{blank_pcb, held_lock, small_kernel}
use theynix.Locks.GiveUp.{WaitsForNone}

abbrev pub exiting : Pcb
exiting = record blank_pcb { owned_lock_ids = 1 ∷ []; live_parent = some 7; live_children = 9 ∷ [] }

abbrev pub waiting_parent : Pcb
waiting_parent = record blank_pcb { live_children = 2 ∷ []; waiting_on_children = true }

abbrev pub sleeper : Pcb
sleeper = record blank_pcb { clock_ticks_until_ready = pos 3 }

abbrev pub family : Kernel
family = record small_kernel {
  procs = λ p.
      if p == 2
      then exiting
      else if p == 7
      then waiting_parent
      else if p == 8
      then sleeper
      else blank_pcb;
  clock_block_procs = 8 ∷ [];
}

pub family-IsConsistent : IsConsistent family
family-IsConsistent = record {
  held = λ i l e a. ground arith;
  idle = λ i l e a. ground arith;
  owned = λ i p h. (held_lock, ground arith, refl, ground arith);
  distinct = λ p. elim (Bool-cases (p == 2)) [
    | inl hit ↦ rw hit (refl, tt)
    | inr miss ↦ rw miss (elim (Bool-cases (p == 7)) [
      | inl hit ↦ rw hit tt
      | inr miss7 ↦
          rw miss7 (elim (Bool-cases (p == 8)) [ inl hit ↦ rw hit tt | inr miss8 ↦ rw miss8 tt ])
    ])
  ];
  fresh = λ i h. ground arith;
  nonzero = refl;
  counting = omega arith;
}

pub family-WaitsForNone : WaitsForNone 2 family
family-WaitsForNone j l e = ground arith
