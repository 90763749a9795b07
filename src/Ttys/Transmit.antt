-- ===== src/Ttys/Transmit.antt =====
-- A message leaves the terminal whole and in order, in chunks of a line at most.
use theynix.Base.{
  ℕ, zero, suc, ◌+◌, ◌-◌, ◌*◌, ◌≤◌, ◌<◌, ◌≡◌, ◌∙◌, inl, inr, refl, sym, ap, none, some, List, [],
  ◌∷◌, ◌++◌, arith, if◌then◌else◌, ltb, Bool-cases, length, take, drop, is_empty, length-drop,
  length-take, take-append-drop,
}
use theynix.Kernel.{
  Kernel, Pcb, Tty, change_proc, make_ready, next_proc, switch_to_next_proc, tty_write_done,
}
use theynix.Ttys.{
  next_transmit, change_tty, kernel_tty_write_internal, terminal_max_line, transmit_chunk,
  trap_tty_transmit,
}

-- What the next transmit interrupts of a terminal send, and the kernel after them. It stops when an
-- interrupt sends nothing, since the hardware then raises no other.
pub transmit_rest : (fuel tty_id : ℕ) → Kernel → List ℕ × Kernel
transmit_rest zero tty_id k = ([], k)
transmit_rest (suc fuel) tty_id k = elim (trap_tty_transmit tty_id k) [
  | none ↦ ([], k)
  | some (sent, k') ↦ elim sent [
    | none ↦ ([], k')
    | some chunk ↦ let (later, k'') = transmit_rest fuel tty_id k' in (chunk ++ later, k'')
  ]
]

pub take-all : (n : ℕ) (xs : List ℕ) → length xs ≤ n → take n xs ≡ xs
take-all zero [] h = refl
take-all zero (x ∷ xs) h = absurd (omega arith)
take-all (suc n) [] h = refl
take-all (suc n) (x ∷ xs) h = ap (λ t. x ∷ t) (take-all n xs (omega arith))

pub drop-all : (n : ℕ) (xs : List ℕ) → length xs ≤ n → drop n xs ≡ []
drop-all zero [] h = refl
drop-all zero (x ∷ xs) h = absurd (omega arith)
drop-all (suc n) [] h = refl
drop-all (suc n) (x ∷ xs) h = drop-all n xs (omega arith)

-- The message that is left to a process is as long as it says.
abbrev pub IsMessage : Pcb → Type 0
IsMessage p = length p.tty_transmit_pointer ≡ p.tty_transmit_len

change_proc-at : (p : ℕ) (f : Pcb → Pcb) (k : Kernel) → (change_proc p f k).procs p ≡ f (k.procs p)
change_proc-at p f k = ground arith

transmit_chunk-take :
    (p : Pcb) → IsMessage p → transmit_chunk p ≡ take terminal_max_line p.tty_transmit_pointer
transmit_chunk-take p is = elim (Bool-cases (ltb terminal_max_line p.tty_transmit_len)) [
  | inl long ↦ rw long refl
  | inr short ↦ rw short (
      take-all p.tty_transmit_len p.tty_transmit_pointer (ground arith)
      ∙ sym (take-all terminal_max_line p.tty_transmit_pointer (ground arith)))
]

-- The process at the front has a line sent: it moves on, and sends the next one.
abbrev moved_on : Pcb → Pcb
moved_on q = record q {
  tty_transmit_pointer = drop terminal_max_line q.tty_transmit_pointer;
  tty_transmit_len = q.tty_transmit_len - terminal_max_line;
}

trap_tty_transmit-long :
    (tty_id p : ℕ) (k : Kernel)
    → (k.ttys tty_id).waiting_to_transmit ≡ p ∷ []
    → 1024 < (k.procs p).tty_transmit_len
    → let k' = change_proc p moved_on k in
      trap_tty_transmit tty_id k ≡ some (some (transmit_chunk (k'.procs p)), k')
unfolding trap_tty_transmit
trap_tty_transmit-long tty_id p k alone long = ground arith

trap_tty_transmit-last :
    (tty_id p : ℕ) (k : Kernel)
    → (k.ttys tty_id).waiting_to_transmit ≡ p ∷ []
    → (k.procs p).tty_transmit_len ≤ 1024
    → (k' : Kernel) × (trap_tty_transmit tty_id k ≡ some (none, k'))
      × ((k'.ttys tty_id).waiting_to_transmit ≡ [])
      × (k'.ready_queue ≡ k.ready_queue ++ (p ∷ []))
unfolding trap_tty_transmit next_transmit
trap_tty_transmit-last tty_id p k alone short = (
  make_ready p (change_tty tty_id (λ t. record t { waiting_to_transmit = [] }) k),
  ground arith,
  ground arith,
  refl,
)

transmit_rest-sends :
    (fuel tty_id p : ℕ) (k : Kernel)
    → (k.ttys tty_id).waiting_to_transmit ≡ p ∷ []
    → IsMessage (k.procs p)
    → (k.procs p).tty_transmit_len ≤ 1024 * (fuel + 1)
    → (k' : Kernel) × (transmit_rest (suc fuel) tty_id k
        ≡ (drop 1024 (k.procs p).tty_transmit_pointer, k'))
      × ((k'.ttys tty_id).waiting_to_transmit ≡ [])
      × (k'.ready_queue ≡ k.ready_queue ++ (p ∷ []))
unfolding transmit_rest
transmit_rest-sends zero tty_id p k alone is le =
    let (k', run, empty, ready) = trap_tty_transmit-last tty_id p k alone (ground arith) in
    (
      k',
      ground (arith, run, drop-all 1024 (k.procs p).tty_transmit_pointer (ground arith)),
      empty,
      ready,
    )
transmit_rest-sends (suc fuel) tty_id p k alone is le =
    elim (Bool-cases (ltb 1024 (k.procs p).tty_transmit_len)) [
      | inr short ↦
          let (k', run, empty, ready) = trap_tty_transmit-last tty_id p k alone (ground arith) in
          (
            k',
            ground (arith, run, drop-all 1024 (k.procs p).tty_transmit_pointer (ground arith)),
            empty,
            ready,
          )
      | inl long ↦
          let k1 = change_proc p moved_on k in
          let left = drop 1024 (k.procs p).tty_transmit_pointer in
          let moved : k1.procs p ≡ moved_on (k.procs p) = ground arith in
          let is1 : IsMessage (k1.procs p) =
            rw moved (ground (arith, length-drop 1024 (k.procs p).tty_transmit_pointer)) in
          let (k', run, empty, ready) =
            transmit_rest-sends fuel tty_id p k1 alone is1 (rw moved (ground arith)) in
          let step = trap_tty_transmit-long tty_id p k alone (ground arith) in
          let chunk : transmit_chunk (k1.procs p) ≡ take 1024 left =
            transmit_chunk-take (k1.procs p) is1
            ∙ ap (λ q. take 1024 q.tty_transmit_pointer) moved in
          let later : drop 1024 (k1.procs p).tty_transmit_pointer ≡ drop 1024 left =
            ap (λ q. drop 1024 q.tty_transmit_pointer) moved in
          (k', ground (arith, step, run, chunk, later, take-append-drop 1024 left), empty, ready)
    ]

-- A message that a process writes to a terminal on which nobody transmits is sent whole and in
-- order, by the call and then by as many transmit interrupts as it has lines of TERMINAL_MAX_LINE,
-- a started one included; the first chunk is no longer than such a line; and after the last
-- interrupt the process waits no more and is the last to become ready.
pub kernel_tty_write_internal-sends_all :
    (fuel tty_id : ℕ) (buf : List ℕ) (k : Kernel)
    → (k.ttys tty_id).waiting_to_transmit ≡ []
    → length buf ≤ 1024 * (fuel + 1)
    → (chunk : List ℕ) × (k' : Kernel) × (kernel_tty_write_internal tty_id buf k ≡ (some chunk, k'))
      × (length chunk ≤ 1024)
      × (k'.current_proc ≡ (next_proc k.ready_queue).0)
      × (later : List ℕ) × (k'' : Kernel) × (transmit_rest (suc fuel) tty_id k' ≡ (later, k''))
      × (chunk ++ later ≡ buf)
      × ((k''.ttys tty_id).waiting_to_transmit ≡ [])
      × (k''.ready_queue ≡ k'.ready_queue ++ (k.current_proc ∷ []))
unfolding kernel_tty_write_internal
kernel_tty_write_internal-sends_all fuel tty_id buf k idle le =
    let me = k.current_proc in
    let write =
      λ (p : Pcb). record p { tty_transmit_len = length buf; tty_transmit_pointer = buf } in
    let k1 = change_proc me write k in
    let queue =
      λ (t : Tty). record t { waiting_to_transmit = t.waiting_to_transmit ++ (me ∷ []) } in
    let k' = switch_to_next_proc (tty_write_done (length buf)) (change_tty tty_id queue k1) in
    let pointer : (k'.procs me).tty_transmit_pointer ≡ buf = ground arith in
    let sent : transmit_chunk (k1.procs me) ≡ take 1024 buf =
      transmit_chunk-take (k1.procs me) (ground arith)
      ∙ ap (λ p. take 1024 p.tty_transmit_pointer) (change_proc-at me write k) in
    let len : (k'.procs me).tty_transmit_len ≡ length buf = ground arith in
    let (k'', run, empty, ready) =
      transmit_rest-sends fuel tty_id me k' (ground arith) (ground arith) (ground arith) in
    (
      take 1024 buf,
      k',
      ap (λ w. (if is_empty w then some (transmit_chunk (k1.procs me)) else none, k')) idle
          ∙ ap (λ c. (some c, k')) sent,
      ground (arith, length-take 1024 buf),
      refl,
      drop 1024 buf,
      k'',
      run ∙ ap (λ b. (drop 1024 b, k'')) pointer,
      take-append-drop 1024 buf,
      empty,
      ready,
    )
