-- ===== src/Ttys/Receive.antt =====
-- How a line of input is dealt out to the processes that wait for it, and what a read takes.
use theynix.Base.{ℕ, ◌≡◌, ◌⊎◌, false, List, [], ◌∷◌, ◌++◌, if◌then◌else◌, take, drop, has, is_empty}
use theynix.Kernel.{Pcb, Kernel}
use theynix.Ttys.{change_tty}

-- The bytes that the processes of the list have received, in order.
abbrev pub received : List ℕ → (procs : ℕ → Pcb) → List ℕ
received [] procs = []
received (p ∷ ps) procs =
    take (procs p).tty_receive_len (procs p).tty_receive_buffer ++ received ps procs

-- Each process of the list in turn, while bytes are left, has received as many of the bytes that
-- are left as it had asked for, or all of them if they are fewer.
abbrev pub Shares : List ℕ → (input : List ℕ) → (before after : ℕ → Pcb) → Type 0
Shares [] input before after = Unit
Shares (p ∷ ps) input before after =
    (is_empty input ≡ false)
    × (take (after p).tty_receive_len (after p).tty_receive_buffer
        ≡ take (before p).tty_receive_len input)
    × Shares ps (drop (before p).tty_receive_len input) before after

-- What the loop leaves: `served` are the processes that it took off the queue.
pub record Dealt (ps input : List ℕ) (k : Kernel) (waiting rest : List ℕ) (k' : Kernel)
    : Type 0 where
  pub served : List ℕ
  pub queue : ps ≡ served ++ waiting
  pub conserved : received served k'.procs ++ rest ≡ input
  pub shares : Shares served input k.procs k'.procs
  pub woken : k'.ready_queue ≡ k.ready_queue ++ served
  pub others : (q : ℕ) → has q ps ≡ false → k'.procs q ≡ k.procs q
  pub used_up : (rest ≡ []) ⊎ (waiting ≡ [])
  pub same_ttys : k'.ttys ≡ k.ttys

-- The terminal once the loop is over.
abbrev keep_rest : ℕ → List ℕ → List ℕ → Kernel → Kernel
keep_rest tty_id waiting rest k =
    change_tty tty_id
      (λ t. record t {
        waiting_to_receive = waiting;
        line_buffers = t.line_buffers ++ (if is_empty rest then [] else rest ∷ []);
      })
      k
