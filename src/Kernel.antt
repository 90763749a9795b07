-- ===== src/Kernel.antt =====
-- The kernel's data: the process control blocks of PCB.h, the resources of Lock.h, CVar.h, Pipe.h
-- and Tty.h, the globals of Kernel.h, and the context switch of Kernel.c. A process stands for its
-- PCB by its pid, and a list of processes is the list of their pids in order. What a process does
-- when the kernel resumes it, that is its kernel stack, is a `Resume`.
pub mod Switch
pub mod Samples
use theynix.Base.{
  ℕ, ◌+◌, Bool, true, false, Option, none, some, List, [], ◌∷◌, ◌++◌, ℤ, pos, negsuc, update,
}
use theynix.VMem.{PageTable}

-- Where a process that is not running will go on.
pub data Resume : Type 0 where
  to_user : Resume
  fork_parent : ℕ → Resume
  child_exited : Resume
  delay_over : Resume
  lock_handed : ℕ → Resume
  cvar_woken : ℕ → Resume
  pipe_ready : ℕ → ℕ → Resume
  tty_read_done : Resume
  tty_write_done : ℕ → Resume

pub record Pcb : Type 0 where
  pub kernel_context_initialized : Bool
  pub region_1_page_table : PageTable
  pub kernel_stack_page_table : PageTable
  pub live_parent : Option ℕ
  pub live_children : List ℕ
  pub zombie_children : List ℕ
  pub owned_lock_ids : List ℕ
  pub waiting_on_children : Bool
  pub lowest_user_stack_page : ℕ
  pub user_brk_page : ℕ
  pub exit_status : ℤ
  pub clock_ticks_until_ready : ℤ
  pub tty_receive_len : ℕ
  pub tty_receive_buffer : List ℕ
  pub tty_transmit_len : ℕ
  -- the bytes from `tty_transmit_pointer` on
  pub tty_transmit_pointer : List ℕ
  pub resume : Resume

pub record Lock : Type 0 where
  pub id : ℕ
  pub owner_id : ℕ
  pub waiting_procs : List ℕ
  pub acquired : Bool

pub record CVar : Type 0 where
  pub id : ℕ
  pub waiting_procs : List ℕ

-- `buffer` holds the whole buffer and `consumed` is `buffer_ptr - buffer`; a reader waits with the
-- number of bytes that it wants.
pub record Pipe : Type 0 where
  pub id : ℕ
  pub num_chars_available : ℕ
  pub buffer_capacity : ℕ
  pub buffer : List ℕ
  pub consumed : ℕ
  pub waiting_to_read : List (ℕ × ℕ)

-- A LineBuffer is its bytes; its `length` is their number.
pub record Tty : Type 0 where
  pub line_buffers : List (List ℕ)
  pub waiting_to_receive : List ℕ
  pub waiting_to_transmit : List ℕ

pub record Kernel : Type 0 where
  pub procs : ℕ → Pcb
  pub current_proc : ℕ
  pub ready_queue : List ℕ
  pub clock_block_procs : List ℕ
  pub locks : List Lock
  pub cvars : List CVar
  pub pipes : List Pipe
  pub ttys : ℕ → Tty
  pub next_synch_resource_id : ℕ

abbrev pub init_pid : ℕ
init_pid = 1

abbrev pub idle_pid : ℕ
idle_pid = 0

-- What a system call stores for the user: nothing, an `int`, or bytes in a buffer.
pub data Written : Type 0 where
  nothing : Written
  int : ℤ → Written
  bytes : List ℕ → Written

-- A call returns to the user, gives the processor to another process, fails an `assert`, or halts.
pub data Outcome : Type 0 where
  returned : ℤ → Written → Kernel → Outcome
  switched : Kernel → Outcome
  failed_assert : Outcome
  halted : Outcome

abbrev pub current : Kernel → Pcb
current k = k.procs k.current_proc

abbrev pub change_proc : ℕ → (Pcb → Pcb) → Kernel → Kernel
change_proc p f k = record k { procs = update k.procs p (f (k.procs p)) }

-- ListAppend(ready_queue, proc, proc->pid)
abbrev pub make_ready : ℕ → Kernel → Kernel
make_ready p k = record k { ready_queue = k.ready_queue ++ (p ∷ []) }

-- `next` and the rest of the ready queue, or the idle process.
abbrev pub next_proc : List ℕ → ℕ × List ℕ
next_proc [] = (idle_pid, [])
next_proc (p ∷ ps) = (p, ps)

-- SwitchToProc: the caller's kernel stack is kept in its PCB, and `next` runs.
abbrev pub switch_to_proc : Resume → ℕ → Kernel → Kernel
switch_to_proc r next k =
    let k' = change_proc k.current_proc (λ p. record p { resume = r }) k in
    record k' { current_proc = next }

-- SwitchToNextProc
abbrev pub switch_to_next_proc : Resume → Kernel → Kernel
switch_to_next_proc r k =
    let (next, rest) = next_proc k.ready_queue in
    switch_to_proc r next (record k { ready_queue = rest })
