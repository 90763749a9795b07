-- ===== src/Kernel/Samples.antt =====
-- A small kernel to run the calls on: process 2 runs and holds lock 1, for which process 3 waits;
-- processes 4 and 5 wait on condition variable 2; pipe 3 holds two bytes; process 6 is ready.
use theynix.Base.{true, false, ◌==◌, none, [], ◌∷◌, pos, if◌then◌else◌}
use theynix.VMem.{invalid_pte}
use theynix.Kernel.{Kernel, Pcb, Lock, CVar, Pipe, Tty, to_user}

abbrev pub blank_pcb : Pcb
blank_pcb = record {
  kernel_context_initialized = false;
  region_1_page_table = λ page. invalid_pte;
  kernel_stack_page_table = λ page. invalid_pte;
  live_parent = none;
  live_children = [];
  zombie_children = [];
  owned_lock_ids = [];
  waiting_on_children = false;
  lowest_user_stack_page = 0;
  user_brk_page = 0;
  exit_status = pos 0;
  clock_ticks_until_ready = pos 0;
  tty_receive_len = 0;
  tty_receive_buffer = [];
  tty_transmit_len = 0;
  tty_transmit_pointer = [];
  resume = to_user;
}

abbrev pub held_lock : Lock
held_lock = record { id = 1; owner_id = 2; waiting_procs = 3 ∷ []; acquired = true }

abbrev pub awaited_cvar : CVar
awaited_cvar = record { id = 2; waiting_procs = 4 ∷ 5 ∷ [] }

abbrev pub two_bytes : Pipe
two_bytes = record {
  id = 3;
  num_chars_available = 2;
  buffer_capacity = 4;
  buffer = 7 ∷ 8 ∷ 9 ∷ 0 ∷ [];
  consumed = 1;
  waiting_to_read = (3, 8) ∷ [];
}

abbrev pub no_tty : Tty
no_tty = record { line_buffers = []; waiting_to_receive = []; waiting_to_transmit = [] }

abbrev pub small_kernel : Kernel
small_kernel = record {
  procs = λ p. if p == 2 then record blank_pcb { owned_lock_ids = 1 ∷ [] } else blank_pcb;
  current_proc = 2;
  ready_queue = 6 ∷ [];
  clock_block_procs = [];
  locks = held_lock ∷ [];
  cvars = awaited_cvar ∷ [];
  pipes = two_bytes ∷ [];
  ttys = λ i. no_tty;
  next_synch_resource_id = 4;
}
