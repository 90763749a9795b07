-- ===== src/Ttys/Tests.antt =====
-- The terminals of a small kernel.
use theynix.Base.{
  ℕ, ◌≤◌, ◌≡◌, refl, ◌||◌, ◌==◌, some, List, [], ◌∷◌, ◌++◌, arith, if◌then◌else◌, length,
}
use theynix.Ttys.Transmit.{kernel_tty_write_internal-sends_all, transmit_rest}
use theynix.Kernel.{Kernel, Pcb}
use theynix.Kernel.Samples.{blank_pcb, no_tty, small_kernel}
use theynix.Ttys.{kernel_tty_write_internal}

-- Processes 4 and 5 wait on terminal 0 for two bytes each.
abbrev reader : Pcb
reader = record blank_pcb { tty_receive_len = 2; tty_receive_buffer = 0 ∷ 0 ∷ [] }

abbrev readers : Kernel
readers = record small_kernel {
  procs = λ p. if p == 4 || p == 5 then reader else blank_pcb;
  ttys = λ i. record no_tty { waiting_to_receive = 4 ∷ 5 ∷ [] };
}

kernel_tty_write_internal-sends_all_example :
    (chunk : List ℕ) × (k' : Kernel) × (kernel_tty_write_internal 1 (1 ∷ 2 ∷ []) small_kernel
      ≡ (some chunk, k'))
    × (length chunk ≤ 1024)
    × (k'.current_proc ≡ 6)
    × (later : List ℕ) × (k'' : Kernel) × (transmit_rest 1 1 k' ≡ (later, k''))
    × (chunk ++ later ≡ 1 ∷ 2 ∷ [])
    × ((k''.ttys 1).waiting_to_transmit ≡ [])
    × (k''.ready_queue ≡ k'.ready_queue ++ (2 ∷ []))
kernel_tty_write_internal-sends_all_example =
    kernel_tty_write_internal-sends_all 0 1 (1 ∷ 2 ∷ []) small_kernel refl (omega arith)

-- Terminal 2 keeps a line of three bytes.
abbrev with_line : Kernel
with_line = record small_kernel {
  ttys = λ i. record no_tty { line_buffers = (7 ∷ 8 ∷ 9 ∷ []) ∷ [] };
}
