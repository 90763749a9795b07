-- ===== src/Ttys.antt =====
-- The terminals: Tty.c, KernelTtyRead and KernelTtyWrite of SystemCalls.c, and the terminal
-- interrupts of Traps.c. What the hardware is told to transmit is a list of chunks, and the line
-- that TtyReceive gives is an argument.
pub mod Receive
pub mod Read
pub mod Transmit
mod Tests
use theynix.Base.{
  is_empty, ℕ, zero, suc, ◌+◌, ◌-◌, ◌*◌, ◌/◌, ◌%◌, ◌^◌, ◌≤◌, ◌<◌, ◌≡◌, ◌≢◌, ◌∙◌, ◌⊎◌, inl, inr,
  refl, sym, ap, Bool, true, false, not, ◌&&◌, ◌||◌, ◌==◌, Option, none, some, List, [], ◌∷◌, ◌++◌,
  ℤ, pos, negsuc, arith, if◌then◌else◌, ltb, leb, Bool-cases, Option-cases, length, take, drop,
  update,
}
use mathlib.Core.Option
use theynix.Kernel.{
  switch_to_next_proc, returned, Kernel, Outcome, Pcb, Tty, bytes, change_proc, current, make_ready,
  nothing, switched, tty_read_done, tty_write_done,
}
use theynix.PMem.{error}
use theynix.Pipes.{zeros}

-- TERMINAL_MAX_LINE of include/hardware.h and NUM_TERMINALS
abbrev pub terminal_max_line : ℕ
terminal_max_line = 1024

abbrev pub num_terminals : ℕ
num_terminals = 4

-- TtyInit
pub tty_init : Tty
tty_init = record { line_buffers = []; waiting_to_receive = []; waiting_to_transmit = [] }

abbrev pub change_tty : ℕ → (Tty → Tty) → Kernel → Kernel
change_tty i f k = record k { ttys = update k.ttys i (f (k.ttys i)) }

-- A line that KernelTtyRead takes. The bytes that it copies beyond the end of a short line are not
-- modelled; the caller is told the number of bytes of the line.
take_line : (tty_id len : ℕ) (line : List ℕ) → Kernel → Outcome
take_line tty_id len line k =
    let leftovers = take (length line - len) line in
    if ltb len (length line)
    then returned (pos len) (bytes (take len line))
        (change_tty tty_id (λ t. record t { line_buffers = leftovers ∷ t.line_buffers }) k)
    else returned (pos (length line)) (bytes line) k

tty_read_valid : (tty_id len : ℕ) → Kernel → Outcome
unfolding take_line
tty_read_valid tty_id len k =
    let me = k.current_proc in
    elim (k.ttys tty_id).line_buffers [
      | line ∷ lines ↦
          take_line tty_id len line (change_tty tty_id (λ t. record t { line_buffers = lines }) k)
      | [] ↦ switched (
          switch_to_next_proc tty_read_done (
            change_proc me (λ p. record p { tty_receive_len = len; tty_receive_buffer = zeros len })
              (change_tty tty_id
                (λ t. record t { waiting_to_receive = t.waiting_to_receive ++ (me ∷ []) }) k)))
    ]

-- The C's `int`s; `buf_valid` is what ValidateUserArg says of the buffer.
pub kernel_tty_read : (tty_id len : ℤ) (buf_valid : Bool) → Kernel → Outcome
unfolding tty_read_valid
kernel_tty_read (pos tty_id) (pos len) buf_valid k =
    if ltb tty_id num_terminals && buf_valid
    then tty_read_valid tty_id len k
    else returned error nothing k
kernel_tty_read _ _ buf_valid k = returned error nothing k

-- KernelTtyRead when the process is resumed.
pub kernel_tty_read_resumed : Kernel → Outcome
kernel_tty_read_resumed k =
    let me = current k in
    returned (pos me.tty_receive_len) (bytes (take me.tty_receive_len me.tty_receive_buffer)) k

-- TtyTransmit(tty_id, p, min(TERMINAL_MAX_LINE, len)), as the source writes it, twice.
abbrev pub transmit_chunk : Pcb → List ℕ
transmit_chunk p =
    if ltb terminal_max_line p.tty_transmit_len
    then take terminal_max_line p.tty_transmit_pointer
    else take p.tty_transmit_len p.tty_transmit_pointer

-- The chunk that is transmitted at once, if there is one, and the kernel after the switch. The
-- caller has checked the two `assert`s' conditions, but for `tty_id <= NUM_TERMINALS`.
pub kernel_tty_write_internal : (tty_id : ℕ) (buf : List ℕ) → Kernel → Option (List ℕ) × Kernel
kernel_tty_write_internal tty_id buf k =
    let me = k.current_proc in
    let k1 =
      change_proc me (λ p. record p { tty_transmit_len = length buf; tty_transmit_pointer = buf })
        k in
    let k2 =
      change_tty tty_id (λ t. record t { waiting_to_transmit = t.waiting_to_transmit ++ (me ∷ []) })
        k1 in
    (
      if is_empty (k.ttys tty_id).waiting_to_transmit
          then some (transmit_chunk (k1.procs me))
          else none,
      switch_to_next_proc (tty_write_done (length buf)) k2,
    )

pub kernel_tty_write :
    (tty_id len : ℤ) (buf : List ℕ) (buf_valid : Bool) → Kernel → Option (List ℕ) × Outcome
unfolding kernel_tty_write_internal
kernel_tty_write (pos tty_id) (pos len) buf buf_valid k =
    let (chunk, k') = kernel_tty_write_internal tty_id (take len buf) k in
    if ltb tty_id num_terminals && buf_valid
    then (chunk, switched k')
    else (none, returned error nothing k)
kernel_tty_write _ _ buf buf_valid k = (none, returned error nothing k)

-- The loop of TrapTtyRecieve over the processes that wait: the input that remains, and the
-- processes that still wait.
pub distribute : List ℕ → (input : List ℕ) → Kernel → List ℕ × List ℕ × Kernel
distribute [] input k = ([], input, k)
distribute (p ∷ ps) input k =
    let proc = k.procs p in
    let want = proc.tty_receive_len in
    let all = distribute ps [] (
      make_ready p (
        change_proc p
          (λ q. record q {
            tty_receive_buffer = input ++ drop (length input) q.tty_receive_buffer;
            tty_receive_len = length input;
          })
          k)) in
    let some_of = distribute ps (drop want input) (
      make_ready p (
        change_proc p
          (λ q. record q { tty_receive_buffer = take want input ++ drop want q.tty_receive_buffer })
          k)) in
    if is_empty input then (p ∷ ps, input, k) else if leb (length input) want then all else some_of

-- `line` is what TtyReceive stores, at most TERMINAL_MAX_LINE bytes.
pub trap_tty_receive : (tty_id : ℕ) (line : List ℕ) → Kernel → Kernel
unfolding distribute
trap_tty_receive tty_id line k =
    let (waiting, rest, k') = distribute (k.ttys tty_id).waiting_to_receive line k in
    if is_empty (k.ttys tty_id).waiting_to_receive
    then change_tty tty_id (λ t. record t { line_buffers = t.line_buffers ++ (line ∷ []) }) k
    else change_tty tty_id
        (λ t. record t {
          waiting_to_receive = waiting;
          line_buffers = t.line_buffers ++ (if is_empty rest then [] else rest ∷ []);
        })
        k'

-- The end of TrapTtyTransmit: the next process, if one waits, starts.
next_transmit : List ℕ → Kernel → Option (List ℕ)
next_transmit [] k = none
next_transmit (p ∷ ps) k = some (transmit_chunk (k.procs p))

-- The chunk that is transmitted, if there is one; `none` is the failed `assert`.
pub trap_tty_transmit : (tty_id : ℕ) → Kernel → Option (Option (List ℕ) × Kernel)
unfolding next_transmit
trap_tty_transmit tty_id k = elim (k.ttys tty_id).waiting_to_transmit [
  | [] ↦ none
  | p ∷ ps ↦
      let k1 =
        change_proc p
          (λ q. record q {
            tty_transmit_pointer = drop terminal_max_line q.tty_transmit_pointer;
            tty_transmit_len = q.tty_transmit_len - terminal_max_line;
          })
          k in
      let k2 = make_ready p (change_tty tty_id (λ t. record t { waiting_to_transmit = ps }) k) in
      some (
        if ltb terminal_max_line (k.procs p).tty_transmit_len
        then (some (transmit_chunk (k1.procs p)), k1)
        else (next_transmit ps k2, k2))
]
