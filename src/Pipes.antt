-- ===== src/Pipes.antt =====
-- Pipe.c, and the pipe calls of SystemCalls.c. The user's buffer comes in as its bytes, or goes out
-- as the bytes stored in it, and the check of its address as the result of ValidateUserArg. Memory
-- from `calloc` is zero; `none` is a failed `assert` or a copy past the end of the pipe's buffer.
pub mod Buffer
pub mod Calls
mod Tests
use theynix.Base.{
  ℕ, zero, suc, ◌+◌, ◌-◌, Bool, true, false, Option, none, some, List, [], ◌∷◌, ◌++◌, ℤ, pos,
  negsuc, sub_ℕ, ltb_ℤ, ltb, leb, ◌==◌, if◌then◌else◌, find_by, change_by, remove_by, length, take,
  drop,
}
use mathlib.Core.Option
use theynix.PMem.{success, error}
use theynix.Kernel.{
  Kernel, Pipe, Outcome, returned, switched, failed_assert, nothing, int, bytes, make_ready,
  switch_to_next_proc, pipe_ready,
}

-- PipeNewPipe
pub pipe_new_pipe : ℕ → Pipe
pipe_new_pipe next = record {
  id = next;
  num_chars_available = 0;
  buffer_capacity = 0;
  buffer = [];
  consumed = 0;
  waiting_to_read = [];
}

-- PipeSpotsRemaining
abbrev pub pipe_spots_remaining : Pipe → ℤ
pipe_spots_remaining p = sub_ℕ p.buffer_capacity (p.num_chars_available + p.consumed)

abbrev pub zeros : ℕ → List ℕ
zeros zero = []
zeros (suc n) = 0 ∷ zeros n

-- `memcpy` of `bs` to the offset `at` of a buffer.
abbrev pub copy_to : ℕ → List ℕ → List ℕ → Option (List ℕ)
copy_to at bs buffer =
    if ltb (length buffer) (at + length bs)
    then none
    else some (take at buffer ++ (bs ++ drop (at + length bs) buffer))

-- The `n` bytes at the offset `at` of a buffer.
abbrev pub copy_from : ℕ → ℕ → List ℕ → List ℕ
copy_from at n buffer = take n (drop at buffer)

pub pipe_copy_into_user_buffer : ℕ → Pipe → Option (List ℕ × Pipe)
pipe_copy_into_user_buffer len p =
    let left = p.num_chars_available - len in
    if ltb p.num_chars_available len
    then none
    else some (
      copy_from p.consumed len p.buffer,
      record p { num_chars_available = left; consumed = if left == 0 then 0 else p.consumed + len },
    )

pub pipe_copy_into_pipe_buffer : List ℕ → Pipe → Option Pipe
pipe_copy_into_pipe_buffer bs p =
    if ltb_ℤ (pipe_spots_remaining p) (pos (length bs))
    then none
    else Option.map
        (λ b. record p { buffer = b; num_chars_available = p.num_chars_available + length bs })
        (copy_to (p.consumed + p.num_chars_available) bs p.buffer)

-- `if (len > PipeSpotsRemaining(p)) { ... }` of KernelPipeWrite
pub make_room : ℕ → Pipe → Pipe
make_room len p =
    if ltb_ℤ (pipe_spots_remaining p) (pos len)
    then record p {
      buffer = copy_from p.consumed p.num_chars_available p.buffer ++ zeros len;
      consumed = 0;
      buffer_capacity = p.num_chars_available + len;
    }
    else p

pub write_bytes : List ℕ → Pipe → Option Pipe
write_bytes bs p = pipe_copy_into_pipe_buffer bs (make_room (length bs) p)

-- The reader that ListFindFirstLessThanIdAndRemove finds: the first that wants at most `n` bytes.
abbrev pub find_first_less_than : ℕ → List (ℕ × ℕ) → Option (ℕ × ℕ)
find_first_less_than n [] = none
find_first_less_than n (x ∷ xs) = if leb x.0 n then some x else find_first_less_than n xs

abbrev pub wanted : ℕ × ℕ → ℕ
wanted x = x.0

abbrev pub pipe_id : Pipe → ℕ
pipe_id p = p.id

abbrev pub find_pipe : ℕ → Kernel → Option Pipe
find_pipe i k = find_by pipe_id i k.pipes

-- The pipe that was found is now `p`.
abbrev pub store_pipe : Pipe → Kernel → Kernel
store_pipe p k = record k { pipes = change_by pipe_id p.id (λ _. p) k.pipes }

pub kernel_pipe_init : (pointer_valid : Bool) → Kernel → Outcome
unfolding pipe_new_pipe
kernel_pipe_init pointer_valid k =
    let p = pipe_new_pipe k.next_synch_resource_id in
    if pointer_valid
    then returned success (int (pos p.id)) (record k {
      pipes = k.pipes ++ (p ∷ []);
      next_synch_resource_id = k.next_synch_resource_id + 1;
    })
    else returned error nothing k

-- The loop of KernelPipeRead, entered at the call and again each time the reader is resumed.
pub pipe_read_loop : ℕ → Pipe → Kernel → Outcome
pipe_read_loop len p k =
    if ltb p.num_chars_available len
    then switched (
        switch_to_next_proc (pipe_ready p.id len) (
          store_pipe
            (record p { waiting_to_read = p.waiting_to_read ++ ((len, k.current_proc) ∷ []) }) k))
    else elim (pipe_copy_into_user_buffer len p) [
      | none ↦ failed_assert
      | some (out, p') ↦ returned (pos len) (bytes out) (store_pipe p' k)
    ]

pub kernel_pipe_read : (pipe_id : ℕ) (len : ℤ) (buffer_valid : Bool) → Kernel → Outcome
kernel_pipe_read i (negsuc n) buffer_valid k = returned error nothing k
kernel_pipe_read i (pos zero) buffer_valid k = returned success nothing k
kernel_pipe_read i (pos (suc n)) buffer_valid k =
    if buffer_valid
    then elim (find_pipe i k) [
      | none ↦ returned error nothing k
      | some p ↦ pipe_read_loop (suc n) p k
    ]
    else returned error nothing k

-- The end of KernelPipeWrite: at most one reader becomes ready.
pub wake_reader : Pipe → Kernel → Kernel
wake_reader p k = elim (find_first_less_than p.num_chars_available p.waiting_to_read) [
  | none ↦ store_pipe p k
  | some (n, reader) ↦
      make_ready reader
        (store_pipe (record p { waiting_to_read = remove_by wanted n p.waiting_to_read }) k)
]

-- `bs` are the `len` bytes at the user's buffer.
pub kernel_pipe_write :
    (pipe_id : ℕ) (len : ℤ) (bs : List ℕ) (buffer_valid : Bool) → Kernel → Outcome
kernel_pipe_write i (negsuc n) bs buffer_valid k = returned error nothing k
kernel_pipe_write i (pos zero) bs buffer_valid k = returned success nothing k
kernel_pipe_write i (pos (suc n)) bs buffer_valid k =
    if buffer_valid
    then elim (find_pipe i k) [
      | none ↦ returned error nothing k
      | some p ↦ elim (write_bytes bs p) [
        | none ↦ failed_assert
        | some p' ↦ returned (pos (suc n)) nothing (wake_reader p' k)
      ]
    ]
    else returned error nothing k
