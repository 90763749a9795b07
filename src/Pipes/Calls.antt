-- ===== src/Pipes/Calls.antt =====
-- KernelPipeRead and KernelPipeWrite as the two ends of a queue of bytes.
use theynix.Base.{
  ℕ, suc, ◌+◌, ◌≤◌, ◌<◌, ◌≡◌, ◌∙◌, ◌⊎◌, inl, inr, refl, true, Option, none, some, List, [], ◌∷◌,
  ◌++◌, pos, arith, ltb, Bool-cases, Option-cases, length, take, drop, find_by-key, find_by-put,
  remove_by,
}
use mathlib.Core.Path.{subst₂}
use theynix.Kernel.{
  pipe_ready, switch_to_next_proc, next_proc, switched, bytes, nothing, returned, Kernel, Pipe,
}
use theynix.Pipes.{
  store_pipe, pipe_id, wanted, find_first_less_than, wake_reader, pipe_read_loop, kernel_pipe_write,
  find_pipe, kernel_pipe_read,
}
use theynix.Pipes.Buffer.{write_bytes-append, pipe_copy_into_user_buffer-take, contents, IsPipe}

-- What a write wakes: the first reader that wants no more than there is, and nobody else.
abbrev pub Woken :
    Option (ℕ × ℕ) → (waiting waiting' : List (ℕ × ℕ)) (ready ready' : List ℕ) → Type 0
Woken none waiting waiting' ready ready' = (waiting' ≡ waiting) × (ready' ≡ ready)
Woken (some (n, reader)) waiting waiting' ready ready' =
    (waiting' ≡ remove_by wanted n waiting) × (ready' ≡ ready ++ (reader ∷ []))

wake_reader-Woken :
    (p0 p : Pipe) (k : Kernel)
    → find_pipe p.id k ≡ some p0
    → (p' : Pipe) × (find_pipe p.id (wake_reader p k) ≡ some p')
      × (contents p' ≡ contents p)
      × (p'.num_chars_available ≡ p.num_chars_available)
      × (p'.buffer ≡ p.buffer)
      × (p'.buffer_capacity ≡ p.buffer_capacity)
      × (p'.consumed ≡ p.consumed)
      × Woken
          (find_first_less_than p.num_chars_available p.waiting_to_read)
          p.waiting_to_read
          p'.waiting_to_read
          k.ready_queue
          (wake_reader p k).ready_queue
unfolding wake_reader
wake_reader-Woken p0 p k found =
    elim (Option-cases (find_first_less_than p.num_chars_available p.waiting_to_read)) [
      | inl nobody ↦
          rw (nobody, wake_reader)
            (
              p,
              find_by-put pipe_id p.id p p0 k.pipes found refl,
              refl,
              refl,
              refl,
              refl,
              refl,
              (refl, refl),
            )
      | inr ((n, reader), first) ↦
          let q = record p { waiting_to_read = remove_by wanted n p.waiting_to_read } in
          rw (first, wake_reader)
            (
              q,
              find_by-put pipe_id p.id q p0 k.pipes found refl,
              refl,
              refl,
              refl,
              refl,
              refl,
              (refl, refl),
            )
    ]

-- A write of a positive number of bytes to a pipe returns that number and puts the bytes behind
-- those that wait in the pipe, which stays well formed. If a process waits for no more bytes than
-- the pipe then holds, the first such process becomes ready and stops waiting; if none does,
-- neither queue changes.
pub kernel_pipe_write-appends :
    (i n : ℕ) (bs : List ℕ) (p : Pipe) (k : Kernel)
    → find_pipe i k ≡ some p
    → IsPipe p
    → length bs ≡ suc n
    → (k' : Kernel) × (p' : Pipe) × (kernel_pipe_write i (pos (suc n)) bs true k
        ≡ returned (pos (suc n)) nothing k')
      × (find_pipe i k' ≡ some p')
      × IsPipe p'
      × (contents p' ≡ contents p ++ bs)
      × Woken
          (find_first_less_than (p.num_chars_available + length bs) p.waiting_to_read)
          p.waiting_to_read
          p'.waiting_to_read
          k.ready_queue
          k'.ready_queue
unfolding kernel_pipe_write
kernel_pipe_write-appends i n bs p k found is len =
    let (q, written, q-is, appended, num, waiting, same_id) = write_bytes-append bs p is in
    let id_of = find_by-key pipe_id i k.pipes p found in
    let at : q.id ≡ i = same_id ∙ id_of in
    let (p', e, kept, num', buffer, capacity, consumed, woken) =
      wake_reader-Woken p q k (rw at found) in
    (
      wake_reader q k,
      p',
      ground (arith, found, written),
      (rw at at e),
      record { full = ground (arith, q-is.full); inside = ground (arith, q-is.inside) },
      kept ∙ appended,
      subst₂
          (λ m w.
            Woken (find_first_less_than m w) w p'.waiting_to_read k.ready_queue
              (wake_reader q k).ready_queue)
          num waiting woken,
    )

-- A read of a positive number of bytes, if the pipe holds as many, returns that number, stores the
-- oldest bytes in order, and takes just these out of the pipe. If it holds fewer, the reader is put
-- at the end of the pipe's queue with the number that it wants, no byte is taken, and the next
-- process runs.
pub kernel_pipe_read-takes :
    (i n : ℕ) (p : Pipe) (k : Kernel)
    → find_pipe i k ≡ some p
    → IsPipe p
    → (k' : Kernel) × (p' : Pipe) × (find_pipe i k' ≡ some p')
      × IsPipe p'
      × ((suc n ≤ p.num_chars_available)
            × (kernel_pipe_read i (pos (suc n)) true k
                ≡ returned (pos (suc n)) (bytes (take (suc n) (contents p))) k')
            × (contents p' ≡ drop (suc n) (contents p))
            × (p'.waiting_to_read ≡ p.waiting_to_read)
          ⊎ (p.num_chars_available < suc n)
            × (kernel_pipe_read i (pos (suc n)) true k ≡ switched k')
            × (contents p' ≡ contents p)
            × (p'.waiting_to_read ≡ p.waiting_to_read ++ ((suc n, k.current_proc) ∷ []))
            × (k'.current_proc ≡ (next_proc k.ready_queue).0))
unfolding kernel_pipe_read pipe_read_loop
kernel_pipe_read-takes i n p k found is =
    let id_of = find_by-key pipe_id i k.pipes p found in
    elim (Bool-cases (ltb p.num_chars_available (suc n))) [
      | inl short ↦
          let p' = record p {
            waiting_to_read = p.waiting_to_read ++ ((suc n, k.current_proc) ∷ []);
          } in
          (
            switch_to_next_proc (pipe_ready p.id (suc n)) (store_pipe p' k),
            p',
            ground (arith, find_by-put pipe_id i p' p k.pipes),
            record { full = is.full; inside = is.inside },
            inr (ground arith, ground (arith, found), refl, refl, refl),
          )
      | inr enough ↦
          let (p', e, is', left, num, waiting, same_id) =
            pipe_copy_into_user_buffer-take p is (suc n) (ground arith) in
          (
            store_pipe p' k,
            p',
            ground (arith, find_by-put pipe_id i p' p k.pipes),
            is',
            inl (ground arith, ground (arith, found, e), left, waiting),
          )
    ]
