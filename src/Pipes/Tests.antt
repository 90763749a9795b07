-- ===== src/Pipes/Tests.antt =====
-- The calls on pipes on a small kernel.
use theynix.Base.{◌≤◌, ◌<◌, ◌≡◌, ◌⊎◌, refl, true, some, [], ◌∷◌, ◌++◌, pos, arith}
use theynix.Kernel.Samples.{small_kernel, two_bytes}
use theynix.Pipes.Buffer.{contents, IsPipe}
use theynix.Pipes.Calls.{kernel_pipe_write-appends, kernel_pipe_read-takes}
use theynix.Pipes.{find_pipe, kernel_pipe_read, kernel_pipe_write}
use theynix.Kernel.{Kernel, Pipe, bytes, nothing, returned, switched}

two_bytes-IsPipe : IsPipe two_bytes
two_bytes-IsPipe = record { full = refl; inside = omega arith }

-- The write has to make room, and wakes process 8, which wants three bytes.
kernel_pipe_write-appends_example :
    (k' : Kernel) × (p' : Pipe) × (kernel_pipe_write 3 (pos 2) (10 ∷ 11 ∷ []) true small_kernel
      ≡ returned (pos 2) nothing k')
    × (find_pipe 3 k' ≡ some p')
    × IsPipe p'
    × (contents p' ≡ 8 ∷ 9 ∷ 10 ∷ 11 ∷ [])
    × ((p'.waiting_to_read ≡ []) × (k'.ready_queue ≡ 6 ∷ 8 ∷ []))
kernel_pipe_write-appends_example =
    kernel_pipe_write-appends 3 1 (10 ∷ 11 ∷ []) two_bytes small_kernel refl two_bytes-IsPipe refl

kernel_pipe_read-takes_example :
    (k' : Kernel) × (p' : Pipe) × (find_pipe 3 k' ≡ some p')
    × IsPipe p'
    × ((1 ≤ 2)
          × (kernel_pipe_read 3 (pos 1) true small_kernel ≡ returned (pos 1) (bytes (8 ∷ [])) k')
          × (contents p' ≡ 9 ∷ [])
          × (p'.waiting_to_read ≡ two_bytes.waiting_to_read)
        ⊎ (2 < 1)
          × (kernel_pipe_read 3 (pos 1) true small_kernel ≡ switched k')
          × (contents p' ≡ contents two_bytes)
          × (p'.waiting_to_read ≡ two_bytes.waiting_to_read ++ ((1, 2) ∷ []))
          × (k'.current_proc ≡ 6))
kernel_pipe_read-takes_example =
    kernel_pipe_read-takes 3 0 two_bytes small_kernel refl two_bytes-IsPipe
