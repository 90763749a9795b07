-- ===== src/PMem/Init.antt =====
-- InitializePhysicalMemoryManagement: which frames are free at the start.
use theynix.Base.{
  ℕ, zero, suc, ◌+◌, ◌-◌, ◌/◌, ◌^◌, ◌<◌, ◌≤◌, ◌≡◌, refl, false, List, [], ◌∷◌, ◌++◌, pos, has,
  AllBelow, range_from, has-append, has-range_from-eq, append_assoc, append-nil, arith, ◌||◌, ◌&&◌,
  leb, ltb, AllBelow-has, AllBelow-mono, AllBelow-range_from, AllBelow-append_one, ◌∙◌,
}
use theynix.PMem.{
  Machine, add_frames, add_to_linked_list, release_used_frame,
  initialize_physical_memory_management,
}
use theynix.PMem.FreeList.{IsFree}
use theynix.PMem.Queue.{release_used_frame-append}

add-append :
    (m : Machine) (f : ℕ) (xs : List ℕ)
    → f < 2 ^ 24
    → has f xs ≡ false
    → IsFree m xs
    → IsFree (add_to_linked_list (pos f) m) (xs ++ (f ∷ []))
      × ((add_to_linked_list (pos f) m).entry ≡ m.entry)
unfolding release_used_frame
add-append m f xs small out is =
    let (queue, entry, _) = release_used_frame-append m f xs small out is in (queue, entry)

add_frames-append :
    (start rounds : ℕ) (m : Machine) (xs : List ℕ)
    → start + rounds ≤ 2 ^ 24
    → AllBelow start xs
    → IsFree m xs
    → IsFree (add_frames start rounds m) (xs ++ range_from start rounds)
      × ((add_frames start rounds m).entry ≡ m.entry)
unfolding add_frames
add_frames-append start zero m xs small b is = (rw (append-nil xs) is, refl)
add_frames-append start (suc rounds) m xs small b is =
    let added =
      add-append m start xs (omega arith) (AllBelow-has start start xs b (omega arith)) is in
    let rest =
      add_frames-append (start + 1) rounds (add_to_linked_list (pos start) m) (xs ++ (start ∷ []))
        (omega arith)
        (AllBelow-append_one (start + 1) start xs
          (AllBelow-mono start (start + 1) xs (omega arith) b) (omega arith))
        added.0 in
    (rw (append_assoc xs (start ∷ []) (range_from (start + 1) rounds)) at rest.0, rest.1 ∙ added.1)

-- The frames from the kernel's break up to the kernel stack, and those above frame 128.
abbrev pub initial_frames : (kernel_brk_page frame_count : ℕ) → List ℕ
initial_frames kernel_brk_page frame_count =
    (kernel_brk_page ∷ range_from (kernel_brk_page + 1) (126 - (kernel_brk_page + 1)))
    ++ range_from 129 (frame_count - 129)

has-initial_frames :
    (f k n : ℕ)
    → k < 126
    → has f (initial_frames k n) ≡ ((leb k f && ltb f 126) || (leb 129 f && ltb f n))
has-initial_frames f k n h = ground (
  arith,
  has-append f (k ∷ range_from (k + 1) (126 - (k + 1))) (range_from 129 (n - 129)),
  has-range_from-eq f (k + 1) (126 - (k + 1)),
  has-range_from-eq f 129 (n - 129),
)

-- With the kernel's break below its stack, initialization frees, once each, exactly the frames
-- from the break up to the stack and those from 129 up to the size of the memory in pages: no
-- frame of the kernel's text, data or stack, and, although the stack ends below it, not frame 128.
pub initialize-IsFree :
    (kernel_brk_page pmem_size : ℕ) (m : Machine)
    → kernel_brk_page < 126
    → pmem_size < 2 ^ 32
    → (xs : List ℕ) × IsFree (initialize_physical_memory_management kernel_brk_page pmem_size m) xs
      × ((f : ℕ)
          → has f xs
            ≡ ((leb kernel_brk_page f && ltb f 126) || (leb 129 f && ltb f (pmem_size / 2 ^ 13))))
unfolding initialize_physical_memory_management
initialize-IsFree k size m h small =
    let n = size / 2 ^ 13 in
    let first : IsFree (record m { free_frames_head = pos k; free_frames_tail = pos k }) (k ∷ []) =
      record { ends = (refl, refl); chain = tt; distinct = (refl, tt); fits = (omega arith, tt) } in
    let below =
      add_frames-append (k + 1) (126 - (k + 1)) _ (k ∷ []) (omega arith) (omega arith, tt) first in
    let above =
      add_frames-append 129 (n - 129) _ _ (omega arith)
        (omega arith, AllBelow-range_from 129 (k + 1) (126 - (k + 1)) (omega arith)) below.0 in
    (initial_frames k n, above.0, λ f. has-initial_frames f k n h)
