-- ===== src/PMem/Access.antt =====
-- What one call of SetNextAndPrevFreeFrameNumbers or AddToLinkedList leaves in the machine.
use theynix.Base.{ℕ, ◌^◌, ◌%◌, ◌<◌, ◌≡◌, ◌≢◌, ℤ, pos, negsuc, update, arith}
use theynix.PMem.{Machine, set_next_and_prev, add_to_linked_list}

-- The frames after word `i` of frame `f` was set to `v`.
abbrev pub put : (ℕ → ℕ → ℤ) → ℕ → ℕ → ℤ → ℕ → ℕ → ℤ
put frames f i v = update frames f (update (frames f) i v)

fits : (x : ℕ) → x < 2 ^ 24 → x % 2 ^ 24 ≡ x
fits x h = omega arith

pub set_next-tail :
    (m : Machine) (t f : ℕ)
    → t < 2 ^ 24
    → m.free_frames_tail ≡ pos t
    → set_next_and_prev (pos t) (pos f) (negsuc 0) m ≡ record m {
      free_frames_tail = pos f;
      mapped = m.entry.pfn;
      frames = put m.frames t 0 (pos f);
    }
unfolding set_next_and_prev
set_next-tail m t f small e = ground (arith, fits t)

-- The frame becomes the new end; it is not the head, unless it was the only frame.
pub set_prev-frame :
    (m : Machine) (t f : ℕ)
    → f < 2 ^ 24
    → m.free_frames_head ≢ pos f
    → set_next_and_prev (pos f) (negsuc 0) (pos t) m
      ≡ record m { mapped = m.entry.pfn; frames = put m.frames f 1 (pos t) }
unfolding set_next_and_prev
set_prev-frame m t f small ne = ground (arith, fits f)

pub add-nonempty :
    (m : Machine) (h t f : ℕ)
    → t < 2 ^ 24
    → f < 2 ^ 24
    → m.free_frames_head ≡ pos h
    → m.free_frames_tail ≡ pos t
    → f ≢ h
    → add_to_linked_list (pos f) m ≡ record m {
      free_frames_tail = pos f;
      mapped = m.entry.pfn;
      frames = put (put m.frames t 0 (pos f)) f 1 (pos t);
    }
unfolding add_to_linked_list
add-nonempty m h t f ts fs eh et ne = ground (
  arith,
  set_next-tail m t f,
  set_prev-frame
      (record m {
        free_frames_tail = pos f;
        mapped = m.entry.pfn;
        frames = put m.frames t 0 (pos f);
      })
      t f,
)

pub add-empty :
    (m : Machine) (f : ℕ)
    → f < 2 ^ 24
    → m.free_frames_head ≡ negsuc 0
    → add_to_linked_list (pos f) m ≡ record m {
      free_frames_head = pos f;
      free_frames_tail = pos f;
      mapped = m.entry.pfn;
      frames = put (put m.frames f 0 (pos f)) f 1 (pos f);
    }
unfolding add_to_linked_list set_next_and_prev
add-empty m f fs eh = ground (arith, fits f)
