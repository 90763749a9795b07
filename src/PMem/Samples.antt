-- ===== src/PMem/Samples.antt =====
-- A machine that tests share.
use theynix.Base.{true, false, pos, [], ◌∷◌, arith, ◌==◌, if◌then◌else◌}
use theynix.PMem.{Machine, Pte}
use theynix.PMem.FreeList.{IsFree}

abbrev pub blank_pte : Pte
blank_pte = record { valid = false; prot = 0; pfn = 0 }

-- Frames 5 and 9 are free.
abbrev pub two_free : Machine
two_free = record {
  free_frames_head = pos 5;
  free_frames_tail = pos 9;
  entry = record { valid = true; prot = 1; pfn = 77 };
  mapped = 77;
  frames = λ f i. if i == 0 then pos 9 else pos 5;
}

pub two_free-IsFree : IsFree two_free (5 ∷ 9 ∷ [])
two_free-IsFree = ground arith
