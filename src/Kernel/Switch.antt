-- ===== src/Kernel/Switch.antt =====
-- What a context switch leaves alone.
use theynix.Base.{◌≡◌, refl}
use theynix.Kernel.{Kernel, Resume, switch_to_next_proc}

pub switch_to_next_proc-keeps :
    (r : Resume) (k : Kernel)
    → let k' = switch_to_next_proc r k in
      (k'.cvars ≡ k.cvars) × (k'.locks ≡ k.locks) × (k'.pipes ≡ k.pipes) × (k'.ttys ≡ k.ttys)
switch_to_next_proc-keeps r k = (refl, refl, refl, refl)
