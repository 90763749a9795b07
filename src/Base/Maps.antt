-- ===== src/Base/Maps.antt =====
-- Finite updates of functions on numbers.
use Prim.Native.Nat.{ℕ}
use theynix.Base.Tests.{◌==◌, if◌then◌else◌}

abbrev pub update {ℓ} : {A : Type ℓ} → (ℕ → A) → ℕ → A → ℕ → A
update f k v i = if i == k then v else f i
