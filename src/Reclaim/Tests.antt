-- ===== src/Reclaim/Tests.antt =====
-- KernelReclaim on a small kernel.
use theynix.Base.{ℕ, ◌≡◌, refl, none, [], ℤ, arith}
use theynix.VMem.Allocator.{pmem_allocator}
use theynix.PMem.{error, Machine}
use theynix.Kernel.Samples.{held_lock, small_kernel}
use theynix.Processes.{kernel_exit}
use theynix.Reclaim.{kernel_reclaim}
use theynix.Reclaim.Laws.{kernel_reclaim-hangs_exit}
use theynix.Locks.{find_lock}
use theynix.Kernel.{Kernel}

kernel_reclaim-hangs_exit_example :
    (k' : Kernel) × (kernel_reclaim 1 small_kernel ≡ (error, k'))
    × (find_lock 1 k' ≡ none)
    × ((fuel : ℕ) (status : ℤ) (s : Machine) → kernel_exit pmem_allocator fuel status k' s ≡ none)
kernel_reclaim-hangs_exit_example =
    kernel_reclaim-hangs_exit pmem_allocator 1 [] held_lock small_kernel refl refl refl refl
      (omega arith)
