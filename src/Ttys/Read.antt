-- ===== src/Ttys/Read.antt =====
-- What KernelTtyRead takes of the lines that a terminal keeps.
use theynix.Kernel.{Kernel}
