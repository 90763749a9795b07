-- ===== src/Lib.antt =====
-- THEYNIX: a model of the Yalnix kernel in the repository's root directory, with its correctness
-- theorems.
--
-- The kernel keeps the free frames of physical memory in a list (PMem.c), maps frames at pages of a
-- process's region 1 and of its kernel stack (VMem.c), and keeps for each process a PCB (PCB.h). The
-- calls of a process (SystemCalls.c) and the traps (Traps.c) change these and the shared resources,
-- locks (Lock.c), condition variables (CVar.c), pipes (Pipe.c) and terminals (Tty.c). A call that
-- has to wait puts the caller on a queue and switches to the first process of the ready queue
-- (Kernel.c); whoever ends the wait appends it to that queue.
--
-- Where the parts stand:
--   Base           shared names, lists, maps and integers; no code of the kernel
--   PMem           PMem.c; the frames' own words, the borrowed page table entry and the TLB entry
--                  are a `Machine`, and every operation is a function of it
--   LinkedList     List.c and List.h; the nodes stand in a `Memory`, by address. The other models
--                  take lists as sequences, which LinkedList/Holds.antt relates to the nodes
--   VMem           VMem.c but for region 0; it sees PMem only as a `FrameAllocator`, an interface
--                  with its laws, which PMem's theorems fill in VMem/Allocator.antt
--   KernelHeap     the pages of region 0 in VMem.c, SetKernelBrk and InitBookkeepingStructs of
--                  Kernel.c
--   PageCopy       the copies of pages in Kernel.c, SaveKernelContextAndSwitch; an `Mmu` has the
--                  page table of a region, the entries that the hardware has loaded, and the frames
--   AddressSpace   KernelBrk of SystemCalls.c and TrapMemory of Traps.c
--   Kernel         PCB.h, the structs of Lock.h, CVar.h, Pipe.h and Tty.h, the globals of Kernel.h,
--                  SwitchToProc and SwitchToNextProc of Kernel.c
--   Locks          Lock.c, KernelLockInit, KernelAcquire, KernelRelease; Locks/Steps.antt has the
--                  steps of a system of processes that call them and are scheduled
--   CVars          CVar.c, KernelCvarInit, KernelCvarSignal, KernelCvarBroadcast, KernelCvarWait
--   Pipes          Pipe.c, KernelPipeInit, KernelPipeRead, KernelPipeWrite
--   Fork           KernelFork, PCB.c, and CopyRegion1PageTableAndData of Kernel.c, on the interface
--                  of VMem and the copies of PageCopy
--   LoadProgram    LoadProgram.c, with what the file holds as an argument
--   Processes      KernelExit, KernelWait, KernelGetPid, KernelDelay, TrapClock
--   Ttys           Tty.c, KernelTtyRead, KernelTtyWrite, TrapTtyRecieve, TrapTtyTransmit
--   Reclaim        KernelReclaim
--   Validate       ValidatePage, ValidateUserArg, ValidateUserString
-- A function has the C function's name in lower case with underscores. State is passed explicitly.
-- A process is its pid, and a List of the kernel is the sequence of what it holds. A call gives an
-- `Outcome`: it returns a code with what it stores for the user, switches, fails an assert or halts.
-- What a call does after its switch is a function of its own, named with `_resumed`. The check of a
-- user's pointer comes into the calls as its result.
--
-- Bounds: `pfn` has 24 bits, so the frames of a free list are below 2 ^ 24; addresses are below
-- 2 ^ 32, and KernelBrk's subtraction wraps there; a page table of region 1 has 128 entries, and a
-- read behind it is a result of its own. Counters of ids and bytes are taken as unbounded. The loop of
-- KernelExit over the owned locks is on fuel, and as many rounds as the process owns locks are
-- enough; the loops of List.c are on fuel, and more than the list's nodes is enough; a user's
-- string is read with an address of fuel for each up to the end of region 1. The addresses of a new
-- stack wrap in 32 bits, and so do the pages of a file's text and data. TrapClock has no result
-- where ListMap reads a node that its function freed.
--
-- Not modelled: KernelExec, and the bytes of text and data in LoadProgram.c; the saved user
-- registers; the rest of the boot (Kernel.c); the table of traps and the traps that only print and
-- exit; allocation failures; the messages to the console; the bytes that memcpy reads or writes
-- behind a buffer.
pub mod Base
pub mod PMem
pub mod VMem
pub mod AddressSpace
pub mod Kernel
pub mod Locks
pub mod PageCopy
pub mod Pipes
pub mod CVars
pub mod Reclaim
pub mod LoadProgram
pub mod Processes
pub mod Fork
pub mod Ttys
pub mod Validate
pub mod KernelHeap
pub mod LinkedList
