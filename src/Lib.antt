-- ===== src/Lib.antt =====
-- The Yalnix kernel of this repository: processes, their scheduling and sleeping, locks, condition
-- variables, semaphores, pipes and terminals, and the linked list that every queue of it is.
--
-- The parts and their files:
--   LinkedList         list.c, list.h: list_insert, list_remove, list_index and list_delete as commands
--                      on a heap of nodes (NodeHeap), related to sequences in LinkedList/Insert,
--                      Remove, Index and Delete, and the loops of the handlers over a whole list.
--   Kernel             kernel.h, scheduler.h: the global variables as one record. Kernel/Monad has the
--                      commands that change it, Kernel/Frames mem.c, Kernel/Memory the access to
--                      region 1 through a page table.
--   Scheduler          scheduler.c, and normal_schedule of syscall.c.
--   Lock, Cvar         the calls of locks and condition variables of syscall.c (sys_LockInit, sys_Acquire,
--                      sys_Release, sys_CvarInit, sys_CvarSignal, sys_CvarBroadcast, sys_CvarWait).
--   Semaphore          sys_Custom_0, sys_Custom_1 and sys_Custom_2 of syscall.c.
--   Pipe               sys_PipeInit, sys_PipeRead and sys_PipeWrite of syscall.c; Pipe/Stream and Written
--                      are about the bytes that it holds.
--   Reclaim            sys_Reclaim of syscall.c, with the destroy functions of scheduler.c.
--   Process            sys_Brk, sys_Fork, sys_Wait, sys_Exit, sys_Getpid and sys_Delay of syscall.c.
--   Program            loadprogram.c, and sys_Exec of syscall.c.
--   Start              kernel.c: KernelStart and what it calls, SetKernelData and SetKernelBrk, and
--                      save_initial_kernel of scheduler.c.
--   Terminal           sys_TtyRead and sys_TtyWrite of syscall.c, and the terminals' traps of trap.c.
--                      Terminal/Lines follows a line from the trap to its reader, Terminal/Writes a
--                      turn of the loops of sys_TtyWrite.
--   Trap               trap.c: the dispatch of kernel calls, the other traps, and what a process does
--                      when it is switched to. Trap/Runs has the runs of the machine as sequences of steps,
--                      Trap/Fair the turns of the processes; Trap/Lasting, Single and Invariants have
--                      what lasts through every run, Trap/Streams what the pipes hold in it, Trap/Booted
--                      the runs that begin at KernelStart.
--   Quiet              the parts of the handlers that move no process.
--   Untouched          what each handler leaves as it is, of the pids, locks, semaphores and pipes.
--   Places             where the processes are: the counting of the places that hold one.
--   Base, Samples      shared helpers, and a small kernel for the tests.
--
-- How the state corresponds to the code:
--   A `list` of the kernel is a `List`; LinkedList relates the operations of list.c to those on it. A
--   `pcb_t*` is the pid under which pcb_table keeps the pcb; a pointer to a pipe, a lock, a condition
--   variable or a semaphore is its `addr`, and reading it after the structure was freed is a fault.
--   An `int` is an integer without a bound, but for the registers, whose 32 bits `to_int` reads.
--   `malloc` follows a script of outcomes, `mallocs`, and succeeds where the script has ended, so that a
--   theorem with `mallocs ≡ []` is about calls that get their memory.
--   A handler is a function of the state to an outcome: it returns (done), gives the processor to another
--   process (switched), goes wrong in memory (fault), or runs out of fuel. The fuel counts the rounds of
--   loops that go round while nobody else is ready (sys_Acquire, sys_PipeRead, sys_TtyWrite) or for ever
--   (the loop of trap_tty_receive_hdl); where another process is ready, one round is enough to block.
--   A process that was switched away goes on at the `Point` that its pcb keeps in place of the saved kernel
--   context and stack; `Trap.resume` runs what follows there. KernelContextSwitch is taken to succeed.
--   A node that update_sleep_list or sys_Wait has freed and still reads counts as unchanged there, as it
--   is before another `malloc`, and the loops over a list end behind its last node, as they do where the
--   next of a new head is NULL; LinkedList/Index is about what they do in general.
--   `free` of an address inside a block, which sys_PipeRead does, has no effect where the kernel's
--   `free_inside` says so, and is a fault elsewhere.
--   The arithmetic on addresses wraps at 32 bits where sys_Brk and SetKernelBrk do it.
--   The check of a terminal's number lets 4 through, one too many; its entries of the arrays are then
--   the model's own.
--   An access to memory that is not mapped in region 1, or that belongs to the kernel, is a fault.
--
--   The files that load_program reads are a parameter: for a name, the load_info that LoadInfo finds and
--   the bytes that `read` delivers, or that it delivers too few. The strings that sys_Exec is given are
--   read with fuel for the whole of region 1, behind which an access is a fault.
--   What the boot ROM passes to KernelStart, and what TtyReceive delivers, are arguments.
--   A step of a run is a trap through int_vector, the first part of what a process does after a switch,
--   or a computation of a process, which may change the memory and its registers at will.
--
-- Not modelled: the TLB and the machine's registers; TracePrintf; the bytes that a read delivers where it
-- falls short, since load_program then gives up; the calls that malloc itself makes of SetKernelBrk; the
-- user programs and tests.
pub mod Base
pub mod Samples
pub mod NodeHeap
pub mod LinkedList
pub mod Kernel
pub mod Scheduler
pub mod Lock
pub mod Cvar
pub mod Semaphore
pub mod Pipe
pub mod Reclaim
pub mod Process
pub mod Program
pub mod Start
pub mod Terminal
pub mod Trap
pub mod Quiet
pub mod Untouched
pub mod Places
