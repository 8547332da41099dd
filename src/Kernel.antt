-- ===== src/Kernel.antt =====
-- The kernel's state: kernel.h, scheduler.h, and of hardware.h the structures that they use.
-- A `list` is a `List` (LinkedList is about list.c); a `pcb_t*` is the process's
-- pid, since `pcb_table` keeps each pcb under the pid that it was created with; a pointer to a pipe,
-- lock, cvar or semaphore is its `addr`.
pub mod Monad
pub mod Frames
pub mod Memory
use sc0x3a.Base.{ℕ, ℤ, Bool, Option, List}

-- `pcb_t.state`; the kernel tests it for BLOCKED_W and BLOCKED_R only.
pub data State : Type 0 where
  running ready waiting blocked_w blocked_r delay terminated : State

-- `struct pte`
pub record Pte : Type 0 where
  pub valid : Bool
  pub prot : ℕ
  pub pfn : ℕ

-- `UserContext`; of the eight registers the kernel reads and writes the first three.
pub record UserContext : Type 0 where
  pub code : ℕ
  pub addr : ℕ
  pub pc : ℕ
  pub sp : ℕ
  pub reg0 : ℕ
  pub reg1 : ℕ
  pub reg2 : ℕ

-- Where a process that is not running goes on when it is switched to: what its saved kernel context
-- and kernel stack stand for, with the local variables that are read from there on.
pub data Point : Type 0 where
  -- the end of KernelStart, where a process is switched to for the first time
  start : Point
  -- do_scheduler, in the clock trap
  preempted : Point
  -- sys_Wait with its `i`, and sys_Delay
  waited : ℕ → Point
  delayed : Point
  -- sys_TtyRead with its tty_id, and sys_TtyWrite with its remain_bytes, in its two loops
  tty_read : ℤ → Point
  tty_busy : ℤ → Point
  tty_sent : ℤ → Point
  -- sys_PipeRead with the pipe and `exist`
  pipe_wait : ℕ → Bool → Point
  -- sys_Acquire with the lock, its id, `exist`, and whether sys_CvarWait called it
  lock_wait : ℕ → ℤ → Bool → Bool → Point
  -- sys_CvarWait with its two ids, and sys_Custom_2
  cvar_wait : ℤ → ℤ → Point
  sem_wait : Point
  -- sys_Exit, which is not returned to
  exited : Point

-- `pcb_t`; `k_stack_0` and `k_stack_1` are the two entries of `k_stack_pt`.
pub record Pcb : Type 0 where
  pub state : State
  pub ppid : ℤ
  pub children : List ℕ
  pub uctxt : UserContext
  pub kctxt : Point
  pub next_heap_pn : ℤ
  pub next_stack_pn : ℤ
  pub tty_id : ℤ
  pub buf : ℕ
  pub len : ℤ
  pub u_page_table : List Pte
  pub k_stack_0 : Pte
  pub k_stack_1 : Pte

pub record SleepInfo : Type 0 where
  pub ticks_left : ℤ
  pub pcb : ℕ

pub record DeadInfo : Type 0 where
  pub ppid : ℤ
  pub pid : ℕ
  pub status : ℤ

-- `pipe_buffer` maps an offset to a byte.
pub record PipeInfo : Type 0 where
  pub addr : ℕ
  pub pipeid : ℕ
  pub cur_len : ℕ
  pub pipe_buffer : ℕ → ℕ
  pub pipe_wait_list : List ℕ

pub record LockInfo : Type 0 where
  pub addr : ℕ
  pub lockid : ℕ
  pub locked : Bool
  pub pid : ℕ
  pub lock_wait_list : List ℕ

pub record CvarInfo : Type 0 where
  pub addr : ℕ
  pub cvarid : ℕ
  pub cvar_wait_list : List ℕ

-- `reclaim_info.type`: 0, 1 and 2
pub data Kind : Type 0 where
  pipe lock cvar : Kind

pub record ReclaimInfo : Type 0 where
  pub id : ℕ
  pub kind : Kind

pub record Semaphore : Type 0 where
  pub addr : ℕ
  pub id : ℕ
  pub count : ℤ
  pub waiting : List ℕ

-- The handlers that `int_vector` holds pointers to.
pub data Handler : Type 0 where
  on_kernel on_clock on_illegal on_memory on_math : Handler
  on_receive on_transmit on_disk on_undefined : Handler

-- The global variables that the start of the kernel sets up, and that SetKernelBrk uses; addresses are
-- numbers, and `krnl_page_table` maps a page of region 0 to its entry.
pub record Boot : Type 0 where
  pub vmem_enabled : Bool
  pub total_frames : ℕ
  pub kernel_brk : ℕ
  pub data_seg_limit : ℕ
  pub data_seg_base : ℕ
  pub krnl_page_table : ℕ → Pte
  pub initial_ks_0 : Pte
  pub initial_ks_1 : Pte
  pub int_vector : List Handler
  pub p_idle : Option ℕ
  pub p_init : Option ℕ

-- The global variables of kernel.h, the user context of the trap that is handled, and the memory:
-- `mallocs` are the outcomes of the coming calls of `malloc`, which all succeed behind its end,
-- `fresh` is the address that the next one returns, `phys` maps a frame and an offset to a byte,
-- `sent` are the terminal, the address and the length of each call of TtyTransmit, latest first, and
-- `free_inside` tells whether `free` of an address inside a block has no effect; if not, it is a fault.
pub record Kernel : Type 0 where
  pub mallocs : List Bool
  pub fresh : ℕ
  pub phys : ℕ → ℕ → ℕ
  pub uctxt : UserContext
  pub free_frames : List ℕ
  pub next_pid : ℕ
  pub pcbs : ℕ → Pcb
  pub active_proc : Option ℕ
  pub ready_queue : List ℕ
  pub sleep_list : List SleepInfo
  pub wait_list : List ℕ
  pub io_list : List ℕ
  pub dead_list : List DeadInfo
  pub pipe_list : List PipeInfo
  pub lock_list : List LockInfo
  pub cvar_list : List CvarInfo
  pub reclaim_list : List ReclaimInfo
  pub sem_list : List Semaphore
  pub next_sem : ℕ
  pub receive : ℤ → ℕ → ℕ
  pub busy_terminal : ℤ → Bool
  pub string_len : ℕ
  pub sent : List (ℤ × ℕ × ℤ)
  pub free_inside : Bool
  pub boot : Boot
