-- ===== src/Trap.antt =====
-- trap.c: the handlers of the kernel's traps, and what a process does when it is switched to.
-- The files that sys_Exec loads programs from are an argument, as are what the terminals deliver.
pub mod Calls
pub mod Clock
pub mod Resumed
pub mod Machine
pub mod Runs
pub mod Fewer
pub mod Lasting
mod Invariants
mod Streams
mod Single
mod Booted
mod Tests
mod Fair
use sc0x3a.Base.{
  none, some, get_elem?, ℕ, zero, suc, ◌+◌, true, false, ◌&&◌, List, [], ◌∷◌, if◌then◌else◌, ◌==◌,
  ℤ, pos, pos_part, ltb_ℤ, leb_ℤ, ◌-ℤ◌, to_int, of_int, shift_page, get_elem?,
}
use sc0x3a.Kernel.{
  Handler, on_kernel, on_clock, on_illegal, on_memory, on_math, on_receive, on_transmit, on_disk,
  on_undefined, Point, start, preempted, waited, delayed, tty_read, tty_busy, tty_sent, pipe_wait,
  lock_wait, cvar_wait, sem_wait, exited,
}
use sc0x3a.Kernel.Monad.{M, crash, pure, ◌>>=◌, ◌>>◌, get, put, current}
use sc0x3a.Kernel.Frames.{grab_a_frame}
use sc0x3a.Kernel.Memory.{read_write}
use sc0x3a.Scheduler.{update_pcb, update_sleep_list, do_scheduler}
use sc0x3a.Lock.{sys_LockInit, sys_Acquire, sys_Release, acquire_back}
use sc0x3a.Cvar.{sys_CvarInit, sys_CvarSignal, sys_CvarBroadcast, sys_CvarWait, cvar_back}
use sc0x3a.Semaphore.{sys_Custom_0, sys_Custom_1, sys_Custom_2}
use sc0x3a.Pipe.{sys_PipeInit, sys_PipeRead, sys_PipeWrite, pipe_back}
use sc0x3a.Reclaim.{sys_Reclaim}
use sc0x3a.Process.{set_pte, sys_Brk, sys_Fork, sys_Wait, wait_back, sys_Getpid, sys_Delay}
use sc0x3a.Process.Exit.{sys_Exit}
use sc0x3a.Terminal.{
  sys_TtyRead, tty_read_back, sys_TtyWrite, write_loop, trap_tty_receive_hdl, trap_tty_transmit_hdl,
}
use sc0x3a.Program.{FileSystem}
use sc0x3a.Program.Exec.{sys_Exec}

-- `u_context->regs[0] = ret`
unfoldable pub set_result : ℤ → M (Unit {0})
set_result ret = do k ← get; put (record k { uctxt = record k.uctxt { reg0 = of_int ret } })

-- The kernel call numbers of yalnix.h for Linux, below YALNIX_PREFIX.
pub data Call : Type 0 where
  brk fork exec exit wait delay getpid read write pipe_init pipe_read pipe_write lock_init : Call
  acquire release cvar_init signal broadcast cvar_wait_call reclaim : Call
  custom_0 custom_1 custom_2 : Call
  unknown : Call

abbrev prefix : ℕ
prefix = 0xabcd_ef00

-- The first call of the table with that number.
lookup_call : ℕ → List (ℕ × Call) → Call
lookup_call n [] = unknown
lookup_call n ((m, c) ∷ cs) = if n == prefix + m then c else lookup_call n cs

abbrev calls : List (ℕ × Call)
calls =
    (0x6, brk)
    ∷ (0x1, fork)
    ∷ (0x2, exec)
    ∷ (0x3, exit)
    ∷ (0x4, wait)
    ∷ (0x7, delay)
    ∷ (0x5, getpid)
    ∷ (0x21, read)
    ∷ (0x22, write)
    ∷ (0x48, pipe_init)
    ∷ (0x49, pipe_read)
    ∷ (0x4a, pipe_write)
    ∷ (0x63, lock_init)
    ∷ (0x64, acquire)
    ∷ (0x65, release)
    ∷ (0x66, cvar_init)
    ∷ (0x67, signal)
    ∷ (0x68, broadcast)
    ∷ (0x69, cvar_wait_call)
    ∷ (0x6a, reclaim)
    ∷ (0x70, custom_0)
    ∷ (0x71, custom_1)
    ∷ (0x72, custom_2)
    ∷ []

unfoldable pub call_of : ℕ → Call
unfolding lookup_call
call_of code = lookup_call code calls

-- The switch of trap_kernel_hdl. `junk` is what the variable `ret` holds before it is assigned.
unfoldable pub dispatch : ℕ → FileSystem → ℤ → Call → M ℤ
dispatch fuel files junk brk = sys_Brk
dispatch fuel files junk fork = sys_Fork
dispatch fuel files junk exec = sys_Exec files
dispatch fuel files junk exit = sys_Exit 0
dispatch fuel files junk wait = sys_Wait
dispatch fuel files junk delay = sys_Delay
dispatch fuel files junk getpid = sys_Getpid
dispatch fuel files junk read = sys_TtyRead
dispatch fuel files junk write = sys_TtyWrite fuel
dispatch fuel files junk pipe_init = sys_PipeInit
dispatch fuel files junk pipe_read = sys_PipeRead fuel
dispatch fuel files junk pipe_write = sys_PipeWrite
dispatch fuel files junk lock_init = sys_LockInit
dispatch fuel files junk acquire = sys_Acquire fuel (pos 0) false
dispatch fuel files junk release = do k ← get; sys_Release (to_int k.uctxt.reg0)
dispatch fuel files junk cvar_init = sys_CvarInit
dispatch fuel files junk signal = sys_CvarSignal
dispatch fuel files junk broadcast = sys_CvarBroadcast
dispatch fuel files junk cvar_wait_call = sys_CvarWait fuel
dispatch fuel files junk reclaim = sys_Reclaim
dispatch fuel files junk custom_0 = sys_Custom_0
dispatch fuel files junk custom_1 = sys_Custom_1
dispatch fuel files junk custom_2 = sys_Custom_2
dispatch fuel files junk unknown = pure junk

unfoldable pub trap_kernel_hdl : ℕ → FileSystem → ℤ → M (Unit {0})
unfolding dispatch set_result
trap_kernel_hdl fuel files junk = do
  k ← get
  ret ← dispatch fuel files junk (call_of k.uctxt.code)
  set_result ret

unfoldable pub trap_clock_hdl : M (Unit {0})
unfolding update_sleep_list do_scheduler
trap_clock_hdl = do update_sleep_list; do_scheduler; pure tt

-- trap_undefined_hdl, trap_illegal_hdl and trap_math_hdl
unfoldable pub trap_abort : M (Unit {0})
unfolding set_result
trap_abort = do ret ← sys_Exit 1; set_result ret

-- The loop of trap_memory_hdl over `n` pages from page `i` down. A page for which no frame is left
-- is mapped to frame 0.
unfoldable pub stack_loop : ℕ → ℕ → ℤ → M (Unit {0})
unfolding grab_a_frame set_pte
stack_loop p zero i = pure tt
stack_loop p (suc n) i = do
  pfn ← grab_a_frame
  set_pte p i (record { valid = true; prot = read_write; pfn = pfn })
  stack_loop p n (i -ℤ pos 1)

unfoldable pub trap_memory_hdl : M (Unit {0})
unfolding stack_loop trap_abort update_pcb
trap_memory_hdl = do
  k ← get
  p ← current
  let pn_end = shift_page (to_int k.uctxt.addr) -ℤ pos 128 -ℤ pos 1
  let c = k.pcbs p
  if leb_ℤ pn_end c.next_stack_pn && ltb_ℤ c.next_heap_pn pn_end
      then (do
        stack_loop p (pos_part (c.next_stack_pn -ℤ pn_end)) c.next_stack_pn
        update_pcb p (λ c. record c { next_stack_pn = pn_end }))
      else trap_abort

-- What context_switch and its callers do in a process that is switched to: its user context is
-- restored, and the handler goes on from the point where it gave the processor away.
unfoldable pub continue : ℕ → Point → M (Unit {0})
unfolding set_result
continue fuel start = pure tt
continue fuel preempted = pure tt
continue fuel (waited i) = wait_back i >>= set_result
continue fuel delayed = set_result (pos 0)
continue fuel (tty_read tty_id) = tty_read_back tty_id >>= set_result
continue fuel (tty_busy n) = write_loop fuel n >>= set_result
continue fuel (tty_sent n) = write_loop fuel n >>= set_result
continue fuel (pipe_wait a exist) = pipe_back fuel a exist >>= set_result
continue fuel (lock_wait a id exist in_cvar) = acquire_back fuel a id exist in_cvar >>= set_result
continue fuel (cvar_wait cvar_id lock_id) = cvar_back fuel cvar_id lock_id >>= set_result
continue fuel sem_wait = set_result (pos 0)
continue fuel exited = crash

unfoldable pub resume : ℕ → M (Unit {0})
unfolding continue
resume fuel = do
  k ← get
  p ← current
  put (record k { uctxt = (k.pcbs p).uctxt })
  continue fuel (k.pcbs p).kctxt

-- trap_disk_hdl only traces.
abbrev pub trap_disk_hdl : M (Unit {0})
trap_disk_hdl = pure tt

-- What the machine and the file system supply to a trap: the files, the line and its length that
-- TtyReceive delivers, and what an unassigned variable holds.
pub record Outside : Type 0 where
  pub files : FileSystem
  pub line : ℕ → ℕ
  pub count : ℕ
  pub junk : ℤ

-- The handlers that `int_vector` points to, and the trap that the machine makes through it.
unfoldable pub handle : ℕ → Outside → Handler → M (Unit {0})
handle fuel out on_kernel = trap_kernel_hdl fuel out.files out.junk
handle fuel out on_clock = trap_clock_hdl
handle fuel out on_illegal = trap_abort
handle fuel out on_memory = trap_memory_hdl
handle fuel out on_math = trap_abort
handle fuel out on_receive = trap_tty_receive_hdl fuel out.line out.count
handle fuel out on_transmit = trap_tty_transmit_hdl
handle fuel out on_disk = trap_disk_hdl
handle fuel out on_undefined = trap_abort

unfoldable pub trap : ℕ → Outside → ℕ → M (Unit {0})
unfolding handle
trap fuel out vector = do
  k ← get
  elim (get_elem? k.boot.int_vector vector) [ none ↦ crash | some h ↦ handle fuel out h ]
