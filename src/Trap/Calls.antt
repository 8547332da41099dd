-- ===== src/Trap/Calls.antt =====
-- Where the processes are around trap_kernel_hdl.
use sc0x3a.Base.{ℕ, suc, ◌≡◌, Bool, true, false, ℤ, pos, to_int, arith}
use sc0x3a.Kernel.{Kernel}
use sc0x3a.Kernel.Monad.{Keeps}
use sc0x3a.Process.{sys_Getpid}
use sc0x3a.Program.{FileSystem}
use sc0x3a.Quiet.{Silent, Silent-pure, silent_rules}
use sc0x3a.Quiet.Memory.{sys_Brk-Silent}
use sc0x3a.Quiet.Program.{sys_Exec-Silent}
use sc0x3a.Places.Counting.{Same}
use sc0x3a.Places.Conserve.{CanBlock, Conserves, Conserves-of_Silent, Conserves-then}
use sc0x3a.Places.Lock.{sys_LockInit-places, sys_Acquire-places, sys_Release-places}
use sc0x3a.Places.Semaphores.{sys_Custom_1-places, sys_Custom_2-places}
use sc0x3a.Places.Cvars.{sys_CvarSignal-places, sys_CvarBroadcast-places, sys_CvarWait-places}
use sc0x3a.Places.Pipes.{sys_PipeRead-places, sys_PipeWrite-places}
use sc0x3a.Places.Created.{sys_PipeInit-places, sys_CvarInit-places, sys_Custom_0-places}
use sc0x3a.Places.Waiting.{sys_Wait-places, sys_Delay-places}
use sc0x3a.Places.Terminals.{sys_TtyRead-places, sys_TtyWrite-places}
use sc0x3a.Trap.{
  Call, brk, fork, exec, exit, wait, delay, getpid, read, write, pipe_init, pipe_read, pipe_write,
  lock_init, acquire, release, cvar_init, signal, broadcast, cvar_wait_call, reclaim, custom_0,
  custom_1, custom_2, unknown, call_of, dispatch, set_result, trap_kernel_hdl,
}

-- The calls other than those that make a process, end one, or destroy what processes wait for.
abbrev pub moves_only : Call → Bool
moves_only fork = false
moves_only exit = false
moves_only reclaim = false
moves_only _ = true

pub sys_Getpid-Silent : Silent sys_Getpid
unfolding sys_Getpid
sys_Getpid-Silent = search silent_rules depth 12

pub set_result-Silent : (ret : ℤ) → Silent (set_result ret)
unfolding set_result Silent
set_result-Silent ret k = ground arith

module _ (a p fuel : ℕ) (files : FileSystem) (junk : ℤ) where
  pub dispatch-Conserves :
      (c : Call) → moves_only c ≡ true → Conserves a p (dispatch (suc fuel) files junk c)
  unfolding dispatch Conserves
  dispatch-Conserves brk t = Conserves-of_Silent a p _ sys_Brk-Silent
  dispatch-Conserves fork t = absurd (cc)
  dispatch-Conserves exec t = Conserves-of_Silent a p _ (sys_Exec-Silent files)
  dispatch-Conserves exit t = absurd (cc)
  dispatch-Conserves wait t = sys_Wait-places a p
  dispatch-Conserves delay t = sys_Delay-places a p
  dispatch-Conserves getpid t = Conserves-of_Silent a p _ sys_Getpid-Silent
  dispatch-Conserves read t = sys_TtyRead-places a p
  dispatch-Conserves write t = sys_TtyWrite-places a p (suc fuel)
  dispatch-Conserves pipe_init t = λ k c. sys_PipeInit-places a k c.memory
  dispatch-Conserves pipe_read t =
      λ k c. let (x, xs, r) = c.ready in sys_PipeRead-places a fuel p x xs k c.memory c.active r
  dispatch-Conserves pipe_write t = λ k c. sys_PipeWrite-places a p k c.memory c.active
  dispatch-Conserves lock_init t = λ k c. sys_LockInit-places a k c.memory
  dispatch-Conserves acquire t = λ k c.
      let (x, xs, r) = c.ready in
      sys_Acquire-places a fuel (pos 0) false p x xs k c.memory c.active r
  dispatch-Conserves release t =
      λ k c. sys_Release-places a (to_int k.uctxt.reg0) p k c.memory c.active
  dispatch-Conserves cvar_init t = λ k c. sys_CvarInit-places a k c.memory
  dispatch-Conserves signal t = λ k c. sys_CvarSignal-places a k c.memory
  dispatch-Conserves broadcast t = λ k c. sys_CvarBroadcast-places a k c.memory
  dispatch-Conserves cvar_wait_call t = λ k c.
      let (x, xs, r) = c.ready in sys_CvarWait-places a (suc fuel) p x xs k c.memory c.active r
  dispatch-Conserves reclaim t = absurd (cc)
  dispatch-Conserves custom_0 t = λ k c. sys_Custom_0-places a k c.memory
  dispatch-Conserves custom_1 t = λ k c. sys_Custom_1-places a k c.memory
  dispatch-Conserves custom_2 t =
      λ k c. let (x, xs, r) = c.ready in sys_Custom_2-places a p x xs k c.memory c.active r
  dispatch-Conserves unknown t = Conserves-of_Silent a p _ (Silent-pure junk)

  -- Where `malloc` does not fail, `p` runs and another process is ready, a kernel call that is not
  -- Fork, Exit or Reclaim leaves every process in as many places as it was, whether it returns or
  -- gives the processor away.
  pub trap_kernel_hdl-places :
      (k : Kernel)
      → moves_only (call_of k.uctxt.code) ≡ true
      → CanBlock p k
      → Keeps (Same a k) (trap_kernel_hdl (suc fuel) files junk k)
  unfolding trap_kernel_hdl Conserves
  trap_kernel_hdl-places k t c =
      Conserves-then a p (dispatch (suc fuel) files junk (call_of k.uctxt.code)) set_result
        (dispatch-Conserves (call_of k.uctxt.code) t) set_result-Silent k c
