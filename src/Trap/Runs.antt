-- ===== src/Trap/Runs.antt =====
-- Where the processes are in runs of the machine without Fork, Exit and Reclaim.
use sc0x3a.Base.{
  ℕ, zero, suc, get_elem?, ◌≡◌, refl, ◌∙◌, ◌&&◌, Bool, true, false, some, ℤ, pos, pos_part, to_int,
  shift_page, leb_ℤ, ltb_ℤ, ◌-ℤ◌,
}
use sc0x3a.Kernel.{
  Kernel, Handler, on_kernel, on_clock, on_illegal, on_memory, on_math, on_receive, on_transmit,
  on_disk, on_undefined,
}
use sc0x3a.Kernel.Monad.{Keeps, current_lem, ◌>>=◌}
use sc0x3a.Scheduler.{update_pcb}
use sc0x3a.Quiet.{Silent, Silent-pure, silent_rules}
use sc0x3a.Quiet.Memory.{set_pte-Silent}
use sc0x3a.Places.{places}
use sc0x3a.Places.Counting.{Same}
use sc0x3a.Places.Conserve.{CanBlock, Conserves, Conserves-of_Silent}
use sc0x3a.Places.Terminals.{trap_tty_receive_hdl-places, trap_tty_transmit_hdl-places}
use sc0x3a.Trap.{Outside, handle, trap, stack_loop, trap_memory_hdl, trap_abort, call_of}
use sc0x3a.Trap.Machine.{
  Leads-Keeps, trap_eq, Step, computes, traps, resumes, RunsTo, stays, goes_on,
}
use sc0x3a.Trap.Calls.{moves_only, trap_kernel_hdl-places}
use sc0x3a.Trap.Clock.{trap_clock_hdl-places}
use sc0x3a.Trap.Resumed.{resume-places}

-- Whether the address of a memory trap lies between the heap and the stack of the process.
abbrev pub grows : ℕ → Kernel → Bool
grows p k =
    let pn_end = shift_page (to_int k.uctxt.addr) -ℤ pos 128 -ℤ pos 1 in
    let c = k.pcbs p in leb_ℤ pn_end c.next_stack_pn && ltb_ℤ c.next_heap_pn pn_end

-- The traps in which no process is made or ends, and nothing is destroyed that processes wait for.
abbrev pub harmless : ℕ → Kernel → Handler → Bool
harmless p k on_kernel = moves_only (call_of k.uctxt.code)
harmless p k on_clock = true
harmless p k on_illegal = false
harmless p k on_memory = grows p k
harmless p k on_math = false
harmless p k on_receive = true
harmless p k on_transmit = true
harmless p k on_disk = true
harmless p k on_undefined = false

pub stack_loop-Silent : (p n : ℕ) (i : ℤ) → Silent (stack_loop p n i)
unfolding stack_loop
stack_loop-Silent p zero i = Silent-pure tt
stack_loop-Silent p (suc n) i =
    search (silent_rules, set_pte-Silent, stack_loop-Silent p n (i -ℤ pos 1)) depth 12

grown-Silent :
    (p n : ℕ) (i e : ℤ)
    → Silent (stack_loop p n i >>= λ _. update_pcb p (λ c. record c { next_stack_pn = e }))
grown-Silent p n i e = search (silent_rules, stack_loop-Silent) depth 12

pub trap_memory_hdl-places :
    (a p : ℕ) (k : Kernel) → grows p k ≡ true → CanBlock p k → Keeps (Same a k) (trap_memory_hdl k)
unfolding trap_memory_hdl Conserves
trap_memory_hdl-places a p k g c =
    let pn_end = shift_page (to_int k.uctxt.addr) -ℤ pos 128 -ℤ pos 1 in
    let top = (k.pcbs p).next_stack_pn in
    rw (current_lem k p c.active) (
      rw (g) (Conserves-of_Silent a p _ (grown-Silent p (pos_part (top -ℤ pn_end)) top pn_end) k c))

-- Elsewhere the process ends.
pub trap_memory_hdl-abort :
    (p : ℕ) (k : Kernel)
    → grows p k ≡ false
    → k.active_proc ≡ some p
    → trap_memory_hdl k ≡ trap_abort k
unfolding trap_memory_hdl
trap_memory_hdl-abort p k g act = rw (current_lem k p act) (rw (g))

module _ (a p fuel : ℕ) (out : Outside) (k : Kernel) where
  pub handle-places :
      (h : Handler)
      → harmless p k h ≡ true
      → CanBlock p k
      → Keeps (Same a k) (handle (suc fuel) out h k)
  unfolding handle
  handle-places on_kernel t c = trap_kernel_hdl-places a p fuel out.files out.junk k t c
  handle-places on_clock t c = trap_clock_hdl-places a k c.memory
  handle-places on_illegal t c = absurd (cc)
  handle-places on_memory t c = trap_memory_hdl-places a p k t c
  handle-places on_math t c = absurd (cc)
  handle-places on_receive t c =
      trap_tty_receive_hdl-places a (suc fuel) out.line out.count k c.memory
  handle-places on_transmit t c = trap_tty_transmit_hdl-places a k c.memory
  handle-places on_disk t c = refl
  handle-places on_undefined t c = absurd (cc)

  trap-places :
      (vector : ℕ) (h : Handler)
      → get_elem? k.boot.int_vector vector ≡ some h
      → harmless p k h ≡ true
      → CanBlock p k
      → Keeps (Same a k) (trap (suc fuel) out vector k)
  trap-places vector h e t c = rw (trap_eq (suc fuel) out k vector h e) (handle-places h t c)

Step-Same : (a : ℕ) {k k' : Kernel} → Step harmless k k' → Same a k k'
Step-Same a (computes m u) = refl
Step-Same a (traps p fuel out vector h e t c l) =
    Leads-Keeps _ _ _ l (trap-places a p fuel out _ vector h e t c)
Step-Same a (resumes p fuel c l) = Leads-Keeps _ _ _ l (resume-places a p fuel _ c)

-- In every run of traps of which none makes a process, ends one or destroys what processes wait for,
-- of processes that go on where they gave the processor away, and of computations of a process, such
-- that `malloc` does not fail, a process runs and another is ready at each trap and each resumption,
-- every process stands in as many places at the end as at the beginning.
pub RunsTo-places : (a : ℕ) {k k' : Kernel} → RunsTo harmless k k' → places a k' ≡ places a k
RunsTo-places a stays = refl
RunsTo-places a (goes_on r s) = Step-Same a s ∙ RunsTo-places a r
