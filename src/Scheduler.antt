-- ===== src/Scheduler.antt =====
-- scheduler.c, and normal_schedule of syscall.c: the ready queue, the processes that sleep, and the
-- switch from a process to another.
mod Tests
pub mod Switch
pub mod Unblock
pub mod Sleep
pub mod Choice
pub mod Stacked
pub mod Nearer
use sc0x3a.Base.{
  ℕ, suc, ◌+◌, ◌≡◌, refl, Bool, true, false, not, Option, none, some, List, [], ◌∷◌, ◌++◌, ◌==◌,
  if◌then◌else◌, leb, length, ℤ, pos, ◌-ℤ◌, leb_ℤ, eqb_ℤ, error,
}
use sc0x3a.Kernel.{Kernel, Pcb, Point, State, SleepInfo, DeadInfo}
use sc0x3a.Kernel.Monad.{
  M, Outcome, done, switched, fault, and_then, pure, ◌>>=◌, ◌>>◌, get, put, crash, current, set_pcb,
  malloc, insert_last, put_ready, take_ready,
}
use sc0x3a.Kernel.Frames.{grab_a_frame}
use sc0x3a.Kernel.Memory.{read_write}

-- One turn of the loop of init_proc_kernel for each of the two pages of the kernel stack. Where no
-- frame is left the function returns no value, and the switch that runs it has nowhere to go.
init_stack_0 : ℕ → M (Unit {0})
unfolding grab_a_frame
init_stack_0 p = do
  pfn ← grab_a_frame
  k ← get
  let c = k.pcbs p
  if pfn == 0
      then crash
      else put (record k {
        pcbs =
            set_pcb k.pcbs p
              (record c { k_stack_0 = record { valid = true; prot = read_write; pfn = pfn } });
      })

init_stack_1 : ℕ → M (Unit {0})
unfolding grab_a_frame
init_stack_1 p = do
  pfn ← grab_a_frame
  k ← get
  let c = k.pcbs p
  if pfn == 0
      then crash
      else put (record k {
        pcbs =
            set_pcb k.pcbs p
              (record c { k_stack_1 = record { valid = true; prot = read_write; pfn = pfn } });
      })

unfoldable pub init_proc_kernel : ℕ → M (Unit {0})
unfolding init_stack_0 init_stack_1
init_proc_kernel p = do
  k ← get
  let c = k.pcbs p
  put (record k { pcbs = set_pcb k.pcbs p (record c { kctxt = Point.start }) })
  init_stack_0 p
  init_stack_1 p

-- switch_kernel_context: `old` keeps the point where it goes on.
save_point : Option ℕ → Point → Kernel → Kernel
save_point none pt k = k
save_point (some o) pt k =
    let c = k.pcbs o in record k { pcbs = set_pcb k.pcbs o (record c { kctxt = pt }) }

save_context : Option ℕ → Kernel → Kernel
save_context none k = k
save_context (some o) k =
    let c = k.pcbs o in record k { pcbs = set_pcb k.pcbs o (record c { uctxt = k.uctxt }) }

-- A process that has no kernel stack yet is given one.
start_stack : ℕ → M (Unit {0})
unfolding init_proc_kernel
start_stack p = do k ← get; if (k.pcbs p).k_stack_0.pfn == 0 then init_proc_kernel p else pure tt

-- context_switch up to the switch itself; what stands behind it is done by the process that is
-- switched to.
unfoldable pub context_switch : Option ℕ → ℕ → Point → M ℤ
unfolding start_stack save_context save_point
context_switch old new pt = do
  k ← get
  put (save_context old (record k { active_proc = some new }))
  start_stack new
  k ← get
  λ _. switched (save_point old pt k)

-- The next process from the front of the queue; idle, which has pid 1, is put back and passed over.
unfoldable pub next_ready : M (Option ℕ)
unfolding take_ready put_ready
next_ready = do
  r ← take_ready
  elim r [
    | none ↦ pure none
    | some next ↦ if next == 1 then (do put_ready next; take_ready) else pure (some next)
  ]

-- normal_schedule, which gives the processor away; `pt` is where the caller goes on.
unfoldable pub normal_schedule : Point → M ℤ
unfolding next_ready context_switch
normal_schedule pt = do
  k ← get
  if length k.ready_queue == 0 then pure (pos 0) else do
    r ← next_ready
    elim r [ none ↦ pure error | some next ↦ context_switch k.active_proc next pt ]

-- do_scheduler, at each tick of the clock
unfoldable pub do_scheduler : M ℤ
unfolding next_ready context_switch put_ready
do_scheduler = do
  k ← get
  if length k.ready_queue == 0 then pure (pos 0) else do
    old ← current
    put_ready old
    r ← next_ready
    elim r [ none ↦ pure error | some next ↦ context_switch (some old) next Point.preempted ]

-- `p->f = ...` for fields of a pcb
unfoldable pub update_pcb : ℕ → (Pcb → Pcb) → M (Unit {0})
update_pcb p f k = done tt (record k { pcbs = set_pcb k.pcbs p (f (k.pcbs p)) })

abbrev pub set_state : ℕ → State → M (Unit {0})
set_state p st = update_pcb p (λ c. record c { state = st })

unfoldable pub insert_sleep_list : ℕ → ℤ → M ℤ
unfolding malloc insert_last update_pcb
insert_sleep_list p clock_ticks = do
  s ← malloc
  if not s then pure error else do
    set_state p State.delay
    b ← malloc
    k ← get
    let (sleepers, rc) = insert_last k.sleep_list (record { ticks_left = clock_ticks; pcb = p }) b
    put (record k { sleep_list = sleepers })
    pure rc

unfoldable pub insert_dead_list : ℤ → ℕ → ℤ → M ℤ
unfolding malloc insert_last
insert_dead_list ppid pid status = do
  d ← malloc
  if not d then pure error else do
    b ← malloc
    k ← get
    let (dead, rc) = insert_last k.dead_list (record { ppid = ppid; pid = pid; status = status }) b
    put (record k { dead_list = dead })
    pure rc

-- The loop of update_sleep_list, with the list that it leaves. It goes on from a node that it has
-- freed (LinkedList.Delete says what that is); here the node's `next` is read as it was before.
unfoldable pub wake_sleepers : List SleepInfo → M (List SleepInfo)
unfolding update_pcb put_ready
wake_sleepers [] = pure []
wake_sleepers (s ∷ ss) = do
  let left = s.ticks_left -ℤ pos 1
  let over = leb_ℤ left (pos 0)
  if over then (do set_state s.pcb State.ready; put_ready s.pcb; pure tt) else pure tt
  rest ← wake_sleepers ss
  pure (if over then rest else record s { ticks_left = left } ∷ rest)

unfoldable pub update_sleep_list : M ℤ
unfolding wake_sleepers
update_sleep_list = do
  k ← get
  left ← wake_sleepers k.sleep_list
  k ← get
  put (record k { sleep_list = left })
  pure (pos 0)

-- `for (j = 1; j <= wait_list.len; j++)` of destroy_pipe_info, destroy_lock_info and
-- destroy_cvar_info: each turn takes the first waiter and makes it ready. The waiters that are left.
unfoldable pub unblock : ℕ → List ℕ → M (List ℕ)
unfolding put_ready
unblock j [] = pure []
unblock j (p ∷ ps) =
    let rest = unblock (j + 1) ps in
    if leb j (length (p ∷ ps)) then (do put_ready p; rest) else pure (p ∷ ps)
