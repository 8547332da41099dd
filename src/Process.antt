-- ===== src/Process.antt =====
-- Processes: sys_Brk, sys_Fork, sys_Wait, sys_Getpid and sys_Delay of syscall.c, and
-- get_pcb of kernel.c.
pub mod Brk
pub mod Freed
mod Wait
mod Tests
pub mod Exit
use sc0x3a.Base.{
  ℕ, zero, suc, ◌+◌, ◌-◌, ◌%◌, Bool, true, false, not, ◌||◌, Option, none, some, List, [], ◌∷◌,
  if◌then◌else◌, ltb, leb, length, find, set, remove_at, remove_first, ◌==◌, ℤ, pos, negsuc,
  pos_part, eqb_ℤ, ltb_ℤ, leb_ℤ, ◌+ℤ◌, ◌-ℤ◌, to_int, shift_page, error,
}
use mathlib.Core.Option
use sc0x3a.Kernel.{UserContext, Pte, Point, State, DeadInfo}
use sc0x3a.Kernel.Monad.{
  M, crash, pure, ◌>>=◌, ◌>>◌, get, put, current, malloc, insert_last, put_ready,
}
use sc0x3a.Kernel.Frames.{grab_a_frame, free_frame}
use sc0x3a.Kernel.Memory.{write_int, bad_address, user_pagetable_size, read_write}
use sc0x3a.Scheduler.{
  init_proc_kernel, normal_schedule, insert_sleep_list, insert_dead_list, update_pcb,
}

-- MAX_PROC
abbrev pub max_proc : ℕ
max_proc = 1000

-- get_pcb, `none` for NULL
abbrev pub get_pcb : ℕ → Option ℕ
get_pcb pid = if ltb (max_proc - 1) pid then none else some pid

-- `u_page_table[i] = e`, a fault outside the table
unfoldable pub set_pte : ℕ → ℤ → Pte → M (Unit {0})
unfolding update_pcb
set_pte p i e =
    if ltb_ℤ i (pos 0) || leb_ℤ (pos user_pagetable_size) i
    then crash
    else update_pcb p (λ c. record c { u_page_table = set c.u_page_table (pos_part i) e })

-- The loop of sys_Brk over `n` pages from page `i` on.
unfoldable pub brk_loop : ℕ → ℕ → ℤ → M ℤ
unfolding grab_a_frame set_pte
brk_loop p zero i = pure (pos 0)
brk_loop p (suc n) i = do
  pfn ← grab_a_frame
  let rest = brk_loop p n (i +ℤ pos 1)
  if pfn == 0
      then pure error
      else do set_pte p i (record { valid = true; prot = read_write; pfn = pfn }); rest

-- `(UP_TO_PAGE(addr) - VMEM_1_BASE) >> PAGESHIFT`, in the 32 bits of a `long`, whose overflow wraps.
abbrev pub brk_page : ℕ → ℤ
brk_page addr = shift_page (to_int ((addr + 0x1fff + 0xfff0_0000) % 0x1_0000_0000))

unfoldable pub sys_Brk : M ℤ
unfolding brk_loop update_pcb
sys_Brk = do
  k ← get
  p ← current
  let pn_end = brk_page k.uctxt.reg0
  let pn_start = (k.pcbs p).next_heap_pn
  rc ← brk_loop p (pos_part (pn_end -ℤ pn_start)) pn_start
  if not (eqb_ℤ rc (pos 0))
      then pure error
      else do update_pcb p (λ c. record c { next_heap_pn = pn_end }); pure (pos 0)

-- `memcpy` of a frame
abbrev pub copy_frame : (ℕ → ℕ → ℕ) → ℕ → ℕ → ℕ → ℕ → ℕ
copy_frame m dst src g i = if g == dst then m src i else m g i

-- The loop of sys_Fork over the parent's page table, from page `i` on.
unfoldable pub fork_pages : List Pte → ℤ → ℕ → M ℤ
unfolding grab_a_frame set_pte
fork_pages [] i child = pure (pos 0)
fork_pages (e ∷ es) i child =
    let rest = fork_pages es (i +ℤ pos 1) child in
    if not e.valid then rest else do
      set_pte child i (record { valid = true; prot = e.prot; pfn = 0 })
      pfn ← grab_a_frame
      if pfn == 0 then pure error else do
        set_pte child i (record { valid = true; prot = e.prot; pfn = pfn })
        k ← get
        put (record k { phys = copy_frame k.phys pfn e.pfn })
        rest

abbrev pub no_pte : Pte
no_pte = record { valid = false; prot = 0; pfn = 0 }

abbrev pub replicate {ℓ} : {A : Type ℓ} → ℕ → A → List A
replicate zero a = []
replicate (suc n) a = a ∷ replicate n a

-- The part of sys_Fork behind the choice of the child's pid. The child's pcb holds what stood in the
-- memory that `malloc` returned, but for the fields that are set.
unfoldable pub fork_child : ℕ → ℕ → UserContext → M ℤ
unfolding malloc insert_last init_proc_kernel fork_pages put_ready update_pcb
fork_child p child uctxt = do
  update_pcb child (λ c. record c { state = State.ready; ppid = pos p })
  b ← malloc
  update_pcb p (λ c. record c { children = (insert_last c.children child b).0 })
  update_pcb child (λ c. record c { children = [] })
  h ← malloc
  if not h then pure error else do
    update_pcb child (λ c. record c { uctxt = record uctxt { reg0 = 0 } })
    init_proc_kernel child
    update_pcb child (λ c. record c { u_page_table = replicate user_pagetable_size no_pte })
    k ← get
    rc ← fork_pages (k.pcbs p).u_page_table (pos 0) child
    if not (eqb_ℤ rc (pos 0)) then pure error else do
      update_pcb child (λ c. record c {
        next_heap_pn = (k.pcbs p).next_heap_pn;
        next_stack_pn = (k.pcbs p).next_stack_pn;
      })
      put_ready child
      pure (pos child)

-- A pid of MAX_PROC or more is stored behind the end of `pcb_table`.
unfoldable pub sys_Fork : M ℤ
unfolding malloc fork_child
sys_Fork = do
  b ← malloc
  if not b then pure error else do
    k ← get
    p ← current
    let child = k.next_pid
    put (record k { next_pid = child + 1 })
    if leb max_proc child then crash else fork_child p child k.uctxt

abbrev pub child_of : ℕ → DeadInfo → Bool
child_of p d = eqb_ℤ (pos p) d.ppid

-- The position of the first element that passes, counted from 0.
abbrev pub position {ℓ} : {A : Type ℓ} → (A → Bool) → List A → ℕ
position test [] = 0
position test (x ∷ xs) = if test x then 0 else suc (position test xs)

-- The loop of sys_Wait over `dead_list`, entered with its counter at `i`: it reads the entries from
-- the first on, and removes the one at the counter.
unfoldable pub reap : ℕ → M (Option ℤ)
unfolding write_int
reap i = do
  k ← get
  p ← current
  elim (find (child_of p) k.dead_list) [
    | none ↦ pure none
    | some d ↦ do
      write_int k.uctxt.reg0 d.status
      k ← get
      put (record k {
        dead_list = remove_at (i + position (child_of p) k.dead_list - 1) k.dead_list;
      })
      pure (some (pos d.pid))
  ]

-- What sys_Wait does when its process runs again. The counter is not reset.
unfoldable pub wait_back : ℕ → M ℤ
unfolding reap
wait_back i = do r ← reap i; pure (Option.get_or r error)

unfoldable pub sys_Wait : M ℤ
unfolding bad_address reap malloc insert_last wait_back
sys_Wait = do
  k ← get
  p ← current
  if bad_address (k.pcbs p) k.uctxt.reg0 || (length (k.pcbs p).children == 0)
      then pure error
      else do
        r ← reap 1
        elim r [
          | some pid ↦ pure pid
          | none ↦ do
            b ← malloc
            k ← get
            put (record k { wait_list = (insert_last k.wait_list p b).0 })
            let i = length k.dead_list + 1
            rc ← normal_schedule (Point.waited i)
            if not (eqb_ℤ rc (pos 0)) then pure error else wait_back i
        ]

unfoldable pub sys_Getpid : M ℤ
sys_Getpid = do p ← current; pure (pos p)

unfoldable pub sys_Delay : M ℤ
unfolding insert_sleep_list
sys_Delay = do
  k ← get
  let clock_ticks = to_int k.uctxt.reg0
  if ltb_ℤ clock_ticks (pos 0)
      then pure error
      else if eqb_ℤ clock_ticks (pos 0)
      then pure (pos 0)
      else do
        p ← current
        rc ← insert_sleep_list p clock_ticks
        if not (eqb_ℤ rc (pos 0)) then pure error else do
          rc ← normal_schedule Point.delayed
          if not (eqb_ℤ rc (pos 0)) then pure error else pure (pos 0)
