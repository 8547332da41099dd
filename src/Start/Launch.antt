-- ===== src/Start/Launch.antt =====
-- KernelStart of kernel.c with init_init and init_idle; save_initial_kernel of scheduler.c.
use sc0x3a.Base.{
  ℕ, ◌+◌, ◌/◌, Bool, true, false, not, ◌&&◌, none, some, List, [], ◌∷◌, if◌then◌else◌, ◌==◌, pos,
  negsuc, ltb_ℤ,
}
use sc0x3a.Kernel.{State}
use sc0x3a.Kernel.Monad.{M, crash, pure, ◌>>=◌, ◌>>◌, get, put, current, malloc, put_ready}
use sc0x3a.Kernel.Frames.{grab_a_frame}
use sc0x3a.Kernel.Memory.{page_size, read_write, user_pagetable_size}
use sc0x3a.Scheduler.{update_pcb}
use sc0x3a.Process.{no_pte, replicate}
use sc0x3a.Terminal.{num_terminals}
use sc0x3a.Program.{FileSystem, load_program}
use sc0x3a.Start.{set_boot, init_queues, init_int_vector, gather_free_frames, enable_vmem}

-- The pcb that init_init and init_idle make for a new process, but for what differs between them.
unfoldable pub new_pcb : State → M ℕ
unfolding malloc update_pcb
new_pcb state = do
  k ← get
  let pid = k.next_pid
  put (record k { next_pid = pid + 1 })
  update_pcb pid (λ c. record c { uctxt = k.uctxt; state = state; ppid = negsuc 0; children = [] })
  malloc
  pure pid

-- The loop that gives init its kernel stack: whether there were frames for it.
unfoldable pub own_stack : ℕ → M Bool
unfolding grab_a_frame update_pcb
own_stack p = do
  update_pcb p (λ c. record c {
    k_stack_0 = let e = c.k_stack_0 in record e { valid = true; prot = read_write };
  })
  f ← grab_a_frame
  if f == 0 then pure false else do
    update_pcb p (λ c. record c { k_stack_0 = let e = c.k_stack_0 in record e { pfn = f } })
    update_pcb p (λ c. record c {
      k_stack_1 = let e = c.k_stack_1 in record e { valid = true; prot = read_write };
    })
    g ← grab_a_frame
    if g == 0 then pure false else do
      update_pcb p (λ c. record c { k_stack_1 = let e = c.k_stack_1 in record e { pfn = g } })
      pure true

abbrev pub clear_table : ℕ → M (Unit {0})
clear_table p = update_pcb p (λ c. record c { u_page_table = replicate user_pagetable_size no_pte })

-- What load_program returns is only traced.
unfoldable pub init_init : FileSystem → List ℕ → List (List ℕ) → M (Unit {0})
unfolding malloc new_pcb own_stack load_program
init_init files name args = do
  b ← malloc
  if not b then set_boot (λ b. record b { p_init = none }) else do
    p ← new_pcb State.running
    set_boot λ b. record b { p_init = some p }
    ok ← own_stack p
    if not ok then pure tt else do clear_table p; load_program files name (pure args) p; pure tt

-- "idle"
abbrev pub idle_name : List ℕ
idle_name = 105 ∷ 100 ∷ 108 ∷ 101 ∷ []

unfoldable pub init_idle : FileSystem → List (List ℕ) → M (Unit {0})
unfolding malloc new_pcb load_program
init_idle files args = do
  b ← malloc
  if not b then set_boot (λ b. record b { p_idle = none }) else do
    p ← new_pcb State.ready
    set_boot λ b. record b { p_idle = some p }
    update_pcb p (λ c. record c {
      k_stack_0 = let e = c.k_stack_0 in record e { pfn = 0 };
      k_stack_1 = let e = c.k_stack_1 in record e { pfn = 0 };
    })
    clear_table p
    load_program files idle_name (pure args) p
    pure tt

-- Two frames for the copy of the kernel stack. A NULL that it returns is a fault of the switch.
unfoldable pub save_initial_kernel : M (Unit {0})
unfolding grab_a_frame
save_initial_kernel = do
  f ← grab_a_frame
  if f == 0 then crash else do
    set_boot λ b. record b { initial_ks_0 = record { valid = true; prot = read_write; pfn = f } }
    g ← grab_a_frame
    if g == 0
        then crash
        else set_boot
            λ b. record b { initial_ks_1 = record { valid = true; prot = read_write; pfn = g } }

-- KernelStart up to the initialization of the two processes.
unfoldable pub init_kernel : ℕ → M (Unit {0})
unfolding init_queues init_int_vector gather_free_frames enable_vmem
init_kernel pmem_size = do
  k ← get
  put (record k {
    next_pid = 0;
    next_sem = 0;
    busy_terminal = λ t.
        if not (ltb_ℤ t (pos 0)) && ltb_ℤ t (pos num_terminals) then false else k.busy_terminal t;
    boot = record k.boot { total_frames = pmem_size / page_size; vmem_enabled = false };
  })
  init_queues
  init_int_vector
  gather_free_frames
  enable_vmem

-- KernelStart with `name` and `args` for cmd_args. A NULL process in the ready queue, or active, is a
-- fault.
unfoldable pub kernel_start : FileSystem → List ℕ → List (List ℕ) → ℕ → M (Unit {0})
unfolding init_kernel init_init init_idle put_ready save_initial_kernel
kernel_start files name args pmem_size = do
  init_kernel pmem_size
  init_init files name args
  init_idle files args
  k ← get
  elim k.boot.p_idle [
    | none ↦ crash
    | some idle ↦ do
      put_ready idle
      k ← get
      put (record k { active_proc = k.boot.p_init })
      save_initial_kernel
      p ← current
      k ← get
      put (record k { uctxt = (k.pcbs p).uctxt })
  ]
