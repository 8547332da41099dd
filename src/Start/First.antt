-- ===== src/Start/First.antt =====
-- The state that KernelStart leaves to its first process, and every run from there on.
use mathlib.Core.Path.{subst}
use sc0x3a.Base.{
  ℕ, ◌+◌, ◌≡◌, refl, ◌∙◌, Option, none, some, List, [], ◌∷◌, ◌++◌, negsuc, ap, arith, not,
  if◌then◌else◌,
}
use sc0x3a.Kernel.{Kernel, Boot, State}
use sc0x3a.Kernel.Monad.{
  M, Outcome, crash, put_ready, done, switched, fault, out_of_fuel, and_then, Keeps, pure, get, put,
  current, current_lem, ◌>>=◌, ◌>>◌, malloc_lem, put_ready_lem, set_pcb,
}
use sc0x3a.Program.{FileSystem, load_program}
use sc0x3a.Scheduler.{update_pcb}
use sc0x3a.Kernel.Frames.{grab_a_frame}
use sc0x3a.Quiet.{Quiet, Silent, Silent-pure, silent_rules}
use sc0x3a.Quiet.Program.{load_program-Silent}
use sc0x3a.Start.Launch.{
  new_pcb, own_stack, clear_table, init_init, init_idle, idle_name, save_initial_kernel,
  kernel_start,
}
use sc0x3a.Start.Vmem.{vectors, booted, init_kernel_lem}

-- The kernel with the pcb of a process made, and noted as init's or as idle's.
abbrev with_pcb : State → Kernel → Kernel
with_pcb state k = record k {
  next_pid = k.next_pid + 1;
  pcbs = set_pcb k.pcbs k.next_pid (
      let c = k.pcbs k.next_pid in
      record c { uctxt = k.uctxt; state = state; ppid = negsuc 0; children = [] });
}

new_pcb_lem :
    (state : State) (k : Kernel)
    → k.mallocs ≡ []
    → new_pcb state k ≡ done k.next_pid (with_pcb state k)
unfolding new_pcb
new_pcb_lem state k m = rw (malloc_lem (with_pcb state k) m)

with_init : Kernel → Kernel
with_init k =
    let k₁ = with_pcb State.running k in
    record k₁ { boot = record k₁.boot { p_init = some k.next_pid } }

with_idle : Kernel → Kernel
with_idle k =
    let k₁ = with_pcb State.ready k in
    record k₁ { boot = record k₁.boot { p_idle = some k.next_pid } }

own_stack-Silent : (p : ℕ) → Silent (own_stack p)
unfolding own_stack
own_stack-Silent p = search silent_rules depth 20

load-Silent :
    (files : FileSystem) (name : List ℕ) (args : List (List ℕ)) (p : ℕ)
    → Silent (load_program files name (pure args) p)
load-Silent files name args p = load_program-Silent files name (pure args) p (Silent-pure args)

init_tail-Silent :
    (files : FileSystem) (name : List ℕ) (args : List (List ℕ)) (p : ℕ)
    → Silent (
        own_stack p >>= λ ok.
        if not ok
        then pure tt
        else (clear_table p >>= λ _. load_program files name (pure args) p >>= λ _. pure tt))
init_tail-Silent files name args p = search (silent_rules, own_stack-Silent, load-Silent) depth 20

idle_tail-Silent :
    (files : FileSystem) (args : List (List ℕ)) (p : ℕ)
    → Silent (
        update_pcb p (λ c. record c {
          k_stack_0 = let e = c.k_stack_0 in record e { pfn = 0 };
          k_stack_1 = let e = c.k_stack_1 in record e { pfn = 0 };
        })
        >>= λ _. clear_table p >>= λ _. load_program files idle_name (pure args) p >>= λ _. pure tt)
idle_tail-Silent files args p = search (silent_rules, load-Silent) depth 20

module _ (files : FileSystem) (args : List (List ℕ)) (k : Kernel) (m : k.mallocs ≡ []) where
  init_init_lem : (name : List ℕ) → Keeps (Quiet (with_init k)) (init_init files name args k)
  unfolding init_init with_init Silent
  init_init_lem name =
      rw (malloc_lem k m, new_pcb_lem State.running k m)
        (init_tail-Silent files name args k.next_pid (with_init k))

  init_idle_lem : Keeps (Quiet (with_idle k)) (init_idle files args k)
  unfolding init_idle with_idle Silent
  init_idle_lem =
      rw (malloc_lem k m, new_pcb_lem State.ready k m)
        (idle_tail-Silent files args k.next_pid (with_idle k))

-- What the first process finds: it has pid 0, idle has pid 1 and is ready, and the other lists that hold
-- processes, or what they wait for or can reclaim, are empty.
pub record Begun (k : Kernel) : Type 0 where
  pub pids : k.next_pid ≡ 2
  pub active : k.active_proc ≡ some 0
  pub ready : k.ready_queue ≡ 1 ∷ []
  pub sleeping : k.sleep_list ≡ []
  pub waiting : k.wait_list ≡ []
  pub io : k.io_list ≡ []
  pub pipes : k.pipe_list ≡ []
  pub locks : k.lock_list ≡ []
  pub cvars : k.cvar_list ≡ []
  pub sems : k.sem_list ≡ []
  pub dead : k.dead_list ≡ []
  pub reclaim : k.reclaim_list ≡ []
  pub memory : k.mallocs ≡ []
  pub vector : k.boot.int_vector ≡ vectors

save_initial_kernel-Begun : (k : Kernel) → Begun k → Keeps Begun (save_initial_kernel k)
unfolding save_initial_kernel grab_a_frame
save_initial_kernel-Begun k b = ground arith

-- If the command returns, the state satisfies `P`.
abbrev Returning : {A : Type 0} → (Kernel → Type 0) → Outcome A → Type 0
Returning P (done a k) = P k
Returning P (switched k) = Unit {0}
Returning P fault = Unit {0}
Returning P out_of_fuel = Unit {0}

Returning-bind :
    {A B : Type 0} (P Q : Kernel → Type 0) (r : Outcome A) (f : A → M B)
    → Keeps P r
    → ((a : A) (k : Kernel) → P k → Returning Q (f a k))
    → Returning Q (and_then r f)
Returning-bind P Q (done a k) f p next = next a k p
Returning-bind P Q (switched k) f p next = tt
Returning-bind P Q fault f p next = tt
Returning-bind P Q out_of_fuel f p next = tt

-- The end of KernelStart, from the ready queue's first entry on.
abbrev finish : M (Unit {0})
finish = do
  k ← get
  put (record k { active_proc = k.boot.p_init })
  save_initial_kernel
  p ← current
  k ← get
  put (record k { uctxt = (k.pcbs p).uctxt })

finish-Begun :
    (k : Kernel) → Begun (record k { active_proc = k.boot.p_init }) → Returning Begun (finish k)
finish-Begun k b =
    let k₁ = record k { active_proc = k.boot.p_init } in
    Returning-bind Begun Begun (save_initial_kernel k₁) _ (save_initial_kernel-Begun k₁ b)
      λ _ k₂ c. rw (current_lem k₂ 0 c.active) (ground arith)

abbrev queue_idle : Option ℕ → M (Unit {0})
queue_idle o = elim o [ none ↦ crash | some idle ↦ do put_ready idle; finish ]

queue_idle-Begun :
    (o : Option ℕ) (k : Kernel)
    → o ≡ some 1
    → k.mallocs ≡ []
    → Begun (record k { active_proc = k.boot.p_init; ready_queue = k.ready_queue ++ 1 ∷ [] })
    → Returning Begun (queue_idle o k)
queue_idle-Begun none k e m b = absurd (cc)
queue_idle-Begun (some i) k e m b =
    let same : i ≡ 1 = cc in
    rw (same, put_ready_lem 1 k m)
      (finish-Begun (record k { ready_queue = k.ready_queue ++ 1 ∷ [] }) b)

-- The lists of the kernel before its first process.
record Empty (k : Kernel) : Type 0 where
  pids : k.next_pid ≡ 0
  ready : k.ready_queue ≡ []
  sleeping : k.sleep_list ≡ []
  waiting : k.wait_list ≡ []
  io : k.io_list ≡ []
  pipes : k.pipe_list ≡ []
  locks : k.lock_list ≡ []
  cvars : k.cvar_list ≡ []
  sems : k.sem_list ≡ []
  dead : k.dead_list ≡ []
  reclaim : k.reclaim_list ≡ []
  memory : k.mallocs ≡ []
  vector : k.boot.int_vector ≡ vectors

both-Begun :
    (b k₁ k₂ : Kernel)
    → Empty b
    → Quiet (with_init b) k₁
    → Quiet (with_idle k₁) k₂
    → Begun (record k₂ { active_proc = k₂.boot.p_init; ready_queue = k₂.ready_queue ++ 1 ∷ [] })
      × (k₂.boot.p_idle ≡ some 1)
      × (k₂.mallocs ≡ [])
unfolding with_init with_idle
both-Begun b k₁ k₂ e q r =
    let boot = r.boot ∙ ap (λ (c : Boot). record c { p_idle = some k₁.next_pid }) q.boot in
    let first : k₁.next_pid ≡ 1 = omega (arith, q.pids, e.pids) in
    (
      record {
        pids = omega (arith, r.pids, first);
        active = ap (λ (c : Boot). c.p_init) boot ∙ ap some e.pids;
        ready = ap (λ (l : List ℕ). l ++ 1 ∷ []) (r.ready ∙ q.ready ∙ e.ready);
        sleeping = r.sleeping ∙ q.sleeping ∙ e.sleeping;
        waiting = r.waiting ∙ q.waiting ∙ e.waiting;
        io = r.io ∙ q.io ∙ e.io;
        pipes = r.pipes ∙ q.pipes ∙ e.pipes;
        locks = r.locks ∙ q.locks ∙ e.locks;
        cvars = r.cvars ∙ q.cvars ∙ e.cvars;
        sems = r.sems ∙ q.sems ∙ e.sems;
        dead = r.dead (q.dead e.dead);
        reclaim = r.reclaim ∙ q.reclaim ∙ e.reclaim;
        memory = r.memory (q.memory e.memory);
        vector = ap (λ (c : Boot). c.int_vector) boot ∙ e.vector;
      },
      ap (λ (c : Boot). c.p_idle) boot ∙ ap some first,
      r.memory (q.memory e.memory),
    )

processes-Begun :
    (files : FileSystem) (name : List ℕ) (args : List (List ℕ)) (b : Kernel)
    → Empty b
    → Returning Begun (
        (init_init files name args >>= λ _.
        init_idle files args >>= λ _. get >>= λ k. queue_idle k.boot.p_idle)
          b)
unfolding with_init with_idle
processes-Begun files name args b e =
    Returning-bind (Quiet (with_init b)) Begun (init_init files name args b) _
      (init_init_lem files args b e.memory name)
      λ _ k₁ q.
        Returning-bind (Quiet (with_idle k₁)) Begun (init_idle files args k₁) _
          (init_idle_lem files args k₁ (q.memory e.memory))
          λ _ k₂ r.
            let (begun, idle, m) = both-Begun b k₁ k₂ e q r in
            queue_idle-Begun k₂.boot.p_idle k₂ idle m begun

booted-Empty : (pmem_size : ℕ) (k : Kernel) → k.mallocs ≡ [] → Empty (booted pmem_size k)
booted-Empty pmem_size k m = record {
  pids = refl;
  ready = refl;
  sleeping = refl;
  waiting = refl;
  io = refl;
  pipes = refl;
  locks = refl;
  cvars = refl;
  sems = refl;
  dead = refl;
  reclaim = refl;
  memory = m;
  vector = refl;
}

kernel_start-Returning :
    (files : FileSystem) (name : List ℕ) (args : List (List ℕ)) (pmem_size : ℕ) (k : Kernel)
    → k.mallocs ≡ []
    → Returning Begun (kernel_start files name args pmem_size k)
unfolding kernel_start
kernel_start-Returning files name args pmem_size k m =
    rw (init_kernel_lem pmem_size k m)
      (processes-Begun files name args (booted pmem_size k) (booted-Empty pmem_size k m))

-- Where `malloc` does not fail and KernelStart returns, it leaves init with pid 0 running and idle with
-- pid 1 ready, the next pid 2, no sleeping, waiting or dead process and none that waits for a terminal, no
-- pipe, lock, condition variable, semaphore and no id to reclaim, and the vector of traps filled.
pub kernel_start-Begun :
    (files : FileSystem) (name : List ℕ) (args : List (List ℕ)) (pmem_size : ℕ) (k : Kernel)
    {k' : Kernel}
    → k.mallocs ≡ []
    → kernel_start files name args pmem_size k ≡ done tt k'
    → Begun k'
kernel_start-Begun files name args pmem_size k m e =
    subst (Returning Begun) e (kernel_start-Returning files name args pmem_size k m)
