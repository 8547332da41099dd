-- ===== src/Scheduler/Switch.antt =====
-- What the switch to another process leaves as it was.
use sc0x3a.Base.{ℕ, ◌≡◌, ◌≢◌, ◌⊎◌, Option, none, some, List, ◌∷◌, arith}
use sc0x3a.Kernel.{Kernel, Point}
use sc0x3a.Kernel.Monad.{fault, Switches, Ends, Switches-after}
use sc0x3a.Kernel.Frames.{grab_a_frame}
use sc0x3a.Scheduler.{context_switch, start_stack, save_context, save_point, init_proc_kernel}

-- `k'` is `k` but for the contents of pcbs, the free frames, and the process that runs.
pub record SameLists (k k' : Kernel) : Type 0 where
  pub ready : k'.ready_queue ≡ k.ready_queue
  pub sleeping : k'.sleep_list ≡ k.sleep_list
  pub waiting : k'.wait_list ≡ k.wait_list
  pub io : k'.io_list ≡ k.io_list
  pub dead : k'.dead_list ≡ k.dead_list
  pub pipes : k'.pipe_list ≡ k.pipe_list
  pub locks : k'.lock_list ≡ k.lock_list
  pub cvars : k'.cvar_list ≡ k.cvar_list
  pub sems : k'.sem_list ≡ k.sem_list
  pub memory : k'.mallocs ≡ k.mallocs
  pub pids : k'.next_pid ≡ k.next_pid
  pub boot : k'.boot ≡ k.boot
  pub busy : k'.busy_terminal ≡ k.busy_terminal
  pub sent : k'.sent ≡ k.sent

-- The process has a kernel stack, or there are two frames for one.
abbrev pub CanRun : Kernel → ℕ → Type 0
CanRun k p =
    ((k.pcbs p).k_stack_0.pfn ≢ 0)
    ⊎ ((f g : ℕ) × (fs : List ℕ) × (k.free_frames ≡ f ∷ g ∷ fs) × (f ≢ 0) × (g ≢ 0))

init_proc_kernel_lem :
    (p : ℕ) (k : Kernel)
    → Ends (λ k'. SameLists k k' × (k'.active_proc ≡ k.active_proc)) (init_proc_kernel p k)
unfolding init_proc_kernel grab_a_frame
init_proc_kernel_lem p k = ground arith

save_context_lem :
    (old : Option ℕ) (k : Kernel)
    → SameLists k (save_context old k)
      × ((save_context old k).active_proc ≡ k.active_proc)
      × ((save_context old k).free_frames ≡ k.free_frames)
unfolding save_context
save_context_lem none k = ground arith
save_context_lem (some o) k = ground arith

save_point_lem :
    (old : Option ℕ) (pt : Point) (k : Kernel)
    → SameLists k (save_point old pt k) × ((save_point old pt k).active_proc ≡ k.active_proc)
unfolding save_point
save_point_lem none pt k = ground arith
save_point_lem (some o) pt k = ground arith

start_stack_lem :
    (p : ℕ) (k : Kernel)
    → Ends (λ k'. SameLists k k' × (k'.active_proc ≡ k.active_proc)) (start_stack p k)
unfolding start_stack
start_stack_lem p k = ground (arith, init_proc_kernel_lem p k)

-- The switch changes no list and makes the process the active one.
pub context_switch_lem :
    (old : Option ℕ) (new : ℕ) (pt : Point) (k : Kernel)
    → Switches (λ k'. SameLists k k' × (k'.active_proc ≡ some new)) (context_switch old new pt k)
unfolding context_switch
context_switch_lem old new pt k =
    let k₁ = record k { active_proc = some new } in
    let saved = save_context_lem old k₁ in
    Switches-after _ _ (start_stack new (save_context old k₁)) _
      (start_stack_lem new (save_context old k₁))
      λ _ k₂ p. let q = save_point_lem old pt k₂ in ground arith

-- It does take place where the process can run.
pub context_switch-CanRun :
    (old : Option ℕ) (new : ℕ) (pt : Point) (k : Kernel)
    → CanRun k new
    → context_switch old new pt k ≢ fault
unfolding context_switch start_stack init_proc_kernel grab_a_frame save_context save_point
context_switch-CanRun none new pt k can = ground arith
context_switch-CanRun (some o) new pt k can = ground arith
