-- ===== src/Quiet.antt =====
-- The parts of the kernel that move no process: what they leave as it was, and how that carries over
-- to commands that are put together.
pub mod Memory
pub mod Program
use sc0x3a.Base.{
  ℕ, ◌≡◌, refl, ◌∙◌, Bool, true, false, Option, none, some, List, [], ap, remove_at, arith,
  if◌then◌else◌, Bool-cases, Option-cases, inl, inr,
}
use sc0x3a.Kernel.{Kernel, Pcb, UserContext}
use sc0x3a.Kernel.Monad.{
  M, Outcome, done, Keeps, Keeps-bind, Keeps-mono, and_then, ◌>>=◌, pure, crash, current, malloc,
  get, put, out_of_fuel,
}
use sc0x3a.Kernel.Frames.{grab_a_frame, free_frame}
use sc0x3a.Scheduler.{update_pcb}

-- `k'` has the processes where `k` has them. Frames, memory and pcbs may differ, and the list of
-- the dead, unless it is empty.
pub record Quiet (k k' : Kernel) : Type 0 where
  pub active : k'.active_proc ≡ k.active_proc
  pub ready : k'.ready_queue ≡ k.ready_queue
  pub sleeping : k'.sleep_list ≡ k.sleep_list
  pub waiting : k'.wait_list ≡ k.wait_list
  pub io : k'.io_list ≡ k.io_list
  pub pipes : k'.pipe_list ≡ k.pipe_list
  pub locks : k'.lock_list ≡ k.lock_list
  pub cvars : k'.cvar_list ≡ k.cvar_list
  pub sems : k'.sem_list ≡ k.sem_list
  pub reclaim : k'.reclaim_list ≡ k.reclaim_list
  pub dead : k.dead_list ≡ [] → k'.dead_list ≡ []
  pub pids : k'.next_pid ≡ k.next_pid
  pub boot : k'.boot ≡ k.boot
  pub memory : k.mallocs ≡ [] → k'.mallocs ≡ []

pub Quiet-refl : (k : Kernel) → Quiet k k
Quiet-refl k = ground arith

pub Quiet-trans : (k₁ k₂ k₃ : Kernel) → Quiet k₁ k₂ → Quiet k₂ k₃ → Quiet k₁ k₃
Quiet-trans k₁ k₂ k₃ p q = record {
  active = q.active ∙ p.active;
  ready = q.ready ∙ p.ready;
  sleeping = q.sleeping ∙ p.sleeping;
  waiting = q.waiting ∙ p.waiting;
  io = q.io ∙ p.io;
  pipes = q.pipes ∙ p.pipes;
  locks = q.locks ∙ p.locks;
  cvars = q.cvars ∙ p.cvars;
  sems = q.sems ∙ p.sems;
  reclaim = q.reclaim ∙ p.reclaim;
  dead = λ e. q.dead (p.dead e);
  pids = q.pids ∙ p.pids;
  boot = q.boot ∙ p.boot;
  memory = λ m. q.memory (p.memory m);
}

-- A command that moves no process, whatever it starts from.
unfoldable pub Silent : {A : Type 0} → M A → Type 0
Silent m = (k : Kernel) → Keeps (Quiet k) (m k)

pub Silent-bind :
    {A B : Type 0} (m : M A) (f : A → M B) → Silent m → ((a : A) → Silent (f a)) → Silent (m >>= f)
unfolding Silent
Silent-bind m f first next k =
    Keeps-bind (Quiet k) (Quiet k) (m k) f (first k) (λ k₁ q. q)
      λ a k₁ q. Keeps-mono (Quiet k₁) (Quiet k) (f a k₁) (next a k₁) (λ k₂. Quiet-trans k k₁ k₂ q)

pub Silent-if :
    {A : Type 0} (b : Bool) (m n : M A) → Silent m → Silent n → Silent (if b then m else n)
unfolding Silent
Silent-if true m n p q = p
Silent-if false m n p q = q

pub Silent-pure : {A : Type 0} (a : A) → Silent (pure a)
unfolding Silent
Silent-pure a k = Quiet-refl k

pub Silent-get : Silent get
unfolding Silent
Silent-get k = Quiet-refl k

pub Silent-current : Silent current
unfolding Silent
Silent-current k = ground arith

pub Silent-elim :
    {A B : Type 0} (o : Option A) (m : M B) (f : A → M B)
    → Silent m
    → ((a : A) → Silent (f a))
    → Silent (elim o [ none ↦ m | some a ↦ f a ])
unfolding Silent
Silent-elim none m f p q = p
Silent-elim (some a) m f p q = q a

pub malloc-Silent : Silent malloc
unfolding Silent malloc
malloc-Silent k = ground arith

pub update_pcb-Silent : (p : ℕ) (f : Pcb → Pcb) → Silent (update_pcb p f)
unfolding Silent update_pcb
update_pcb-Silent p f k = ground arith

pub grab_a_frame-Silent : Silent grab_a_frame
unfolding Silent grab_a_frame
grab_a_frame-Silent k = ground arith

pub free_frame-Silent : (f : ℕ) → Silent (free_frame f)
unfolding Silent free_frame malloc
free_frame-Silent f k = ground arith

pub Silent-crash : (A : Type 0) → Silent {A = A} crash
unfolding Silent
Silent-crash A k = tt

pub Silent-out_of_fuel : (A : Type 0) → Silent {A = A} (λ _. out_of_fuel)
unfolding Silent
Silent-out_of_fuel A k = tt

-- The state is changed in place, and `m` follows.
pub Silent-modify :
    {A : Type 0} (g : Kernel → Kernel) (m : M A)
    → ((k : Kernel) → Quiet k (g k))
    → Silent m
    → Silent (get >>= λ k. put (g k) >>= λ _. m)
unfolding Silent
Silent-modify g m q s k =
    Keeps-mono (Quiet (g k)) (Quiet k) (m (g k)) (s (g k)) λ k₂ r. Quiet-trans k (g k) k₂ (q k) r

pub Silent-set_uctxt :
    {A : Type 0} (g : Kernel → UserContext) (m : M A)
    → Silent m
    → Silent (get >>= λ k. put (record k { uctxt = g k }) >>= λ _. m)
Silent-set_uctxt g m s = Silent-modify (λ k. record k { uctxt = g k }) m (λ k. ground arith) s

pub Silent-remove_dead :
    {A : Type 0} (n : Kernel → ℕ) (m : M A)
    → Silent m
    → Silent (get >>= λ k. put (record k { dead_list = remove_at (n k) k.dead_list }) >>= λ _. m)
Silent-remove_dead n m s =
    Silent-modify (λ k. record k { dead_list = remove_at (n k) k.dead_list }) m
      (λ k. record {
        active = refl;
        ready = refl;
        sleeping = refl;
        waiting = refl;
        io = refl;
        pipes = refl;
        locks = refl;
        cvars = refl;
        sems = refl;
        reclaim = refl;
        dead = λ e. ap (remove_at (n k)) e;
        pids = refl;
        boot = refl;
        memory = λ m. m;
      })
      s

pub ruleset silent_rules = (
  Silent-bind, Silent-if, Silent-elim, Silent-pure, Silent-get, Silent-current, malloc-Silent,
  update_pcb-Silent, grab_a_frame-Silent, free_frame-Silent,
)
