-- ===== src/Trap/Machine.antt =====
-- Steps of the machine, and the sequences of them.
use mathlib.Core.Path.{subst}
use sc0x3a.Base.{ℕ, suc, ◌≡◌, Bool, true, some, get_elem?, arith}
use sc0x3a.Kernel.{Kernel, Handler, UserContext}
use sc0x3a.Kernel.Monad.{Outcome, done, switched, fault, out_of_fuel, Keeps}
use sc0x3a.Places.Conserve.{CanBlock}
use sc0x3a.Trap.{Outside, handle, trap, resume}

pub trap_eq :
    (fuel : ℕ) (out : Outside) (k : Kernel) (vector : ℕ) (h : Handler)
    → get_elem? k.boot.int_vector vector ≡ some h
    → trap fuel out vector k ≡ handle fuel out h k
unfolding trap
trap_eq fuel out k vector h e = ground (arith, e)

-- The state that a command leaves, whether it returns or gives the processor away.
abbrev pub Leads : {A : Type 0} → Outcome A → Kernel → Type 0
Leads (done a k) k' = k ≡ k'
Leads (switched k) k' = k ≡ k'
Leads fault k' = ⊥
Leads out_of_fuel k' = ⊥

pub Leads-Keeps :
    {A : Type 0} (P : Kernel → Type 0) (r : Outcome A) (k' : Kernel) → Leads r k' → Keeps P r → P k'
Leads-Keeps P (done a k) k' l q = subst P l q
Leads-Keeps P (switched k) k' l q = subst P l q
Leads-Keeps P fault k' l q = absurd l
Leads-Keeps P out_of_fuel k' l q = absurd l

-- A step of the machine: the process that runs computes by itself, which changes memory and its user
-- context; a trap for which `ok` holds is handled; or a process that has been switched to goes on.
pub data Step (ok : ℕ → Kernel → Handler → Bool) (k : Kernel) : Kernel → Type 0 where
  computes : (m : ℕ → ℕ → ℕ) (u : UserContext) → Step ok k (record k { phys = m; uctxt = u })
  traps :
      (p fuel : ℕ) (out : Outside) (vector : ℕ) (h : Handler) {k' : Kernel}
      → get_elem? k.boot.int_vector vector ≡ some h
      → ok p k h ≡ true
      → CanBlock p k
      → Leads (trap (suc fuel) out vector k) k'
      → Step ok k k'
  resumes :
      (p fuel : ℕ) {k' : Kernel} → CanBlock p k → Leads (resume (suc fuel) k) k' → Step ok k k'

pub data RunsTo (ok : ℕ → Kernel → Handler → Bool) (k : Kernel) : Kernel → Type 0 where
  stays : RunsTo ok k k
  goes_on : {k₁ k₂ : Kernel} → RunsTo ok k k₁ → Step ok k₁ k₂ → RunsTo ok k k₂
