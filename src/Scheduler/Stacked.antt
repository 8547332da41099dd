-- ===== src/Scheduler/Stacked.antt =====
-- The switch to a process that has a kernel stack.
use sc0x3a.Base.{ℕ, ◌≡◌, ◌≢◌, refl, ◌∙◌, some, List, [], ◌∷◌, arith}
use sc0x3a.Kernel.{Kernel, Pcb, Point, ready}
use sc0x3a.Kernel.Monad.{switched, set_pcb}
use sc0x3a.Scheduler.{context_switch, start_stack, save_context, save_point}
use sc0x3a.Scheduler.Sleep.{make_ready}

-- Each process has a kernel stack.
abbrev pub AllStacked : Kernel → Type 0
AllStacked k = (q : ℕ) → (k.pcbs q).k_stack_0.pfn ≢ 0

pub make_ready-stack :
    (ps : List ℕ) (f : ℕ → Pcb) (q : ℕ) → (make_ready ps f q).k_stack_0 ≡ (f q).k_stack_0
unfolding make_ready
make_ready-stack [] f q = refl
make_ready-stack (p ∷ ps) f q =
    make_ready-stack ps (set_pcb f p (let c = f p in record c { state = ready })) q ∙ ground arith

-- The state after the switch from a process to one that has a stack.
abbrev pub switched_to : ℕ → ℕ → Point → Kernel → Kernel
switched_to old new pt k =
    let k₁ = record k {
      active_proc = some new;
      pcbs = set_pcb k.pcbs old (let c = k.pcbs old in record c { uctxt = k.uctxt });
    } in
    record k₁ { pcbs = set_pcb k₁.pcbs old (let c = k₁.pcbs old in record c { kctxt = pt }) }

pub switched_to-stack :
    (old new q : ℕ) (pt : Point) (k : Kernel)
    → ((switched_to old new pt k).pcbs q).k_stack_0 ≡ (k.pcbs q).k_stack_0
switched_to-stack old new q pt k = ground arith

pub context_switch_eq :
    (old new : ℕ) (pt : Point) (k : Kernel)
    → AllStacked k
    → context_switch (some old) new pt k ≡ switched (switched_to old new pt k)
unfolding context_switch start_stack save_context save_point
context_switch_eq old new pt k stacked =
    ground (arith, stacked new, switched_to-stack old new new pt k)
