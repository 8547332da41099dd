-- ===== src/Trap/Booted.antt =====
-- The runs of the machine that begin where KernelStart ends.
use sc0x3a.Base.{ℕ, suc, ◌+◌, ◌==◌, if◌then◌else◌, ◌≡◌, refl, ◌∙◌, ap, true, List, [], arith}
use sc0x3a.Kernel.{Kernel, Boot}
use sc0x3a.Kernel.Monad.{done}
use sc0x3a.Program.{FileSystem}
use sc0x3a.Pipe.Bounds.{AllFit}
use sc0x3a.Semaphore.Balance.{Balanced}
use sc0x3a.Places.{places, count_in}
use sc0x3a.Start.Launch.{kernel_start}
use sc0x3a.Start.Vmem.{vectors}
use sc0x3a.Start.First.{Begun, kernel_start-Begun}
use sc0x3a.Trap.{Call, call_of}
use sc0x3a.Trap.Machine.{RunsTo}
use sc0x3a.Trap.Lasting.{Calls, Kept-RunsTo}
use sc0x3a.Trap.Invariants.{any_trap, RunsTo-AllFit, RunsTo-Balanced}
use sc0x3a.Trap.Single.{Single, RunsTo-Single}
use sc0x3a.Untouched.{boot, Kept}
use sc0x3a.Untouched.Calls.{leaves, Kept-dispatch}

Begun-Single : (k : Kernel) → Begun k → Single k
unfolding count_in
Begun-Single k b a =
    let here : places a k ≡ (if a == 0 then 1 else 0) + (if a == 1 then 1 else 0) =
      rw (b.active, b.ready, b.sleeping, b.waiting, b.io, b.pipes, b.locks, b.cvars, b.sems)
        (ground arith) in
    rw (b.pids) (ground (arith, here))

boot_leaves : (p : ℕ) (c : Call) → leaves boot p c ≡ true
boot_leaves p c = ground arith

boot-Calls : Calls boot any_trap
boot-Calls p fuel out k t c =
    let call = call_of k.uctxt.code in
    Kept-dispatch boot p k c.active (suc fuel) out.files out.junk call (boot_leaves p call)

-- The traps always go to the handlers that init_int_vector entered.
RunsTo-boot : {k k' : Kernel} → RunsTo any_trap k k' → k'.boot ≡ k.boot
unfolding Kept
RunsTo-boot r = Kept-RunsTo boot refl refl any_trap boot-Calls r

-- No process stands in two places and none whose pid has not been handed out stands in one, no pipe holds
-- more than its buffer, each semaphore has as many waiters as its count is below 0, and the traps go to
-- the handlers that init_int_vector entered.
pub record Sound (k : Kernel) : Type 0 where
  pub single : Single k
  pub fit : AllFit k
  pub balanced : Balanced k
  pub vector : k.boot.int_vector ≡ vectors

Begun-Sound : (k k' : Kernel) → Begun k → RunsTo any_trap k k' → Sound k'
Begun-Sound k k' b r = record {
  single = RunsTo-Single r (Begun-Single k b);
  fit = RunsTo-AllFit r (rw (b.pipes) tt);
  balanced = RunsTo-Balanced r (rw (b.sems) tt);
  vector = ap (λ (c : Boot). c.int_vector) (RunsTo-boot r) ∙ b.vector;
}

-- Where `malloc` does not fail and KernelStart returns, then in every run from there on, of traps, of
-- processes that go on where they gave the processor away, and of computations of a process, such that
-- `malloc` does not fail, a process runs and another is ready at each trap and each resumption: no
-- process stands in two places and none whose pid has not been handed out stands in one, no pipe holds more
-- than its buffer, each semaphore has as many waiters as its count is below 0, and the traps go to the
-- handlers that init_int_vector entered.
pub kernel_start-Sound :
    (files : FileSystem) (name : List ℕ) (args : List (List ℕ)) (pmem_size : ℕ) (k : Kernel)
    {k₁ k' : Kernel}
    → k.mallocs ≡ []
    → kernel_start files name args pmem_size k ≡ done tt k₁
    → RunsTo any_trap k₁ k'
    → Sound k'
kernel_start-Sound files name args pmem_size k {k₁} {k'} m e r =
    Begun-Sound k₁ k' (kernel_start-Begun files name args pmem_size k m e) r
