-- ===== src/Places/Exit.antt =====
-- Where the processes are around sys_Exit.
use sc0x3a.Base.{
  ℕ, ◌+◌, ◌≡◌, ap, ◌∙◌, inl, inr, ◌==◌, none, List, [], ◌∷◌, ◌++◌, if◌then◌else◌, arith,
  count-append, find, remove_first, ℤ, pos, negsuc, error, to_int, Option-cases,
}
use sc0x3a.Kernel.{Kernel, exited}
use sc0x3a.Kernel.Monad.{
  M, Outcome, done, switched, fault, out_of_fuel, and_then, malloc, insert_last, Ends,
  Switches-after, set_pcb, Switches, Switches-bind, Switches-mono, current_lem, put_ready_lem,
}
use sc0x3a.Scheduler.{normal_schedule, insert_dead_list, update_pcb}
use sc0x3a.Process.Exit.{orphan, tell_parent, wake_parent, free_memory, is_pid, sys_Exit}
use sc0x3a.Process.Freed.{free_memory_eq}
use sc0x3a.Quiet.{Quiet, Quiet-refl}
use sc0x3a.Places.{places, count_active}
use sc0x3a.Places.Counting.{Same, queued-normal_schedule}
use sc0x3a.Places.Conserve.{CanBlock, CanBlock-Quiet, Same-Quiet}
use sc0x3a.Places.Terminals.{count-remove_first}

orphan-Ends : (cs : List ℕ) (k : Kernel) → Ends (Quiet k) (orphan cs k)
unfolding orphan update_pcb
orphan-Ends [] k = Quiet-refl k
orphan-Ends (c ∷ cs) k =
    let k₁ = record k {
      pcbs = set_pcb k.pcbs c (let b = k.pcbs c in record b { ppid = negsuc 0 });
    } in
    ground (arith, orphan-Ends cs k₁)

free_memory-Ends : (p : ℕ) (k : Kernel) → k.mallocs ≡ [] → Ends (Quiet k) (free_memory p k)
free_memory-Ends p k m = rw (free_memory_eq p k m) (ground arith)

-- `k'` with the list of the dead that `k` has.
abbrev with_dead : Kernel → Kernel → Kernel
with_dead k k' = record k' { dead_list = k.dead_list }

-- A command that returns 0 and moves no process, but for the dead, or faults.
abbrev Tells : Kernel → Outcome ℤ → Type 0
Tells k (done rc k') = (rc ≡ pos 0) × Quiet k (with_dead k k')
Tells k (switched k') = ⊥
Tells k fault = Unit {0}
Tells k out_of_fuel = ⊥

tell_parent-Tells :
    (p : ℕ) (status : ℤ) (k : Kernel) → k.mallocs ≡ [] → Tells k (tell_parent p status k)
unfolding tell_parent insert_dead_list update_pcb insert_last malloc
tell_parent-Tells p status k m = ground arith

-- The parent that waits goes from one queue to the other.
wake_parent-Same :
    (a p : ℕ) (id : ℤ) (k : Kernel)
    → CanBlock p k
    → Ends (λ k'. Same a k k' × CanBlock p k') (wake_parent id k)
unfolding wake_parent
wake_parent-Same a p id k c = elim (Option-cases (find (is_pid id) k.wait_list)) [
  | inl e ↦ ground (arith, e)
  | inr (w, e) ↦
      let k₁ = record k { wait_list = remove_first (is_pid id) k.wait_list } in
      let (x, xs, r) = c.ready in
      let woken : wake_parent id k ≡ done tt (record k₁ { ready_queue = k.ready_queue ++ w ∷ [] }) =
        ground (arith, e, put_ready_lem w k₁ c.memory) in
      rw (woken) (
        omega (
          arith,
          count-append a k.ready_queue (w ∷ []),
          count-remove_first a w (is_pid id) k.wait_list e,
        ),
        record {
          memory = c.memory;
          active = c.active;
          ready = (x, xs ++ w ∷ [], ap (λ ys. ys ++ w ∷ []) r);
        },
      )
]

-- The process stands in one place less, and no other process in more or fewer.
abbrev pub Gone : ℕ → ℕ → Kernel → Kernel → Type 0
Gone a p k k' = places a k' + (if a == p then 1 else 0) ≡ places a k

after_tell :
    {B : Type 0} (P : Kernel → Type 0) (k : Kernel) (r : Outcome ℤ) (f : ℤ → M B)
    → Tells k r
    → ((k' : Kernel) → Quiet k (with_dead k k') → Switches P (f (pos 0) k'))
    → Switches P (and_then r f)
after_tell P k (done rc k') f (z, q) next = rw (z) (next k' q)
after_tell P k (switched k') f t next = absurd t
after_tell P k fault f t next = tt
after_tell P k out_of_fuel f t next = absurd t

-- The end of sys_Exit: no process is active, and the next is chosen.
leave :
    {B : Type 0} (a p : ℕ) (k k₁ : Kernel) (f : ℤ → M B)
    → Same a k k₁
    → CanBlock p k₁
    → Switches (Gone a p k) (and_then (normal_schedule exited (record k₁ { active_proc = none })) f)
leave a p k k₁ f s c =
    let (x, xs, r) = c.ready in
    let k₂ = record k₁ { active_proc = none } in
    Switches-bind (Gone a p k) (normal_schedule exited k₂) f (
      Switches-mono _ (Gone a p k) (normal_schedule exited k₂)
        (queued-normal_schedule a x xs exited k₂ c.memory r)
        λ k₃ e. omega (arith, s, e, ap (count_active a) c.active))

-- Where `malloc` does not fail, `p` runs and another process is ready, sys_Exit, called by `p`, does not
-- return; unless the kernel faults, it gives the processor away, takes `p` out of the places that hold a
-- process, once, and leaves every other process in as many as it was.
pub sys_Exit-Gone :
    (a p mode : ℕ) (k : Kernel) → CanBlock p k → Switches (Gone a p k) (sys_Exit mode k)
unfolding sys_Exit
sys_Exit-Gone a p mode k c =
    let cs = (k.pcbs p).children in
    let status = if mode == 0 then to_int k.uctxt.reg0 else error in
    rw (current_lem k p c.active) (
      Switches-after (Quiet k) (Gone a p k) (orphan cs k) _ (orphan-Ends cs k) λ _ k₁ q₁.
        let c₁ = CanBlock-Quiet p k k₁ q₁ c in
        after_tell (Gone a p k) k₁ (tell_parent p status k₁) _
          (tell_parent-Tells p status k₁ c₁.memory)
          λ k₂ q₂.
            let b = CanBlock-Quiet p k₁ (with_dead k₁ k₂) q₂ c₁ in
            let c₂ : CanBlock p k₂ = record {
              memory = b.memory;
              active = b.active;
              ready = b.ready;
            } in
            Switches-after (Quiet k₂) (Gone a p k) (free_memory p k₂) _
              (free_memory-Ends p k₂ c₂.memory)
              λ _ k₃ q₃.
                let c₃ = CanBlock-Quiet p k₂ k₃ q₃ c₂ in
                let s₁ = Same-Quiet a k k₁ q₁ in
                let s₂ : Same a k₁ k₂ = Same-Quiet a k₁ (with_dead k₁ k₂) q₂ in
                let s₃ = Same-Quiet a k₂ k₃ q₃ ∙ s₂ ∙ s₁ in
                Switches-after _ (Gone a p k) (wake_parent (k₃.pcbs p).ppid k₃) _
                  (wake_parent-Same a p (k₃.pcbs p).ppid k₃ c₃)
                  λ _ k₄ (s₄, c₄). leave a p k k₄ _ (s₄ ∙ s₃) c₄)
