-- ===== src/Places/Forked.antt =====
-- Where the processes are around sys_Fork.
use sc0x3a.Base.{
  ℕ, ◌+◌, ◌≤◌, ◌≡◌, some, Bool, true, false, [], ◌∷◌, ◌==◌, if◌then◌else◌, arith, count-append, leb,
  Bool-cases, inl, inr,
}
use sc0x3a.Kernel.{Kernel, UserContext}
use sc0x3a.Kernel.Monad.{
  M, Keeps, Keeps-bind, Keeps-mono, malloc, malloc_lem, put_ready, insert_last, pure, ◌>>=◌,
}
use sc0x3a.Process.{max_proc, fork_child, sys_Fork}
use sc0x3a.Quiet.{Quiet, Silent, Silent-pure, update_pcb-Silent, Silent-get, malloc-Silent}
use sc0x3a.Untouched.{pids, Kept, Leaves, Keeps-and, Keeps-current}
use sc0x3a.Untouched.Forked.{Leaves-fork_child, fork_pages-Silent, init_proc_kernel-Silent}
use sc0x3a.Places.{places}
use sc0x3a.Places.Conserve.{Same-Quiet}

-- The process `c` stands in at most one place more, and no other in more.
abbrev pub Raised : ℕ → ℕ → Kernel → Kernel → Type 0
Raised a c k k' = places a k' ≤ places a k + (if a == c then 1 else 0)

unfoldable Raises : {A : Type 0} → ℕ → ℕ → M A → Type 0
Raises a c m = (k : Kernel) → Keeps (Raised a c k) (m k)

module _ (a c : ℕ) where
  Raises-of_Silent : {A : Type 0} (m : M A) → Silent m → Raises a c m
  unfolding Raises Silent
  Raises-of_Silent m s k =
      Keeps-mono (Quiet k) (Raised a c k) (m k) (s k) λ k' q. omega (arith, Same-Quiet a k k' q)

  Raises-bind :
      {A B : Type 0} (m : M A) (f : A → M B)
      → Silent m
      → ((x : A) → Raises a c (f x))
      → Raises a c (m >>= f)
  unfolding Raises Silent
  Raises-bind m f s next k =
      Keeps-bind (Quiet k) (Raised a c k) (m k) f (s k) (λ k₁ q. omega (arith, Same-Quiet a k k₁ q))
        λ x k₁ q.
          Keeps-mono (Raised a c k₁) (Raised a c k) (f x k₁) (next x k₁)
            λ k₂ r. omega (arith, Same-Quiet a k k₁ q, r)

  Raises-if :
      {A : Type 0} (b : Bool) (m n : M A)
      → Raises a c m
      → Raises a c n
      → Raises a c (if b then m else n)
  Raises-if true m n s t = s
  Raises-if false m n s t = t

  put_ready-Raises : {A : Type 0} (x : A) → Raises a c (put_ready c >>= λ _. pure x)
  unfolding Raises put_ready malloc insert_last
  put_ready-Raises x k = ground (arith, count-append a k.ready_queue (c ∷ []))

  fork_child-Raises : (p : ℕ) (u : UserContext) → Raises a c (fork_child p c u)
  unfolding fork_child
  fork_child-Raises p u =
      search
        (
          Raises-bind, Raises-if, put_ready-Raises, Raises-of_Silent, Silent-pure, Silent-get,
          malloc-Silent, update_pcb-Silent, init_proc_kernel-Silent, fork_pages-Silent,
        )
        depth 40

-- Where `malloc` does not fail and `p` runs, sys_Fork hands out the next pid; the process that it belongs
-- to stands in at most one place more, and no other in more.
pub sys_Fork-Raised :
    (a p : ℕ) (k : Kernel)
    → k.mallocs ≡ []
    → k.active_proc ≡ some p
    → Keeps (λ k'. Raised a k.next_pid k k' × (k'.next_pid ≡ k.next_pid + 1)) (sys_Fork k)
unfolding sys_Fork Raises Leaves Kept
sys_Fork-Raised a p k m act =
    let k₁ = record k { next_pid = k.next_pid + 1 } in
    let P = λ (k' : Kernel). Raised a k.next_pid k k' × (k'.next_pid ≡ k.next_pid + 1) in
    rw (malloc_lem k m) (
      Keeps-current P _ k p act (elim (Bool-cases (leb max_proc k.next_pid)) [
        | inl full ↦ rw (full) tt
        | inr room ↦ rw (room) (
            Keeps-and (Raised a k.next_pid k) (Kept pids k₁) (fork_child p k.next_pid k.uctxt k₁)
              (fork_child-Raises a k.next_pid p k.uctxt k₁)
              (Leaves-fork_child pids p k.next_pid k.uctxt k₁))
      ]))
