-- ===== src/Untouched/Forked.antt =====
-- What sys_Fork leaves as it was.
use sc0x3a.Base.{
  ℕ, ◌+◌, ◌≡◌, refl, Bool, true, false, List, [], ◌∷◌, arith, ℤ, pos, ◌+ℤ◌, error, leb,
}
use sc0x3a.Kernel.{Kernel, Pte, UserContext}
use sc0x3a.Kernel.Monad.{M, get, put, malloc, ◌>>=◌}
use sc0x3a.Scheduler.{init_proc_kernel}
use sc0x3a.Process.{max_proc, fork_pages, fork_child, sys_Fork}
use sc0x3a.Quiet.{Silent, Silent-pure, Silent-modify, silent_rules}
use sc0x3a.Quiet.Memory.{set_pte-Silent}
use sc0x3a.Kernel.Frames.{grab_a_frame}
use sc0x3a.Untouched.{
  Part, pids, boot, locks, sems, pipes, fits, balanced, drains, held, Kept, Leaves,
  Leaves-of_Silent, Leaves-bind, Leaves-if, Leaves-pure, Leaves-snapshot, Leaves-from,
  Leaves-malloc, Leaves-crash, leaves_rules,
}
use sc0x3a.Untouched.Switching.{Leaves-put_ready, Leaves-update_pcb, Leaves-init_proc_kernel}

copies-Silent :
    (g : Kernel → ℕ → ℕ → ℕ) (m : M ℤ)
    → Silent m
    → Silent (get >>= λ k. put (record k { phys = g k }) >>= λ _. m)
copies-Silent g m s = Silent-modify (λ k. record k { phys = g k }) m (λ k. ground arith) s

pub fork_pages-Silent : (es : List Pte) (i : ℤ) (child : ℕ) → Silent (fork_pages es i child)
unfolding fork_pages
fork_pages-Silent [] i child = Silent-pure (pos 0)
fork_pages-Silent (e ∷ es) i child =
    search (silent_rules, set_pte-Silent, copies-Silent, fork_pages-Silent es (i +ℤ pos 1) child)
      depth 20

pub init_proc_kernel-Silent : (p : ℕ) → Silent (init_proc_kernel p)
unfolding init_proc_kernel grab_a_frame Silent
init_proc_kernel-Silent p k = ground arith

abbrev pub not_pids : Part → Bool
not_pids pids = false
not_pids _ = true

counts_on :
    (x : Part) (k : Kernel) (n : ℕ) → not_pids x ≡ true → Kept x k (record k { next_pid = n })
unfolding Kept
counts_on pids k n t = absurd (cc)
counts_on boot k n t = refl
counts_on locks k n t = refl
counts_on sems k n t = refl
counts_on pipes k n t = refl
counts_on fits k n t = λ h. h
counts_on balanced k n t = λ h. h
counts_on (drains id cs) k n t = λ h. h
counts_on (held m q) k n t = λ h. h

module _ (x : Part) where
  pub Leaves-fork_child : (p child : ℕ) (u : UserContext) → Leaves x (fork_child p child u)
  unfolding fork_child
  Leaves-fork_child p child u =
      search
        (
          leaves_rules, Leaves-put_ready, Leaves-update_pcb, Leaves-init_proc_kernel,
          Leaves-of_Silent, fork_pages-Silent,
        )
        depth 30

  pub Leaves-sys_Fork : not_pids x ≡ true → Leaves x sys_Fork
  unfolding sys_Fork
  Leaves-sys_Fork t = Leaves-bind x malloc _ (Leaves-malloc x) λ b.
      Leaves-if x _ _ _ (Leaves-pure x error) (
        Leaves-snapshot x _ λ k p act.
          Leaves-from x _ k (record k { next_pid = k.next_pid + 1 })
            (Leaves-if x (leb max_proc k.next_pid) _ _ (Leaves-crash x ℤ)
              (Leaves-fork_child p k.next_pid k.uctxt))
            (counts_on x k (k.next_pid + 1) t))
