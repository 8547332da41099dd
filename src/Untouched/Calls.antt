-- ===== src/Untouched/Calls.antt =====
-- What the kernel calls leave as it was.
use sc0x3a.Base.{
  ℕ, ◌≡◌, refl, Bool, true, false, not, ◌&&◌, some, arith, find, ℤ, pos, ltb_ℤ, eqb_ℤ,
  if◌then◌else◌, some, to_int, error, remove_first, Bool-cases, Option-cases, inl, inr,
}
use sc0x3a.Kernel.{Kernel, Kind, pipe, lock, cvar}
use sc0x3a.Kernel.Monad.{Keeps, Keeps-bind, get, put, pure, ◌>>=◌}
use sc0x3a.Reclaim.{destroy, has_id, sys_Reclaim}
use sc0x3a.Program.{FileSystem}
use sc0x3a.Quiet.Memory.{sys_Brk-Silent}
use sc0x3a.Quiet.Program.{sys_Exec-Silent}
use sc0x3a.Trap.{
  Call, brk, fork, exec, exit, wait, delay, getpid, read, write, pipe_init, pipe_read, pipe_write,
  lock_init, acquire, release, cvar_init, signal, broadcast, cvar_wait_call, reclaim, custom_0,
  custom_1, custom_2, unknown, dispatch,
}
use sc0x3a.Trap.Calls.{sys_Getpid-Silent}
use sc0x3a.Untouched.{
  Part, Kept, Kept-refl, Leaves, Leaves-of_Silent, Leaves-from, Leaves-if, Leaves-edit, Leaves-pure,
}
use sc0x3a.Untouched.Processes.{Leaves-sys_Wait, Leaves-sys_Delay, Leaves-sys_Exit}
use sc0x3a.Untouched.Terminals.{Leaves-sys_TtyRead, Leaves-sys_TtyWrite}
use sc0x3a.Untouched.Cvars.{
  Leaves-sys_CvarInit, Leaves-sys_CvarSignal, Leaves-sys_CvarBroadcast, Leaves-destroy_cvar_info,
}
use sc0x3a.Untouched.Pipes.{
  not_pipes, not_filled, Leaves-sys_PipeInit, Leaves-sys_PipeRead, Leaves-sys_PipeWrite,
  Leaves-destroy_pipe_info,
}
use sc0x3a.Untouched.Semaphores.{
  not_sems, Leaves-sys_Custom_0, Leaves-sys_Custom_1, Leaves-sys_Custom_2,
}
use sc0x3a.Untouched.Locks.{
  not_locks, releases, Leaves-sys_LockInit, Leaves-sys_Acquire, Kept-sys_Release,
  Kept-destroy_lock_info, Kept-sys_CvarWait,
}
use sc0x3a.Untouched.Forked.{not_pids, Leaves-sys_Fork}

-- The calls that leave the part as it is, made by `p`, as far as this does not depend on the state.
abbrev pub leaves : Part → ℕ → Call → Bool
leaves x p fork = not_pids x
leaves x p pipe_init = not_pipes x
leaves x p pipe_read = not_pipes x
leaves x p pipe_write = not_filled x
leaves x p lock_init = not_locks x
leaves x p acquire = not_locks x
leaves x p release = not_locks x && not (releases x p)
leaves x p cvar_wait_call = not_locks x && not (releases x p)
leaves x p reclaim = not_pipes x && not_locks x && not (releases x p)
leaves x p custom_0 = not_sems x
leaves x p custom_1 = not_sems x
leaves x p custom_2 = not_sems x
leaves x p _ = true

both : (a b : Bool) → a && b ≡ true → (a ≡ true) × (b ≡ true)
both true true e = (refl, refl)
both true false e = absurd (cc)
both false b e = absurd (cc)

not-true : (a : Bool) → not a ≡ true → a ≡ false
not-true a e = ground arith

-- The end of sys_Reclaim.
entry_out :
    (x : Part) (id rc : ℤ)
    → Leaves x (
        if not (eqb_ℤ rc (pos 0))
        then pure error
        else (get >>= λ k.
            put (record k { reclaim_list = remove_first (has_id id) k.reclaim_list }) >>= λ _.
            pure (pos 0)))
entry_out x id rc = Leaves-if x _ _ _ (Leaves-pure x error) (
    Leaves-edit x (λ k. record k { reclaim_list = remove_first (has_id id) k.reclaim_list }) _
      (λ k. ground arith) λ k. Leaves-pure x (pos 0))

module _ (x : Part) (p : ℕ) (k : Kernel) (act : k.active_proc ≡ some p) where
  module _ (t : not_pipes x ≡ true) (l : not_locks x ≡ true) (r : releases x p ≡ false) where
    destroy-Kept : (kind : Kind) (id : ℤ) → Keeps (Kept x k) (destroy kind id k)
    unfolding destroy Leaves
    destroy-Kept pipe id = Leaves-destroy_pipe_info x t id k
    destroy-Kept lock id = Kept-destroy_lock_info x l p r id k act
    destroy-Kept cvar id = Leaves-destroy_cvar_info x id k

    sys_Reclaim-Kept : Keeps (Kept x k) (sys_Reclaim k)
    unfolding sys_Reclaim
    sys_Reclaim-Kept =
        let id = to_int k.uctxt.reg0 in
        elim (Bool-cases (ltb_ℤ id (pos 0))) [
          | inl neg ↦ rw (neg) (Kept-refl x k)
          | inr valid ↦ elim (Option-cases (find (has_id id) k.reclaim_list)) [
            | inl e ↦ rw (valid, e) (Kept-refl x k)
            | inr (d, e) ↦
                rw (valid, e)
                  (Keeps-bind (Kept x k) (Kept x k) (destroy d.kind id k) _ (destroy-Kept d.kind id)
                    (λ k₁ h. h) λ rc k₁ h. Leaves-from x _ k k₁ (entry_out x id rc) h)
          ]
        ]

  module _ (fuel : ℕ) (files : FileSystem) (junk : ℤ) where
    pub Kept-dispatch :
        (c : Call) → leaves x p c ≡ true → Keeps (Kept x k) (dispatch fuel files junk c k)
    unfolding dispatch Leaves
    Kept-dispatch brk t = Leaves-of_Silent x _ sys_Brk-Silent k
    Kept-dispatch fork t = Leaves-sys_Fork x t k
    Kept-dispatch exec t = Leaves-of_Silent x _ (sys_Exec-Silent files) k
    Kept-dispatch exit t = Leaves-sys_Exit x 0 k
    Kept-dispatch wait t = Leaves-sys_Wait x k
    Kept-dispatch delay t = Leaves-sys_Delay x k
    Kept-dispatch getpid t = Leaves-of_Silent x _ sys_Getpid-Silent k
    Kept-dispatch read t = Leaves-sys_TtyRead x k
    Kept-dispatch write t = Leaves-sys_TtyWrite x fuel k
    Kept-dispatch pipe_init t = Leaves-sys_PipeInit x t k
    Kept-dispatch pipe_read t = Leaves-sys_PipeRead x t fuel k
    Kept-dispatch pipe_write t = Leaves-sys_PipeWrite x t k
    Kept-dispatch lock_init t = Leaves-sys_LockInit x t k
    Kept-dispatch acquire t = Leaves-sys_Acquire x t fuel (pos 0) false k
    Kept-dispatch release t =
        let (l, r) = both _ _ t in Kept-sys_Release x l p (not-true _ r) (to_int k.uctxt.reg0) k act
    Kept-dispatch cvar_init t = Leaves-sys_CvarInit x k
    Kept-dispatch signal t = Leaves-sys_CvarSignal x k
    Kept-dispatch broadcast t = Leaves-sys_CvarBroadcast x k
    Kept-dispatch cvar_wait_call t =
        let (l, r) = both _ _ t in Kept-sys_CvarWait x l p (not-true _ r) fuel k act
    Kept-dispatch reclaim t =
        let (u, r) = both _ _ t in let (q, l) = both _ _ u in sys_Reclaim-Kept q l (not-true _ r)
    Kept-dispatch custom_0 t = Leaves-sys_Custom_0 x t k
    Kept-dispatch custom_1 t = Leaves-sys_Custom_1 x t k
    Kept-dispatch custom_2 t = Leaves-sys_Custom_2 x t k
    Kept-dispatch unknown t = Kept-refl x k
