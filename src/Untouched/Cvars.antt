-- ===== src/Untouched/Cvars.antt =====
-- What the calls of condition variables leave as it was.
use sc0x3a.Base.{ℕ, ◌+◌, List, [], ◌∷◌, arith, find, ℤ, pos, error, to_int, length}
use sc0x3a.Kernel.{CvarInfo, Kind}
use sc0x3a.Kernel.Monad.{get, malloc, insert_last, put_ready}
use sc0x3a.Scheduler.{unblock}
use sc0x3a.Lock.{malloc_at, put_reclaim}
use sc0x3a.Cvar.{
  sys_CvarInit, sys_CvarSignal, wake_all, sys_CvarBroadcast, is_cvar, destroy_cvar_info,
  set_waiters,
}
use sc0x3a.Kernel.Memory.{write_int}
use sc0x3a.Quiet.Memory.{write_int-Silent}
use sc0x3a.Kernel.{ReclaimInfo}
use sc0x3a.Untouched.{
  Part, Leaves, Leaves-of_Still, Leaves-of_Silent, Leaves-bind, Leaves-elim, Leaves-edit,
  Leaves-crash, Leaves-pure, Leaves-get, Leaves-if, Leaves-malloc, leaves_rules,
}
use sc0x3a.Untouched.Switching.{Leaves-put_ready, Leaves-unblock}

module _ (x : Part) where
  pub Leaves-malloc_at : Leaves x malloc_at
  unfolding malloc_at malloc
  Leaves-malloc_at = Leaves-of_Still x malloc_at λ k. ground arith

  pub Leaves-put_reclaim : (r : ReclaimInfo) → Leaves x (put_reclaim r)
  unfolding put_reclaim malloc insert_last
  Leaves-put_reclaim r = Leaves-of_Still x (put_reclaim r) λ k. ground arith

  pub Leaves-write_int : (a : ℕ) (v : ℤ) → Leaves x (write_int a v)
  Leaves-write_int a v = Leaves-of_Silent x (write_int a v) (write_int-Silent a v)

  set_waiters-Leaves : (id : ℤ) (ws : List ℕ) → Leaves x (set_waiters id ws)
  unfolding set_waiters
  set_waiters-Leaves id ws = Leaves-of_Still x (set_waiters id ws) λ k. ground arith

  pub Leaves-sys_CvarSignal : Leaves x sys_CvarSignal
  unfolding sys_CvarSignal put_ready malloc insert_last set_waiters
  Leaves-sys_CvarSignal = Leaves-of_Still x sys_CvarSignal λ k. ground arith

  wake_all-Leaves : (id : ℤ) (ps : List ℕ) → Leaves x (wake_all id ps)
  unfolding wake_all
  wake_all-Leaves id [] = Leaves-pure x (pos 0)
  wake_all-Leaves id (p ∷ ps) =
      search (leaves_rules, set_waiters-Leaves, Leaves-put_ready, wake_all-Leaves id ps) depth 20

  pub Leaves-sys_CvarBroadcast : Leaves x sys_CvarBroadcast
  unfolding sys_CvarBroadcast
  Leaves-sys_CvarBroadcast = Leaves-bind x get _ (Leaves-get x) λ k.
      Leaves-if x _ _ _ (Leaves-pure x error) (
        Leaves-elim x (find (is_cvar (to_int k.uctxt.reg0)) k.cvar_list) _ _ (Leaves-pure x error)
          λ c. wake_all-Leaves _ c.cvar_wait_list)

  pub Leaves-sys_CvarInit : Leaves x sys_CvarInit
  unfolding sys_CvarInit
  Leaves-sys_CvarInit = Leaves-bind x malloc _ (Leaves-malloc x) λ r.
      Leaves-bind x malloc_at _ Leaves-malloc_at λ c.
        Leaves-elim x c _ _ (Leaves-pure x error) λ addr. Leaves-bind x get _ (Leaves-get x) λ k.
          Leaves-bind x malloc _ (Leaves-malloc x) λ h. Leaves-if x _ _ _ (Leaves-pure x error) (
            let id = length k.reclaim_list + 1 in
            let c : CvarInfo = record { addr = addr; cvarid = id; cvar_wait_list = [] } in
            Leaves-bind x (write_int k.uctxt.reg0 (pos id)) _
              (Leaves-write_int k.uctxt.reg0 (pos id))
              λ _. Leaves-bind x malloc _ (Leaves-malloc x) λ b.
                Leaves-edit x (λ k. record k { cvar_list = (insert_last k.cvar_list c b).0 }) _
                  (λ k. ground arith)
                  λ k. Leaves-if x _ _ _ (Leaves-pure x (insert_last k.cvar_list c b).1) (
                    Leaves-if x _ _ _ (Leaves-crash x ℤ)
                      (Leaves-put_reclaim (record { id = id; kind = Kind.cvar }))))

  pub Leaves-destroy_cvar_info : (id : ℤ) → Leaves x (destroy_cvar_info id)
  unfolding destroy_cvar_info
  Leaves-destroy_cvar_info id = Leaves-bind x get _ (Leaves-get x) λ k.
      Leaves-if x _ _ _ (Leaves-pure x error) (
        Leaves-elim x (find (is_cvar id) k.cvar_list) _ _ (Leaves-pure x error) λ c.
          Leaves-bind x (unblock 1 c.cvar_wait_list) _ (Leaves-unblock x 1 c.cvar_wait_list)
            λ _. Leaves-edit x _ _ (λ k. ground arith) λ k. Leaves-pure x (pos 0))
