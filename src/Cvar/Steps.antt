-- ===== src/Cvar/Steps.antt =====
-- What the calls of a condition variable do, branch by branch, where `malloc` does not fail.
use mathlib.Core.List.{append_assoc}
use sc0x3a.Base.{
  ℕ, ◌≡◌, refl, true, false, none, some, List, [], ◌∷◌, ◌++◌, arith, find, update_first, ℤ, pos,
  error, to_int, ltb_ℤ, Bool-cases, inl, inr,
}
use sc0x3a.Kernel.{Kernel, CvarInfo, cvar_wait}
use sc0x3a.Kernel.Monad.{done, and_then, insert_last, put_ready_lem, malloc_lem}
use sc0x3a.Scheduler.{normal_schedule}
use sc0x3a.Cvar.{
  sys_CvarSignal, sys_CvarBroadcast, wake_all, set_waiters, is_cvar, cvar_resume, cvar_queue,
}

-- The cvars with the waiters of the first one with that id replaced.
abbrev pub with_waiters : ℤ → List ℕ → List CvarInfo → List CvarInfo
with_waiters id ws = update_first (is_cvar id) (λ c. record c { cvar_wait_list = ws })

with_waiters_twice :
    (id : ℤ) (vs ws : List ℕ) (cs : List CvarInfo)
    → with_waiters id ws (with_waiters id vs cs) ≡ with_waiters id ws cs
with_waiters_twice id vs ws [] = refl
with_waiters_twice id vs ws (c ∷ cs) = elim (Bool-cases (is_cvar id c)) [
  | inl e ↦ rw (e, e)
  | inr e ↦ rw (e, e) (rw (with_waiters_twice id vs ws cs))
]

-- The first waiter ready, and the others left.
abbrev pub signalled : ℤ → ℕ → List ℕ → Kernel → Kernel
signalled id p ps k = record k {
  cvar_list = with_waiters id ps k.cvar_list;
  ready_queue = k.ready_queue ++ p ∷ [];
}

-- All waiters are made ready, in their order.
wake_all_lem :
    (id : ℤ) (p : ℕ) (ps : List ℕ) (k : Kernel)
    → k.mallocs ≡ []
    → wake_all id (p ∷ ps) k
      ≡ done (pos 0) (record k {
        cvar_list = with_waiters id [] k.cvar_list;
        ready_queue = k.ready_queue ++ p ∷ ps;
      })
unfolding wake_all set_waiters
wake_all_lem id p [] k m =
    rw (put_ready_lem p (record k { cvar_list = with_waiters id [] k.cvar_list }) m)
wake_all_lem id p (q ∷ qs) k m =
    rw (put_ready_lem p (record k { cvar_list = with_waiters id (q ∷ qs) k.cvar_list }) m) (
      rw (wake_all_lem id q qs (signalled id p (q ∷ qs) k) m)
        (rw (with_waiters_twice id (q ∷ qs) [] k.cvar_list, append_assoc)))

module _ (k : Kernel) (m : k.mallocs ≡ []) (c : CvarInfo)
    (e : find (is_cvar (to_int k.uctxt.reg0)) k.cvar_list ≡ some c)
    (valid : ltb_ℤ (to_int k.uctxt.reg0) (pos 0) ≡ false) where
  pub sys_CvarSignal-wake :
      (p : ℕ) (ps : List ℕ)
      → c.cvar_wait_list ≡ p ∷ ps
      → sys_CvarSignal k ≡ done (pos 0) (signalled (to_int k.uctxt.reg0) p ps k)
  unfolding sys_CvarSignal
  sys_CvarSignal-wake p ps w = rw valid (
      ground (
        arith,
        put_ready_lem p
            (record k { cvar_list = with_waiters (to_int k.uctxt.reg0) ps k.cvar_list }),
      ))

  pub sys_CvarSignal-empty : c.cvar_wait_list ≡ [] → sys_CvarSignal k ≡ done (pos 0) k
  unfolding sys_CvarSignal
  sys_CvarSignal-empty w = rw valid (ground arith)

  -- Where `malloc` does not fail, sys_CvarBroadcast makes every waiter ready, in their order, and leaves none.
  pub sys_CvarBroadcast-wake :
      (p : ℕ) (ps : List ℕ)
      → c.cvar_wait_list ≡ p ∷ ps
      → sys_CvarBroadcast k
        ≡ done (pos 0) (record k {
          cvar_list = with_waiters (to_int k.uctxt.reg0) [] k.cvar_list;
          ready_queue = k.ready_queue ++ p ∷ ps;
        })
  unfolding sys_CvarBroadcast
  sys_CvarBroadcast-wake p ps w =
      rw valid (ground (arith, wake_all_lem (to_int k.uctxt.reg0) p ps k))

  pub sys_CvarBroadcast-empty : c.cvar_wait_list ≡ [] → sys_CvarBroadcast k ≡ done (pos 0) k
  unfolding sys_CvarBroadcast wake_all
  sys_CvarBroadcast-empty w = rw valid (ground arith)

pub sys_CvarSignal-negative :
    (k : Kernel) → ltb_ℤ (to_int k.uctxt.reg0) (pos 0) ≡ true → sys_CvarSignal k ≡ done error k
unfolding sys_CvarSignal
sys_CvarSignal-negative k neg = rw (neg)

pub sys_CvarBroadcast-negative :
    (k : Kernel) → ltb_ℤ (to_int k.uctxt.reg0) (pos 0) ≡ true → sys_CvarBroadcast k ≡ done error k
unfolding sys_CvarBroadcast
sys_CvarBroadcast-negative k neg = rw (neg)

-- Without such a cvar both return ERROR and do nothing.
pub sys_CvarSignal-none :
    (k : Kernel)
    → find (is_cvar (to_int k.uctxt.reg0)) k.cvar_list ≡ none
    → sys_CvarSignal k ≡ done error k
unfolding sys_CvarSignal
sys_CvarSignal-none k e = ground arith

pub sys_CvarBroadcast-none :
    (k : Kernel)
    → find (is_cvar (to_int k.uctxt.reg0)) k.cvar_list ≡ none
    → sys_CvarBroadcast k ≡ done error k
unfolding sys_CvarBroadcast
sys_CvarBroadcast-none k e = ground arith

pub cvar_queue-none :
    (fuel : ℕ) (id lock_id : ℤ) (k : Kernel)
    → find (is_cvar id) k.cvar_list ≡ none
    → cvar_queue fuel id lock_id k ≡ done error k
unfolding cvar_queue
cvar_queue-none fuel id lock_id k e = ground arith

-- The part of sys_CvarWait behind the release of the lock, which has led to `k`.
module _ (k : Kernel) (m : k.mallocs ≡ []) (p : ℕ) (act : k.active_proc ≡ some p) where
  abbrev pub queued_for_cvar : ℤ → Kernel
  queued_for_cvar id = record k {
    cvar_list =
        update_first (is_cvar id) (λ c. record c { cvar_wait_list = c.cvar_wait_list ++ p ∷ [] })
          k.cvar_list;
  }

  pub cvar_queue-wait :
      (fuel : ℕ) (id lock_id : ℤ) (c : CvarInfo)
      → find (is_cvar id) k.cvar_list ≡ some c
      → cvar_queue fuel id lock_id k
        ≡ and_then
            (normal_schedule (cvar_wait id lock_id) (queued_for_cvar id))
            (cvar_resume fuel id lock_id)
  unfolding cvar_queue insert_last
  cvar_queue-wait fuel id lock_id c e = ground (arith, malloc_lem k)
