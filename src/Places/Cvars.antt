-- ===== src/Places/Cvars.antt =====
-- Where the processes are around sys_CvarSignal, sys_CvarBroadcast and sys_CvarWait.
use sc0x3a.Base.{
  ℕ, ◌+◌, ◌≡◌, refl, ap, inl, inr, some, List, [], ◌∷◌, ◌++◌, arith, count, count-append, find,
  update_first, ℤ, pos, to_int, ltb_ℤ, eqb_ℤ, Bool-cases, Option-cases, List-cases,
}
use sc0x3a.Kernel.{Kernel, CvarInfo, cvar_wait}
use sc0x3a.Kernel.Monad.{Keeps, Keeps-bind}
use sc0x3a.Cvar.{sys_CvarSignal, sys_CvarBroadcast, sys_CvarWait, is_cvar, cvar_queue, cvar_resume}
use sc0x3a.Lock.{sys_Release, held_by}
use sc0x3a.Lock.Steps.{sys_Release-free, sys_Release-wake, sys_Release-none}
use sc0x3a.Cvar.Steps.{
  sys_CvarSignal-negative, sys_CvarSignal-none, sys_CvarSignal-empty, sys_CvarSignal-wake,
  sys_CvarBroadcast-negative, sys_CvarBroadcast-none, sys_CvarBroadcast-empty,
  sys_CvarBroadcast-wake, queued_for_cvar, cvar_queue-none, cvar_queue-wait,
}
use sc0x3a.Places.{count_in, count_active, cvar_waiters}
use sc0x3a.Places.Counting.{Same, block-Same, count_in-update_first}
use sc0x3a.Places.Lock.{sys_Release-places}

-- What the replacement of the waiters of the first cvar with an id changes.
with_waiters-count :
    (a : ℕ) (id : ℤ) (ws : List ℕ) (c : CvarInfo) (k : Kernel)
    → find (is_cvar id) k.cvar_list ≡ some c
    → count_in cvar_waiters a
          (update_first (is_cvar id) (λ c. record c { cvar_wait_list = ws }) k.cvar_list)
        + count a c.cvar_wait_list
      ≡ count_in cvar_waiters a k.cvar_list + count a ws
with_waiters-count a id ws c k e =
    count_in-update_first cvar_waiters a (is_cvar id) (λ c. record c { cvar_wait_list = ws }) c
      k.cvar_list e

-- Where `malloc` does not fail, sys_CvarSignal leaves every process in as many places as it was.
pub sys_CvarSignal-places :
    (a : ℕ) (k : Kernel) → k.mallocs ≡ [] → Keeps (Same a k) (sys_CvarSignal k)
sys_CvarSignal-places a k m =
    let id = to_int k.uctxt.reg0 in
    elim (Bool-cases (ltb_ℤ id (pos 0))) [
      | inl neg ↦ rw (sys_CvarSignal-negative k neg)
      | inr ge ↦ elim (Option-cases (find (is_cvar id) k.cvar_list)) [
        | inl e ↦ rw (sys_CvarSignal-none k e)
        | inr (c, e) ↦ elim (List-cases c.cvar_wait_list) [
          | inl w ↦ rw (sys_CvarSignal-empty k m c e ge w)
          | inr (q, qs, w) ↦ rw (sys_CvarSignal-wake k m c e ge q qs w) (
              omega (
                arith,
                ap (count a) w,
                with_waiters-count a id qs c k e,
                count-append a k.ready_queue (q ∷ []),
              ))
        ]
      ]
    ]

-- Where `malloc` does not fail, sys_CvarBroadcast leaves every process in as many places as it was.
pub sys_CvarBroadcast-places :
    (a : ℕ) (k : Kernel) → k.mallocs ≡ [] → Keeps (Same a k) (sys_CvarBroadcast k)
sys_CvarBroadcast-places a k m =
    let id = to_int k.uctxt.reg0 in
    elim (Bool-cases (ltb_ℤ id (pos 0))) [
      | inl neg ↦ rw (sys_CvarBroadcast-negative k neg)
      | inr ge ↦ elim (Option-cases (find (is_cvar id) k.cvar_list)) [
        | inl e ↦ rw (sys_CvarBroadcast-none k e)
        | inr (c, e) ↦ elim (List-cases c.cvar_wait_list) [
          | inl w ↦ rw (sys_CvarBroadcast-empty k m c e ge w)
          | inr (q, qs, w) ↦ rw (sys_CvarBroadcast-wake k m c e ge q qs w) (
              omega (
                arith,
                ap (count a) w,
                with_waiters-count a id [] c k e,
                count-append a k.ready_queue (q ∷ qs),
              ))
        ]
      ]
    ]

-- What the release of the lock leaves for the rest of sys_CvarWait.
abbrev Released : ℕ → ℕ → Kernel → Kernel → Type 0
Released a p k k' =
    Same a k k'
    × (k'.mallocs ≡ [])
    × (k'.active_proc ≡ some p)
    × ((x : ℕ) × (xs : List ℕ) × (k'.ready_queue ≡ x ∷ xs))

module _ (a p x : ℕ) (xs : List ℕ) (k : Kernel) (m : k.mallocs ≡ []) (act : k.active_proc ≡ some p)
    (r : k.ready_queue ≡ x ∷ xs) where
  sys_Release-Released : (lock_id : ℤ) → Keeps (Released a p k) (sys_Release lock_id k)
  sys_Release-Released lock_id =
      let same = sys_Release-places a lock_id p k m act in
      elim (Option-cases (find (held_by lock_id p) k.lock_list)) [
        | inl f ↦ rw (sys_Release-none k m p act lock_id f) (refl, m, act, (x, xs, r))
        | inr (l, f) ↦ elim (List-cases l.lock_wait_list) [
          | inl w ↦
              let e = sys_Release-free k m p act lock_id l f w in
              rw (e) ((rw (e) at same), m, act, (x, xs, r))
          | inr (q, qs, w) ↦
              let e = sys_Release-wake k m p act lock_id l q qs f w in
              rw (e) ((rw (e) at same), m, act, (x, xs ++ q ∷ [], ap (λ ys. ys ++ q ∷ []) r))
        ]
      ]

cvar_queue-places :
    (a p : ℕ) (k k' : Kernel) (fuel : ℕ) (id lock_id : ℤ)
    → Released a p k k'
    → Keeps (Same a k) (cvar_queue fuel id lock_id k')
cvar_queue-places a p k k' fuel id lock_id (same, m, act, (x, xs, r)) =
    elim (Option-cases (find (is_cvar id) k'.cvar_list)) [
      | inl e ↦ rw (cvar_queue-none fuel id lock_id k' e) same
      | inr (c, e) ↦ rw (cvar_queue-wait k' m p act fuel id lock_id c e) (
          block-Same a x xs (cvar_wait id lock_id) k (queued_for_cvar k' m p act id)
            (cvar_resume fuel id lock_id) m r
            (omega (
              arith,
              same,
              ap (count_active a) act,
              count-append a c.cvar_wait_list (p ∷ []),
              count_in-update_first cvar_waiters a (is_cvar id)
                  (λ c. record c { cvar_wait_list = c.cvar_wait_list ++ p ∷ [] }) c k'.cvar_list e,
            )))
    ]

-- Where `malloc` does not fail and another process is ready, sys_CvarWait, which releases the lock and
-- then waits, leaves every process in as many places as it was.
pub sys_CvarWait-places :
    (a fuel p x : ℕ) (xs : List ℕ) (k : Kernel)
    → k.mallocs ≡ []
    → k.active_proc ≡ some p
    → k.ready_queue ≡ x ∷ xs
    → Keeps (Same a k) (sys_CvarWait fuel k)
unfolding sys_CvarWait
sys_CvarWait-places a fuel p x xs k m act r =
    Keeps-bind (Released a p k) (Same a k) (sys_Release (to_int k.uctxt.reg1) k) _
      (sys_Release-Released a p x xs k m act r (to_int k.uctxt.reg1)) (λ k' s. s.0)
      λ rc k' s. elim (Bool-cases (eqb_ℤ rc (pos 0))) [
        | inl z ↦
            rw (z) (cvar_queue-places a p k k' fuel (to_int k.uctxt.reg0) (to_int k.uctxt.reg1) s)
        | inr z ↦ rw (z) s.0
      ]
