-- ===== src/Untouched/Locks.antt =====
-- What the calls of locks leave as it was, and sys_CvarWait, which uses them.
use mathlib.Core.Path.{sym}
use sc0x3a.Kernel.Memory.{write_int}
use sc0x3a.Base.{
  ℕ, zero, suc, ◌+◌, ◌≡◌, refl, ◌∙◌, find, update_first, ◌⊎◌, ◌++◌, ap, not, eqb_ℤ, ltb_ℤ,
  remove_first, List-cases, find_passes, Bool-cases, Option-cases, inl, inr, Bool, true, false,
  some, [], ◌∷◌, arith, ℤ, pos, error, length, to_int, ◌==◌,
}
use sc0x3a.Kernel.{Kernel, LockInfo, Kind, Point, lock_wait, cvar_wait}
use sc0x3a.Kernel.Monad.{
  M, Keeps, Keeps-bind, pure, get, put, current, malloc, insert_last, put_ready, ◌>>=◌,
}
use sc0x3a.Scheduler.{normal_schedule, unblock}
use sc0x3a.Lock.{
  sys_LockInit, wait_for_lock, acquire_check, acquire_loop, acquire_back, sys_Acquire, sys_Release,
  destroy_lock_info, held_by, destroyable, is_lock, asked_lock, lock_at, malloc_at,
}
use sc0x3a.Cvar.{is_cvar, cvar_back, cvar_resume, cvar_queue, sys_CvarWait}
use sc0x3a.Untouched.{
  Part, pids, boot, locks, sems, pipes, fits, balanced, drains, held, holder, Kept, Leaves,
  Leaves-bind, Leaves-elim, Keeps-current, Leaves-at, Leaves-from, Kept-refl, Kept-trans, Keeps-and,
  Leaves-edit, Leaves-snapshot, Leaves-modify, Leaves-pure, Leaves-get, Leaves-if, Leaves-current,
  Leaves-malloc, Leaves-out_of_fuel, leaves_rules,
}
use sc0x3a.Untouched.Holder.{
  holds, holder-update_same, holder-update_first, holder-remove_first, holder-append,
}
use sc0x3a.Untouched.Switching.{Leaves-normal_schedule, Leaves-put_ready, Leaves-unblock}
use sc0x3a.Untouched.Cvars.{Leaves-malloc_at, Leaves-put_reclaim, Leaves-write_int}

-- All but the locks is as it was.
pub record StillButLocks (k k' : Kernel) : Type 0 where
  pub pids : k'.next_pid ≡ k.next_pid
  pub boot : k'.boot ≡ k.boot
  pub sems : k'.sem_list ≡ k.sem_list
  pub pipes : k'.pipe_list ≡ k.pipe_list

abbrev pub not_locks : Part → Bool
not_locks locks = false
not_locks _ = true

-- What a change of the list of locks keeps: all but the list, and the holder of each lock, where it does.
Kept-set_locks :
    (x : Part) (k k' : Kernel)
    → not_locks x ≡ true
    → StillButLocks k k'
    → ((n q : ℕ) → x ≡ held n q → holder n k.lock_list ≡ some q → holder n k'.lock_list ≡ some q)
    → Kept x k k'
unfolding Kept
Kept-set_locks pids k k' t s h = s.pids
Kept-set_locks boot k k' t s h = s.boot
Kept-set_locks locks k k' t s h = absurd (cc)
Kept-set_locks sems k k' t s h = s.sems
Kept-set_locks pipes k k' t s h = s.pipes
Kept-set_locks fits k k' t s h = λ a. rw (s.pipes) a
Kept-set_locks balanced k k' t s h = λ a. rw (s.sems) a
Kept-set_locks (drains id cs) k k' t s h = λ a. rw (s.pipes) a
Kept-set_locks (held n q) k k' t s h = h n q refl

-- Whether `p` is the holder that the fact is about.
abbrev pub releases : Part → ℕ → Bool
releases (held n q) p = q == p
releases _ p = false

module _ (x : Part) (t : not_locks x ≡ true) where
  wait_for_lock-Leaves : (a w : ℕ) → Leaves x (wait_for_lock a w)
  unfolding wait_for_lock
  wait_for_lock-Leaves a w = Leaves-bind x malloc _ (Leaves-malloc x) λ b.
      let g =
        λ (l : LockInfo). record l { lock_wait_list = (insert_last l.lock_wait_list w b).0 } in
      Leaves-modify x (λ k. record k { lock_list = update_first (lock_at a) g k.lock_list }) _
        (λ k.
          Kept-set_locks x k (record k { lock_list = update_first (lock_at a) g k.lock_list }) t
            (ground arith)
            λ n q _ h.
              holder-update_same n q (lock_at a) g k.lock_list (λ l. refl) (λ l. refl) (λ l. refl)
              ∙ h)
        λ k. Leaves-pure x tt

  -- A free lock is taken.
  takes :
      (a p : ℕ) (l : LockInfo) (k : Kernel)
      → find (lock_at a) k.lock_list ≡ some l
      → l.locked ≡ false
      → Kept x k (record k {
        lock_list = update_first (lock_at a) (λ l. record l { locked = true; pid = p }) k.lock_list;
      })
  takes a p l k f free =
      let g = λ (l : LockInfo). record l { locked = true; pid = p } in
      Kept-set_locks x k (record k { lock_list = update_first (lock_at a) g k.lock_list }) t
        (ground arith)
        λ n q _ h.
          holder-update_first n q (lock_at a) g k.lock_list (λ l. refl)
            (λ m e. let same : m ≡ l = ground (arith, f, e) in ground (arith, free, same)) h

  acquire_check-Leaves :
      (id : ℤ) (exist : Bool) (loop : M ℤ) (rc : ℤ)
      → Leaves x loop
      → Leaves x (acquire_check id exist loop rc)
  unfolding acquire_check
  acquire_check-Leaves id exist loop rc s =
      Leaves-if x _ _ _ (Leaves-pure x error)
        (Leaves-bind x get _ (Leaves-get x) λ k. Leaves-if x _ _ _ (Leaves-pure x error) s)

  wait_again-Leaves :
      (a p : ℕ) (id : ℤ) (exist : Bool) (pt : Point) (loop : M ℤ)
      → Leaves x loop
      → Leaves x (wait_for_lock a p >>= λ _. normal_schedule pt >>= acquire_check id exist loop)
  wait_again-Leaves a p id exist pt loop s =
      Leaves-bind x (wait_for_lock a p) _ (wait_for_lock-Leaves a p) λ _.
        Leaves-bind x (normal_schedule pt) _ (Leaves-normal_schedule x pt)
          λ rc. acquire_check-Leaves id exist loop rc s

  acquire_loop-Leaves :
      (fuel a : ℕ) (id : ℤ) (exist in_cvar : Bool) → Leaves x (acquire_loop fuel a id exist in_cvar)
  unfolding acquire_loop
  acquire_loop-Leaves zero a id exist in_cvar = Leaves-out_of_fuel x ℤ
  acquire_loop-Leaves (suc fuel) a id exist in_cvar = Leaves-snapshot x _ λ k p act.
      elim (Option-cases (find (lock_at a) k.lock_list)) [
        | inl f ↦ rw (f) tt
        | inr (l, f) ↦ elim (Bool-cases l.locked) [
          | inl taken ↦ rw (f) (
              rw (taken) (
                Leaves-at x _
                  (wait_again-Leaves a p id exist (lock_wait a id exist in_cvar) _
                    (acquire_loop-Leaves fuel a id true in_cvar))
                  k))
          | inr free ↦ rw (f) (rw (free) (takes a p l k f free))
        ]
      ]

  pub Leaves-acquire_back :
      (fuel a : ℕ) (id : ℤ) (exist in_cvar : Bool) → Leaves x (acquire_back fuel a id exist in_cvar)
  unfolding acquire_back
  Leaves-acquire_back fuel a id exist in_cvar =
      acquire_check-Leaves id exist (acquire_loop fuel a id true in_cvar) (pos 0)
        (acquire_loop-Leaves fuel a id true in_cvar)

  pub Leaves-sys_Acquire :
      (fuel : ℕ) (id : ℤ) (in_cvar : Bool) → Leaves x (sys_Acquire fuel id in_cvar)
  unfolding sys_Acquire
  Leaves-sys_Acquire fuel id in_cvar = Leaves-bind x get _ (Leaves-get x) λ k.
      Leaves-if x _ _ _ (Leaves-pure x (pos 0)) (
        Leaves-elim x (find (is_lock (asked_lock id k)) k.lock_list) _ _ (Leaves-pure x error)
          λ l. acquire_loop-Leaves fuel l.addr (asked_lock id k) false in_cvar)

  pub Leaves-cvar_back : (fuel : ℕ) (id lock_id : ℤ) → Leaves x (cvar_back fuel id lock_id)
  unfolding cvar_back
  Leaves-cvar_back fuel id lock_id = search (leaves_rules, Leaves-sys_Acquire) depth 12

  cvar_resume-Leaves : (fuel : ℕ) (id lock_id rc : ℤ) → Leaves x (cvar_resume fuel id lock_id rc)
  unfolding cvar_resume
  cvar_resume-Leaves fuel id lock_id rc =
      Leaves-if x _ _ _ (Leaves-pure x error) (Leaves-cvar_back fuel id lock_id)

  cvar_queue-Leaves : (fuel : ℕ) (id lock_id : ℤ) → Leaves x (cvar_queue fuel id lock_id)
  unfolding cvar_queue
  cvar_queue-Leaves fuel id lock_id = Leaves-bind x get _ (Leaves-get x) λ k.
      Leaves-elim x (find (is_cvar id) k.cvar_list) _ _ (Leaves-pure x error) λ c.
        Leaves-bind x current _ (Leaves-current x) λ p.
          Leaves-bind x malloc _ (Leaves-malloc x) λ b.
            Leaves-edit x
              (λ k. record k {
                cvar_list =
                    update_first (is_cvar id)
                      (λ c. record c { cvar_wait_list = (insert_last c.cvar_wait_list p b).0 })
                      k.cvar_list;
              })
              _ (λ k. ground arith)
              λ k.
                Leaves-bind x (normal_schedule (cvar_wait id lock_id)) _
                  (Leaves-normal_schedule x (cvar_wait id lock_id))
                  λ rc. cvar_resume-Leaves fuel id lock_id rc

  -- A new lock is entered, or is not.
  adds :
      (l : LockInfo) (b : Bool) (k : Kernel)
      → Kept x k (record k { lock_list = (insert_last k.lock_list l b).0 })
  unfolding insert_last
  adds l true k =
      Kept-set_locks x k (record k { lock_list = k.lock_list ++ l ∷ [] }) t (ground arith)
        λ n q _ h. holder-append n q k.lock_list (l ∷ []) h
  adds l false k = Kept-refl x k

  pub Leaves-sys_LockInit : Leaves x sys_LockInit
  unfolding sys_LockInit
  Leaves-sys_LockInit = Leaves-bind x malloc_at _ (Leaves-malloc_at x) λ c.
      Leaves-bind x malloc _ (Leaves-malloc x) λ r.
        Leaves-elim x c _ _ (Leaves-pure x error) λ addr. Leaves-if x _ _ _ (Leaves-pure x error) (
          Leaves-bind x get _ (Leaves-get x) λ k. Leaves-bind x malloc _ (Leaves-malloc x) λ h.
            Leaves-if x _ _ _ (Leaves-pure x error) (
              let id = length k.reclaim_list + 1 in
              let l : LockInfo = record {
                addr = addr;
                lockid = id;
                locked = false;
                pid = 0;
                lock_wait_list = [];
              } in
              Leaves-bind x (write_int k.uctxt.reg0 (pos id)) _
                (Leaves-write_int x k.uctxt.reg0 (pos id))
                λ _. Leaves-bind x malloc _ (Leaves-malloc x) λ b.
                  Leaves-modify x (λ k. record k { lock_list = (insert_last k.lock_list l b).0 }) _
                    (adds l b)
                    λ k.
                      Leaves-if x _ _ _ (Leaves-pure x (insert_last k.lock_list l b).1)
                        (Leaves-put_reclaim x (record { id = id; kind = Kind.lock }))))

  -- A process runs that does not hold the lock in question.
  module _ (p : ℕ) (other : releases x p ≡ false) where
    not_ours :
        (n q : ℕ) (l : LockInfo)
        → x ≡ held n q
        → (l.pid ≡ p) ⊎ (l.locked ≡ false)
        → holds n q l ≡ false
    not_ours n q l e (inl mine) =
        let differs : (q == p) ≡ false = ap (λ y. releases y p) (sym e) ∙ other in
        ground (arith, mine)
    not_ours n q l e (inr free) = ground (arith, free)

    changes :
        (test : LockInfo → Bool) (g : LockInfo → LockInfo) (l : LockInfo) (k : Kernel)
        → find test k.lock_list ≡ some l
        → l.pid ≡ p
        → ((m : LockInfo) → (g m).addr ≡ m.addr)
        → Kept x k (record k { lock_list = update_first test g k.lock_list })
    changes test g l k f mine same =
        Kept-set_locks x k (record k { lock_list = update_first test g k.lock_list }) t
          (ground arith)
          λ n q e h.
            holder-update_first n q test g k.lock_list (λ m. rw (same m))
              (λ m f'.
                let found : m ≡ l = ground (arith, f, f') in
                rw (found) (not_ours n q l e (inl mine)))
              h

    pub Kept-sys_Release :
        (id : ℤ) (k : Kernel) → k.active_proc ≡ some p → Keeps (Kept x k) (sys_Release id k)
    unfolding sys_Release
    Kept-sys_Release id k act = elim (Option-cases (find (held_by id p) k.lock_list)) [
      | inl f ↦ Keeps-current (Kept x k) _ k p act (rw (f) (Kept-refl x k))
      | inr (l, f) ↦
          let passes = find_passes (held_by id p) l k.lock_list f in
          let mine : l.pid ≡ p = ground (arith, passes) in
          elim (List-cases l.lock_wait_list) [
            | inl w ↦ Keeps-current (Kept x k) _ k p act (
                rw (f) (
                  rw (w) (
                    changes (held_by id p) (λ l. record l { locked = false; pid = 0 }) l k f mine
                      λ m. refl)))
            | inr (v, vs, w) ↦
                let g =
                  λ (l : LockInfo). record l { locked = false; pid = v; lock_wait_list = vs } in
                Keeps-current (Kept x k) _ k p act (
                  rw (f) (
                    rw (w) (
                      Leaves-from x (put_ready v >>= λ _. pure (pos 0)) k
                        (record k { lock_list = update_first (held_by id p) g k.lock_list })
                        (Leaves-bind x (put_ready v) _ (Leaves-put_ready x v)
                          λ _. Leaves-pure x (pos 0))
                        (changes (held_by id p) g l k f mine λ m. refl))))
          ]
    ]

    destroyable_cases :
        (id : ℤ) (l : LockInfo) → destroyable id p l ≡ true → (l.pid ≡ p) ⊎ (l.locked ≡ false)
    destroyable_cases id l e = ground arith

    removes :
        (id : ℤ) (l : LockInfo) (k : Kernel)
        → find (destroyable id p) k.lock_list ≡ some l
        → Kept x k (record k { lock_list = remove_first (destroyable id p) k.lock_list })
    removes id l k f =
        let passes = find_passes (destroyable id p) l k.lock_list f in
        let out : (l.pid ≡ p) ⊎ (l.locked ≡ false) = destroyable_cases id l passes in
        Kept-set_locks x k (record k { lock_list = remove_first (destroyable id p) k.lock_list }) t
          (ground arith)
          λ n q e h.
            holder-remove_first n q (destroyable id p) k.lock_list
              (λ m f'.
                let found : m ≡ l = ground (arith, f, f') in rw (found) (not_ours n q l e out))
              h

    destroys :
        (id : ℤ) (l : LockInfo) (k : Kernel)
        → find (destroyable id p) k.lock_list ≡ some l
        → Keeps (Kept x k) (
            (unblock 1 l.lock_wait_list >>= λ _. get >>= λ k'.
            put (record k' { lock_list = remove_first (destroyable id p) k'.lock_list }) >>= λ _.
            pure (pos 0))
              k)
    unfolding Kept Leaves
    destroys id l k f =
        Keeps-bind (λ k'. Kept x k k' × Kept locks k k') (Kept x k) (unblock 1 l.lock_wait_list k) _
          (Keeps-and (Kept x k) (Kept locks k) (unblock 1 l.lock_wait_list k)
            (Leaves-unblock x 1 l.lock_wait_list k) (Leaves-unblock locks 1 l.lock_wait_list k))
          (λ k₁ (e, _). e)
          λ _ k₁ (e, same).
            let found : find (destroyable id p) k₁.lock_list ≡ some l = rw (same) f in
            Kept-trans x k k₁ _ e (removes id l k₁ found)

    pub Kept-destroy_lock_info :
        (id : ℤ) (k : Kernel) → k.active_proc ≡ some p → Keeps (Kept x k) (destroy_lock_info id k)
    unfolding destroy_lock_info
    Kept-destroy_lock_info id k act = elim (Bool-cases (ltb_ℤ id (pos 0))) [
      | inl neg ↦ rw (neg) (Kept-refl x k)
      | inr ge ↦ rw (ge) (
          Keeps-current (Kept x k) _ k p act
            (elim (Option-cases (find (destroyable id p) k.lock_list)) [
              | inl f ↦ rw (f) (Kept-refl x k)
              | inr (l, f) ↦ rw (f) (destroys id l k f)
            ]))
    ]

    pub Kept-sys_CvarWait :
        (fuel : ℕ) (k : Kernel) → k.active_proc ≡ some p → Keeps (Kept x k) (sys_CvarWait fuel k)
    unfolding sys_CvarWait
    Kept-sys_CvarWait fuel k act =
        let cvar_id = to_int k.uctxt.reg0 in
        let lock_id = to_int k.uctxt.reg1 in
        Keeps-bind (Kept x k) (Kept x k) (sys_Release lock_id k) _ (Kept-sys_Release lock_id k act)
          (λ k₁ e. e)
          λ rc k₁ e.
            Leaves-from x _ k k₁
              (Leaves-if x (not (eqb_ℤ rc (pos 0))) _ _ (Leaves-pure x error)
                (cvar_queue-Leaves fuel cvar_id lock_id))
              e
