-- ===== src/Places/Destroyed.antt =====
-- Where the waiters are after the destruction of a lock, a condition variable or a pipe.
use sc0x3a.Base.{
  ℕ, zero, suc, ◌+◌, ◌/◌, ◌≡◌, refl, false, some, List, [], ◌∷◌, ◌++◌, arith, count, count-append,
  find, remove_first, ℤ, pos, ltb_ℤ, length, take, drop,
}
use sc0x3a.Kernel.{Kernel, LockInfo, CvarInfo, PipeInfo}
use sc0x3a.Kernel.Monad.{Does, done}
use sc0x3a.Lock.{destroy_lock_info, destroyable}
use sc0x3a.Cvar.{destroy_cvar_info, is_cvar}
use sc0x3a.Pipe.{destroy_pipe_info, is_pipe}
use sc0x3a.Scheduler.Unblock.{unblock-half}
use sc0x3a.Places.{places, lock_waiters, cvar_waiters, pipe_waiters}
use sc0x3a.Places.Counting.{count_in-remove_first}

count-take-drop : (a n : ℕ) (ws : List ℕ) → count a (take n ws) + count a (drop n ws) ≡ count a ws
count-take-drop a zero ws = omega arith
count-take-drop a (suc n) [] = omega arith
count-take-drop a (suc n) (w ∷ ws) = omega (arith, count-take-drop a n ws)

-- The waiters that are not made ready.
abbrev pub left_behind : List ℕ → List ℕ
left_behind ws = drop ((length ws + 1) / 2) ws

-- The call returns 0, and the waiters `ws` that it leaves behind stand nowhere any more.
abbrev pub Loses : ℕ → List ℕ → Kernel → ℤ → Kernel → Type 0
Loses a ws k rc k' = (rc ≡ pos 0) × (places a k' + count a (left_behind ws) ≡ places a k)

destroy_lock_info_eq :
    (k : Kernel) (id : ℤ) (p : ℕ) (l : LockInfo)
    → k.mallocs ≡ []
    → ltb_ℤ id (pos 0) ≡ false
    → k.active_proc ≡ some p
    → find (destroyable id p) k.lock_list ≡ some l
    → destroy_lock_info id k
      ≡ done (pos 0) (record k {
        ready_queue = k.ready_queue ++ take ((length l.lock_wait_list + 1) / 2) l.lock_wait_list;
        lock_list = remove_first (destroyable id p) k.lock_list;
      })
unfolding destroy_lock_info
destroy_lock_info_eq k id p l m valid act e =
    rw (valid) (ground (arith, unblock-half l.lock_wait_list k))

module _ (a : ℕ) (k : Kernel) (m : k.mallocs ≡ []) (id : ℤ) (valid : ltb_ℤ id (pos 0) ≡ false) where
  -- Where `malloc` does not fail, the destruction of a lock that is free or the caller's own loses, of
  -- its waiters in their order, those behind the first half, rounded up.
  pub destroy_lock_info-Loses :
      (p : ℕ) (l : LockInfo)
      → k.active_proc ≡ some p
      → find (destroyable id p) k.lock_list ≡ some l
      → Does (Loses a l.lock_wait_list k) (destroy_lock_info id k)
  destroy_lock_info-Loses p l act e =
      let ws = l.lock_wait_list in
      rw (destroy_lock_info_eq k id p l m valid act e) (
        refl,
        omega (
          arith,
          count-take-drop a ((length ws + 1) / 2) ws,
          count-append a k.ready_queue (take ((length ws + 1) / 2) ws),
          count_in-remove_first lock_waiters a (destroyable id p) l k.lock_list e,
        ),
      )

  -- Where `malloc` does not fail, the destruction of a condition variable loses, of its waiters in their
  -- order, those behind the first half, rounded up.
  pub destroy_cvar_info-Loses :
      (c : CvarInfo)
      → find (is_cvar id) k.cvar_list ≡ some c
      → Does (Loses a c.cvar_wait_list k) (destroy_cvar_info id k)
  unfolding destroy_cvar_info
  destroy_cvar_info-Loses c e =
      let ws = c.cvar_wait_list in
      rw (valid, e, unblock-half ws k m)
        (
          refl,
          omega (
            arith,
            count-take-drop a ((length ws + 1) / 2) ws,
            count-append a k.ready_queue (take ((length ws + 1) / 2) ws),
            count_in-remove_first cvar_waiters a (is_cvar id) c k.cvar_list e,
          ),
        )

  -- Where `malloc` does not fail, the destruction of a pipe loses, of its waiters in their order, those
  -- behind the first half, rounded up.
  pub destroy_pipe_info-Loses :
      (q : PipeInfo)
      → find (is_pipe id) k.pipe_list ≡ some q
      → Does (Loses a q.pipe_wait_list k) (destroy_pipe_info id k)
  unfolding destroy_pipe_info
  destroy_pipe_info-Loses q e =
      let ws = q.pipe_wait_list in
      rw (valid, e, unblock-half ws k m)
        (
          refl,
          omega (
            arith,
            count-take-drop a ((length ws + 1) / 2) ws,
            count-append a k.ready_queue (take ((length ws + 1) / 2) ws),
            count_in-remove_first pipe_waiters a (is_pipe id) q k.pipe_list e,
          ),
        )
