-- ===== src/Places/Created.antt =====
-- Where the processes are around the calls that create a pipe, a condition variable or a semaphore.
use sc0x3a.Base.{ℕ, ◌+◌, ◌≡◌, inl, inr, [], ◌∷◌, ◌++◌, arith, length, pos}
use sc0x3a.Kernel.{Kernel, PipeInfo, CvarInfo, Semaphore, Kind}
use sc0x3a.Kernel.Monad.{Keeps, malloc_lem}
use sc0x3a.Kernel.Memory.Frame.{write_int_cases}
use sc0x3a.Lock.{malloc_at_lem, put_reclaim_lem}
use sc0x3a.Pipe.{sys_PipeInit}
use sc0x3a.Cvar.{sys_CvarInit}
use sc0x3a.Semaphore.{sys_Custom_0}
use sc0x3a.Places.{count_in, pipe_waiters, cvar_waiters, sem_waiters}
use sc0x3a.Places.Counting.{Same, count_in-append}

module _ (a : ℕ) (k : Kernel) (m : k.mallocs ≡ []) where
  -- The state in which the new object has its address.
  abbrev fresh_one : Kernel
  fresh_one = record k { fresh = k.fresh + 1 }

  pub sys_PipeInit-places : Keeps (Same a k) (sys_PipeInit k)
  unfolding sys_PipeInit count_in
  sys_PipeInit-places =
      let n = length k.reclaim_list + 1 in
      let p : PipeInfo = record {
        addr = k.fresh;
        pipeid = n;
        cur_len = 0;
        pipe_buffer = λ i. 0;
        pipe_wait_list = [];
      } in
      elim (write_int_cases k.uctxt.reg0 (pos n) fresh_one) [
        | inl e ↦
            rw
              (
                malloc_at_lem k m,
                malloc_lem fresh_one m,
                malloc_lem fresh_one m,
                malloc_lem fresh_one m,
                e,
              )
              tt
        | inr (f, e) ↦
            let k₂ = record fresh_one { phys = f } in
            rw
              (
                malloc_at_lem k m,
                malloc_lem fresh_one m,
                malloc_lem fresh_one m,
                malloc_lem fresh_one m,
                e,
                malloc_lem k₂ m,
              )
              (rw
                (put_reclaim_lem (record { id = n; kind = Kind.pipe })
                  (record k₂ { pipe_list = k.pipe_list ++ p ∷ [] }) m)
                (omega (arith, count_in-append pipe_waiters a k.pipe_list (p ∷ []))))
      ]

  pub sys_CvarInit-places : Keeps (Same a k) (sys_CvarInit k)
  unfolding sys_CvarInit count_in
  sys_CvarInit-places =
      let n = length k.reclaim_list + 1 in
      let c : CvarInfo = record { addr = k.fresh; cvarid = n; cvar_wait_list = [] } in
      elim (write_int_cases k.uctxt.reg0 (pos n) fresh_one) [
        | inl e ↦ rw (malloc_lem k m, malloc_at_lem k m, malloc_lem fresh_one m, e) tt
        | inr (f, e) ↦
            let k₂ = record fresh_one { phys = f } in
            rw (malloc_lem k m, malloc_at_lem k m, malloc_lem fresh_one m, e, malloc_lem k₂ m)
              (rw
                (put_reclaim_lem (record { id = n; kind = Kind.cvar })
                  (record k₂ { cvar_list = k.cvar_list ++ c ∷ [] }) m)
                (omega (arith, count_in-append cvar_waiters a k.cvar_list (c ∷ []))))
      ]

  pub sys_Custom_0-places : Keeps (Same a k) (sys_Custom_0 k)
  unfolding sys_Custom_0 count_in
  sys_Custom_0-places =
      let s : Semaphore = record { addr = k.fresh; id = k.next_sem; count = pos 0; waiting = [] } in
      let k₁ = record fresh_one { next_sem = k.next_sem + 1 } in
      rw (malloc_at_lem k m, malloc_lem k₁ m, malloc_lem k₁ m)
        (omega (arith, count_in-append sem_waiters a k.sem_list (s ∷ [])))
