-- ===== src/Pipe/Reads.antt =====
-- What sys_PipeRead does to a pipe, branch by branch, where `malloc` does not fail.
use sc0x3a.Base.{
  ℕ, suc, ◌≡◌, Bool, true, false, not, none, some, [], if◌then◌else◌, find, update_first,
  find-update_first, pos, pos_part, error, to_int, ltb_ℤ, eqb_ℤ,
}
use sc0x3a.Kernel.{Kernel, PipeInfo, pipe_wait}
use sc0x3a.Kernel.Monad.{done, fault, and_then, insert_last, malloc_lem, current_lem, pure}
use sc0x3a.Kernel.Memory.{write_bytes}
use sc0x3a.Scheduler.{normal_schedule}
use sc0x3a.Pipe.{
  is_pipe, pipe_at, bytes, can_free, free_moved, take_bytes, wait_for_pipe, read_pipe, pipe_loop,
  pipe_back, sys_PipeRead,
}
use sc0x3a.Pipe.Steps.{
  woken, wake_reader_lem, pipe_args, pipe_id, queued_for_pipe, take_bytes-pipe_at,
  take_bytes-waiting,
}

module _ (k : Kernel) (m : k.mallocs ≡ []) (w : ℕ) (a : k.active_proc ≡ some w) where
  pub sys_PipeRead-invalid : (fuel : ℕ) → pipe_args k w ≡ true → sys_PipeRead fuel k ≡ done error k
  unfolding sys_PipeRead
  sys_PipeRead-invalid fuel v = rw (current_lem k w a) (rw (v))

  pub sys_PipeRead-missing :
      (fuel : ℕ)
      → pipe_args k w ≡ false
      → find (is_pipe (pipe_id k)) k.pipe_list ≡ none
      → sys_PipeRead fuel k ≡ done error k
  unfolding sys_PipeRead
  sys_PipeRead-missing fuel v e = rw (current_lem k w a) (rw (v, e))

  -- With valid arguments and a pipe of that id, the call is its loop.
  pub sys_PipeRead-pipe_loop :
      (fuel : ℕ) (p : PipeInfo)
      → pipe_args k w ≡ false
      → find (is_pipe (pipe_id k)) k.pipe_list ≡ some p
      → sys_PipeRead fuel k ≡ pipe_loop fuel p.addr false k
  unfolding sys_PipeRead
  sys_PipeRead-pipe_loop fuel p v e = rw (current_lem k w a) (rw (v, e))

  module _ (fuel n : ℕ) (exist : Bool) where
    pub pipe_loop-gone :
        find (pipe_at n) k.pipe_list ≡ none → pipe_loop (suc fuel) n exist k ≡ fault
    unfolding pipe_loop
    pipe_loop-gone e = rw (current_lem k w a, e)

    module _ (q : PipeInfo) (e : find (pipe_at n) k.pipe_list ≡ some q) where
      -- The read of a pipe that holds less: the process waits.
      pub pipe_loop-waits :
          ltb_ℤ (pos q.cur_len) (to_int k.uctxt.reg2) ≡ true
          → pipe_loop (suc fuel) n exist k
            ≡ and_then
                (normal_schedule (pipe_wait n exist) (queued_for_pipe n w k))
                (λ rc. if not (eqb_ℤ rc (pos 0)) then pure error else pipe_back fuel n exist)
      unfolding pipe_loop wait_for_pipe insert_last pipe_back
      pipe_loop-waits less = rw (current_lem k w a, e, less) (rw (malloc_lem k m))

      -- The read of a pipe that holds enough, whatever the bytes are.
      pub pipe_loop-takes :
          (f : ℕ → ℕ → ℕ)
          → let len = pos_part (to_int k.uctxt.reg2) in
            ltb_ℤ (pos q.cur_len) (to_int k.uctxt.reg2) ≡ false
            → can_free len k ≡ true
            → write_bytes k.uctxt.reg1 (bytes q.pipe_buffer 0 len) k
              ≡ done tt (record k { phys = f })
            → pipe_loop (suc fuel) n exist k
              ≡ done (pos 0) (
                  woken (pipe_at n) q.pipe_wait_list (record k {
                    phys = f;
                    pipe_list = update_first (pipe_at n) (take_bytes len) k.pipe_list;
                  }))
      unfolding pipe_loop read_pipe free_moved
      pipe_loop-takes f there fr wr =
          let len = pos_part (to_int k.uctxt.reg2) in
          let k₁ = record k { phys = f } in
          let k₂ = record k₁ {
            pipe_list = update_first (pipe_at n) (take_bytes len) k.pipe_list;
          } in
          rw (current_lem k w a, e, there)
            (rw (wr, malloc_lem k₁ m)
              (rw (fr) (
                rw (
                  wake_reader_lem (pipe_at n) (take_bytes len q) k₂ m (
                      find-update_first (pipe_at n) (take_bytes len) q k.pipe_list
                        (take_bytes-pipe_at n len) e),
                  take_bytes-waiting len q,
                ))))

      pub pipe_loop-fault :
          let len = pos_part (to_int k.uctxt.reg2) in
          ltb_ℤ (pos q.cur_len) (to_int k.uctxt.reg2) ≡ false
          → write_bytes k.uctxt.reg1 (bytes q.pipe_buffer 0 len) k ≡ fault
          → pipe_loop (suc fuel) n exist k ≡ fault
      unfolding pipe_loop read_pipe
      pipe_loop-fault there wr = rw (current_lem k w a, e, there) (rw (wr))

      pub pipe_loop-bad_free :
          (f : ℕ → ℕ → ℕ)
          → let len = pos_part (to_int k.uctxt.reg2) in
            ltb_ℤ (pos q.cur_len) (to_int k.uctxt.reg2) ≡ false
            → can_free len k ≡ false
            → write_bytes k.uctxt.reg1 (bytes q.pipe_buffer 0 len) k
              ≡ done tt (record k { phys = f })
            → pipe_loop (suc fuel) n exist k ≡ fault
      unfolding pipe_loop read_pipe free_moved
      pipe_loop-bad_free f there fr wr =
          rw (current_lem k w a, e, there) (rw (wr, malloc_lem (record k { phys = f }) m) (rw (fr)))
