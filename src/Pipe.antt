-- ===== src/Pipe.antt =====
-- Pipes: sys_PipeInit, sys_PipeRead and sys_PipeWrite of syscall.c, destroy_pipe_info of scheduler.c.
mod Tests
pub mod Buffer
pub mod Stream
pub mod Steps
pub mod Reads
pub mod Bounds
pub mod Written
use sc0x3a.Base.{
  ℕ, zero, suc, ◌+◌, ◌-◌, Bool, true, false, not, ◌&&◌, ◌||◌, Option, none, some, List, [], ◌∷◌,
  if◌then◌else◌, ltb, leb, length, find, update_first, remove_first, any, get_elem?, ◌==◌, ℤ, pos,
  pos_part, eqb_ℤ, ltb_ℤ, to_int, error,
}
use mathlib.Core.Option
use sc0x3a.Kernel.{Kernel, Point, PipeInfo, ReclaimInfo, Kind}
use sc0x3a.Kernel.Monad.{
  M, done, out_of_fuel, crash, pure, ◌>>=◌, ◌>>◌, get, put, current, malloc, insert_last, put_ready,
}
use sc0x3a.Kernel.Memory.{write_int, read_bytes, write_bytes, bad_address}
use sc0x3a.Scheduler.{normal_schedule, unblock}
use sc0x3a.Lock.{put_reclaim, malloc_at}

-- PIPE_BUF_SIZE
abbrev pub pipe_buf_size : ℕ
pipe_buf_size = 4096

-- The contents of a new buffer are those of fresh memory; no byte of it is read before it is written.
unfoldable pub sys_PipeInit : M ℤ
unfolding malloc malloc_at insert_last put_reclaim
sys_PipeInit = do
  p ← malloc_at
  r ← malloc
  elim p [
    | none ↦ pure error
    | some addr ↦ if not r then pure error else do
      k ← get
      let pipeid = length k.reclaim_list + 1
      buffer ← malloc
      if not buffer then pure error else do
        h ← malloc
        if not h then pure error else do
          write_int k.uctxt.reg0 (pos pipeid)
          b ← malloc
          k ← get
          let (pipes, rc) =
              insert_last k.pipe_list
                (record {
                  addr = addr;
                  pipeid = pipeid;
                  cur_len = 0;
                  pipe_buffer = λ i. 0;
                  pipe_wait_list = [];
                })
                b
          put (record k { pipe_list = pipes })
          if not b then pure rc else put_reclaim (record { id = pipeid; kind = Kind.pipe })
  ]

abbrev pub is_pipe : ℤ → PipeInfo → Bool
is_pipe id p = eqb_ℤ (pos p.pipeid) id

abbrev pub pipe_at : ℕ → PipeInfo → Bool
pipe_at a p = p.addr == a

-- The `n` bytes of a buffer from an offset on.
unfoldable pub bytes : (ℕ → ℕ) → ℕ → ℕ → List ℕ
bytes f i zero = []
bytes f i (suc n) = f i ∷ bytes f (i + 1) n

-- `memcpy(buffer + off, bs, length bs)`
unfoldable pub splice : (ℕ → ℕ) → ℕ → List ℕ → ℕ → ℕ
splice f off bs i = if leb off i then Option.get_or (get_elem? bs (i - off)) (f i) else f i

-- The pipe with `len` bytes taken from its front: the rest is copied to a new buffer.
unfoldable pub take_bytes : ℕ → PipeInfo → PipeInfo
take_bytes len p = record p {
  cur_len = p.cur_len - len;
  pipe_buffer = λ i. p.pipe_buffer (i + len);
}

-- The pipe with bytes added at the end.
unfoldable pub add_bytes : List ℕ → PipeInfo → PipeInfo
unfolding splice
add_bytes bs p = record p {
  cur_len = p.cur_len + length bs;
  pipe_buffer = splice p.pipe_buffer p.cur_len bs;
}

-- The end of sys_PipeRead and sys_PipeWrite: the first process that waits for the pipe is made ready.
unfoldable pub wake_reader : (PipeInfo → Bool) → M (Unit {0})
unfolding put_ready
wake_reader test = do
  k ← get
  elim (find test k.pipe_list) [
    | none ↦ crash
    | some p ↦ elim p.pipe_wait_list [
      | [] ↦ pure tt
      | w ∷ ws ↦ do
        put (record k {
          pipe_list = update_first test (λ p. record p { pipe_wait_list = ws }) k.pipe_list;
        })
        put_ready w
        pure tt
    ]
  ]

unfoldable pub wait_for_pipe : ℕ → ℕ → M (Unit {0})
unfolding malloc insert_last
wait_for_pipe a w = do
  b ← malloc
  k ← get
  put (record k {
    pipe_list =
        update_first (pipe_at a)
          (λ p. record p { pipe_wait_list = (insert_last p.pipe_wait_list w b).0 }) k.pipe_list;
  })

-- Whether `free(p->pipe_buffer)` returns where this pointer has been moved `len` bytes into its block.
abbrev pub can_free : ℕ → Kernel → Bool
can_free len k = (len == 0) || k.free_inside

unfoldable pub free_moved : ℕ → M (Unit {0})
free_moved len = do k ← get; if can_free len k then pure tt else crash

-- The part of sys_PipeRead behind its loop, at a pipe that holds enough bytes. Where `malloc` returns
-- no buffer, which is not tested, the pipe is left without one: a fault.
unfoldable pub read_pipe : ℕ → PipeInfo → M ℤ
unfolding malloc bytes take_bytes write_bytes wake_reader free_moved
read_pipe a p = do
  k ← get
  let len = pos_part (to_int k.uctxt.reg2)
  write_bytes k.uctxt.reg1 (bytes p.pipe_buffer 0 len)
  tmp ← malloc
  if not tmp then crash else do
    free_moved len
    k ← get
    put (record k { pipe_list = update_first (pipe_at a) (take_bytes len) k.pipe_list })
    wake_reader (pipe_at a)
    pure (pos 0)

-- The loop of sys_PipeRead at the pipe `a`, with its `exist`.
unfoldable pub pipe_loop : ℕ → ℕ → Bool → M ℤ
unfolding read_pipe wait_for_pipe
pipe_loop zero a exist = λ _. out_of_fuel
pipe_loop (suc fuel) a exist =
    let again = (do
      rc ← normal_schedule (Point.pipe_wait a exist)
      if not (eqb_ℤ rc (pos 0)) then pure error else do
        k ← get
        if not (exist || any (is_pipe (to_int k.uctxt.reg0)) k.pipe_list)
            then pure error
            else pipe_loop fuel a true) in
    do
      k ← get
      w ← current
      elim (find (pipe_at a) k.pipe_list) [
        | none ↦ crash
        | some p ↦
            if ltb_ℤ (pos p.cur_len) (to_int k.uctxt.reg2)
            then (do wait_for_pipe a w; again)
            else read_pipe a p
      ]

-- What sys_PipeRead does when its process runs again.
unfoldable pub pipe_back : ℕ → ℕ → Bool → M ℤ
unfolding pipe_loop
pipe_back fuel a exist = do
  k ← get
  if not (exist || any (is_pipe (to_int k.uctxt.reg0)) k.pipe_list)
      then pure error
      else pipe_loop fuel a true

unfoldable pub sys_PipeRead : ℕ → M ℤ
unfolding bad_address pipe_loop
sys_PipeRead fuel = do
  k ← get
  p ← current
  let pipe_id = to_int k.uctxt.reg0
  if bad_address (k.pcbs p) k.uctxt.reg1
        || ltb_ℤ pipe_id (pos 0)
        || ltb_ℤ (to_int k.uctxt.reg2) (pos 0)
      then pure error
      else elim (find (is_pipe pipe_id) k.pipe_list) [
        | none ↦ pure error
        | some p ↦ pipe_loop fuel p.addr false
      ]

-- How many of `len` bytes fit behind `cur_len`.
abbrev pub writable : PipeInfo → ℕ → ℕ
writable p len =
    let buf_left = pipe_buf_size - p.cur_len in if ltb buf_left len then buf_left else len

unfoldable pub sys_PipeWrite : M ℤ
unfolding bad_address read_bytes add_bytes wake_reader
sys_PipeWrite = do
  k ← get
  w ← current
  let pipe_id = to_int k.uctxt.reg0
  let len = to_int k.uctxt.reg2
  if bad_address (k.pcbs w) k.uctxt.reg1 || ltb_ℤ pipe_id (pos 0) || ltb_ℤ len (pos 0)
      then pure error
      else elim (find (is_pipe pipe_id) k.pipe_list) [
        | none ↦ pure error
        | some p ↦ do
          let byte_write = writable p (pos_part len)
          bs ← read_bytes k.uctxt.reg1 byte_write
          k ← get
          put (record k { pipe_list = update_first (is_pipe pipe_id) (add_bytes bs) k.pipe_list })
          wake_reader (is_pipe pipe_id)
          pure (pos byte_write)
      ]

unfoldable pub destroy_pipe_info : ℤ → M ℤ
unfolding unblock
destroy_pipe_info pipe_id = do
  k ← get
  if ltb_ℤ pipe_id (pos 0) then pure error else elim (find (is_pipe pipe_id) k.pipe_list) [
    | none ↦ pure error
    | some p ↦ do
      unblock 1 p.pipe_wait_list
      k ← get
      put (record k { pipe_list = remove_first (is_pipe pipe_id) k.pipe_list })
      pure (pos 0)
  ]
