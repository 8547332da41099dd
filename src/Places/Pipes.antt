-- ===== src/Places/Pipes.antt =====
-- Where the processes are around sys_PipeRead and sys_PipeWrite.
use sc0x3a.Base.{
  ℕ, suc, ◌≡◌, refl, ap, inl, inr, Bool, false, not, some, List, [], ◌∷◌, ◌++◌, if◌then◌else◌,
  arith, count, count-append, find, update_first, find-update_first, pos, pos_part, to_int, ltb_ℤ,
  eqb_ℤ, error, Bool-cases, Option-cases,
}
use sc0x3a.Kernel.{Kernel, PipeInfo, pipe_wait}
use sc0x3a.Kernel.Monad.{Keeps, pure}
use sc0x3a.Kernel.Memory.Frame.{read_bytes_cases, write_bytes_lem}
use sc0x3a.Pipe.{
  can_free, sys_PipeRead, sys_PipeWrite, is_pipe, pipe_at, bytes, take_bytes, add_bytes, writable,
  pipe_back, pipe_loop,
}
use sc0x3a.Pipe.Steps.{
  woken, pipe_args, pipe_id, queued_for_pipe, sys_PipeWrite-invalid, sys_PipeWrite-missing,
  sys_PipeWrite-fault, sys_PipeWrite-writes, add_bytes-is_pipe, add_bytes-waiting,
  take_bytes-pipe_at, take_bytes-waiting,
}
use sc0x3a.Pipe.Reads.{
  sys_PipeRead-invalid, sys_PipeRead-missing, sys_PipeRead-pipe_loop, pipe_loop-gone,
  pipe_loop-takes, pipe_loop-bad_free, pipe_loop-fault, pipe_loop-waits,
}
use sc0x3a.Places.{count_active, places, pipe_waiters}
use sc0x3a.Places.Counting.{Same, block-Same, count_in-update_first}

-- The first waiter goes from the pipe to the ready queue.
woken-places :
    (a : ℕ) (test : PipeInfo → Bool) (p : PipeInfo) (ws : List ℕ) (k : Kernel)
    → find test k.pipe_list ≡ some p
    → p.pipe_wait_list ≡ ws
    → places a (woken test ws k) ≡ places a k
woken-places a test p [] k e w = refl
woken-places a test p (q ∷ qs) k e w = omega (
  arith,
  ap (count a) w,
  count-append a k.ready_queue (q ∷ []),
  count_in-update_first pipe_waiters a test (λ p. record p { pipe_wait_list = qs }) p k.pipe_list e,
)

-- A change of the first pipe that passes, which keeps its waiters, and then the waking of the first.
changed-places :
    (a : ℕ) (test : PipeInfo → Bool) (g : PipeInfo → PipeInfo) (p : PipeInfo) (k : Kernel)
    → ((q : PipeInfo) → test (g q) ≡ test q)
    → (g p).pipe_wait_list ≡ p.pipe_wait_list
    → find test k.pipe_list ≡ some p
    → places a
        (woken test p.pipe_wait_list (record k { pipe_list = update_first test g k.pipe_list }))
      ≡ places a k
changed-places a test g p k kept w e =
    let k₁ = record k { pipe_list = update_first test g k.pipe_list } in
    omega (
      arith,
      woken-places a test (g p) p.pipe_wait_list k₁ (find-update_first test g p k.pipe_list kept e)
          w,
      ap (count a) w,
      count_in-update_first pipe_waiters a test g p k.pipe_list e,
    )

-- Where `malloc` does not fail, sys_PipeWrite leaves every process in as many places as it was.
pub sys_PipeWrite-places :
    (a w : ℕ) (k : Kernel)
    → k.mallocs ≡ []
    → k.active_proc ≡ some w
    → Keeps (Same a k) (sys_PipeWrite k)
sys_PipeWrite-places a w k m act = elim (Bool-cases (pipe_args k w)) [
  | inl v ↦ rw (sys_PipeWrite-invalid k m w act v)
  | inr v ↦ elim (Option-cases (find (is_pipe (pipe_id k)) k.pipe_list)) [
    | inl e ↦ rw (sys_PipeWrite-missing k m w act v e)
    | inr (p, e) ↦
        let n = writable p (pos_part (to_int k.uctxt.reg2)) in
        elim (read_bytes_cases k.uctxt.reg1 n k) [
          | inl r ↦ rw (sys_PipeWrite-fault k m w act v p e r) tt
          | inr (bs, r, l) ↦ rw (sys_PipeWrite-writes k m w act v p e bs r) (
              changed-places a (is_pipe (pipe_id k)) (add_bytes bs) p k
                (add_bytes-is_pipe (pipe_id k) bs) (add_bytes-waiting bs p) e)
        ]
  ]
]

-- The loop of sys_PipeRead, in the call or when the process runs again.
pub pipe_loop-places :
    (a fuel n w x : ℕ) (exist : Bool) (xs : List ℕ) (k : Kernel)
    → k.mallocs ≡ []
    → k.active_proc ≡ some w
    → k.ready_queue ≡ x ∷ xs
    → Keeps (Same a k) (pipe_loop (suc fuel) n exist k)
pipe_loop-places a fuel n w x exist xs k m act r =
    elim (Option-cases (find (pipe_at n) k.pipe_list)) [
      | inl e ↦ rw (pipe_loop-gone k m w act fuel n exist e) tt
      | inr (q, e) ↦
          let len = pos_part (to_int k.uctxt.reg2) in
          elim (Bool-cases (ltb_ℤ (pos q.cur_len) (to_int k.uctxt.reg2))) [
            | inl less ↦ rw (pipe_loop-waits k m w act fuel n exist q e less) (
                block-Same a x xs (pipe_wait n exist) k (queued_for_pipe n w k)
                  (λ rc. if not (eqb_ℤ rc (pos 0)) then pure error else pipe_back fuel n exist) m r
                  (omega (
                    arith,
                    ap (count_active a) act,
                    count-append a q.pipe_wait_list (w ∷ []),
                    count_in-update_first pipe_waiters a (pipe_at n)
                        (λ p. record p { pipe_wait_list = p.pipe_wait_list ++ w ∷ [] }) q
                        k.pipe_list e,
                  )))
            | inr there ↦ elim (write_bytes_lem k.uctxt.reg1 (bytes q.pipe_buffer 0 len) k) [
              | inl f ↦ rw (pipe_loop-fault k m w act fuel n exist q e there f) tt
              | inr (f, wr) ↦ elim (Bool-cases (can_free len k)) [
                | inr fr ↦ rw (pipe_loop-bad_free k m w act fuel n exist q e f there fr wr) tt
                | inl fr ↦ rw (pipe_loop-takes k m w act fuel n exist q e f there fr wr) (
                    changed-places a (pipe_at n) (take_bytes len) q (record k { phys = f })
                      (take_bytes-pipe_at n len) (take_bytes-waiting len q) e)
              ]
            ]
          ]
    ]

-- Where `malloc` does not fail and another process is ready, sys_PipeRead, whether it returns or waits,
-- leaves every process in as many places as it was.
pub sys_PipeRead-places :
    (a fuel w x : ℕ) (xs : List ℕ) (k : Kernel)
    → k.mallocs ≡ []
    → k.active_proc ≡ some w
    → k.ready_queue ≡ x ∷ xs
    → Keeps (Same a k) (sys_PipeRead (suc fuel) k)
sys_PipeRead-places a fuel w x xs k m act r = elim (Bool-cases (pipe_args k w)) [
  | inl v ↦ rw (sys_PipeRead-invalid k m w act (suc fuel) v)
  | inr v ↦ elim (Option-cases (find (is_pipe (pipe_id k)) k.pipe_list)) [
    | inl e ↦ rw (sys_PipeRead-missing k m w act (suc fuel) v e)
    | inr (p, e) ↦
        rw (sys_PipeRead-pipe_loop k m w act (suc fuel) p v e)
          (pipe_loop-places a fuel p.addr w x false xs k m act r)
  ]
]
