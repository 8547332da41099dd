-- ===== src/Pipe/Steps.antt =====
-- What sys_PipeWrite does to a pipe, and the waking of a reader, branch by branch, where `malloc` does not fail.
use sc0x3a.Base.{
  ℕ, ◌-◌, min, length, ap, ◌∙◌, ◌≡◌, refl, Bool, true, false, none, some, List, [], ◌∷◌, ◌++◌, ◌||◌,
  arith, find, update_first, find-update_first, ℤ, pos, pos_part, error, to_int, ltb_ℤ, List-cases,
  inl, inr,
}
use sc0x3a.Kernel.{Kernel, PipeInfo}
use sc0x3a.Kernel.Monad.{done, fault, put_ready_lem, current_lem}
use sc0x3a.Kernel.Memory.{read_bytes, bad_address}
use sc0x3a.Kernel.Memory.Frame.{read_bytes-length}
use sc0x3a.Pipe.{is_pipe, pipe_at, take_bytes, add_bytes, writable, wake_reader, sys_PipeWrite}
use sc0x3a.Pipe.Buffer.{contents, add_bytes-contents, writable-min}

-- The state with the first of the processes that wait for the pipe made ready.
abbrev pub woken : (PipeInfo → Bool) → List ℕ → Kernel → Kernel
woken test [] k = k
woken test (w ∷ ws) k = record k {
  pipe_list = update_first test (λ p. record p { pipe_wait_list = ws }) k.pipe_list;
  ready_queue = k.ready_queue ++ w ∷ [];
}

pub wake_reader_lem :
    (test : PipeInfo → Bool) (p : PipeInfo) (k : Kernel)
    → k.mallocs ≡ []
    → find test k.pipe_list ≡ some p
    → wake_reader test k ≡ done tt (woken test p.pipe_wait_list k)
unfolding wake_reader
wake_reader_lem test p k m e = elim (List-cases p.pipe_wait_list) [
  | inl w ↦ ground arith
  | inr (q, qs, w) ↦
      let k₁ = record k {
        pipe_list = update_first test (λ p. record p { pipe_wait_list = qs }) k.pipe_list;
      } in
      ground (arith, put_ready_lem q k₁ m)
]

-- The guards of both calls.
abbrev pub pipe_args : Kernel → ℕ → Bool
pipe_args k w =
    bad_address (k.pcbs w) k.uctxt.reg1
    || ltb_ℤ (to_int k.uctxt.reg0) (pos 0)
    || ltb_ℤ (to_int k.uctxt.reg2) (pos 0)

abbrev pub pipe_id : Kernel → ℤ
pipe_id k = to_int k.uctxt.reg0

-- The state with the bytes at the end of the pipe.
abbrev pub written : List ℕ → Kernel → Kernel
written bs k = record k {
  pipe_list = update_first (is_pipe (pipe_id k)) (add_bytes bs) k.pipe_list;
}

-- The state with the process at the end of those that wait for the pipe.
abbrev pub queued_for_pipe : ℕ → ℕ → Kernel → Kernel
queued_for_pipe a w k = record k {
  pipe_list =
      update_first (pipe_at a) (λ p. record p { pipe_wait_list = p.pipe_wait_list ++ w ∷ [] })
        k.pipe_list;
}

pub add_bytes-is_pipe :
    (id : ℤ) (bs : List ℕ) (p : PipeInfo) → is_pipe id (add_bytes bs p) ≡ is_pipe id p
unfolding add_bytes
add_bytes-is_pipe id bs p = refl

pub take_bytes-pipe_at : (a n : ℕ) (p : PipeInfo) → pipe_at a (take_bytes n p) ≡ pipe_at a p
unfolding take_bytes
take_bytes-pipe_at a n p = refl

pub add_bytes-waiting :
    (bs : List ℕ) (p : PipeInfo) → (add_bytes bs p).pipe_wait_list ≡ p.pipe_wait_list
unfolding add_bytes
add_bytes-waiting bs p = refl

pub take_bytes-waiting : (n : ℕ) (p : PipeInfo) → (take_bytes n p).pipe_wait_list ≡ p.pipe_wait_list
unfolding take_bytes
take_bytes-waiting n p = refl

module _ (k : Kernel) (m : k.mallocs ≡ []) (w : ℕ) (a : k.active_proc ≡ some w) where
  pub sys_PipeWrite-invalid : pipe_args k w ≡ true → sys_PipeWrite k ≡ done error k
  unfolding sys_PipeWrite
  sys_PipeWrite-invalid v = rw (current_lem k w a) (rw (v))

  pub sys_PipeWrite-missing :
      pipe_args k w ≡ false
      → find (is_pipe (pipe_id k)) k.pipe_list ≡ none
      → sys_PipeWrite k ≡ done error k
  unfolding sys_PipeWrite
  sys_PipeWrite-missing v e = rw (current_lem k w a) (rw (v, e))

  module _ (v : pipe_args k w ≡ false) (p : PipeInfo)
      (e : find (is_pipe (pipe_id k)) k.pipe_list ≡ some p) where
    pub sys_PipeWrite-fault :
        read_bytes k.uctxt.reg1 (writable p (pos_part (to_int k.uctxt.reg2))) k ≡ fault
        → sys_PipeWrite k ≡ fault
    unfolding sys_PipeWrite
    sys_PipeWrite-fault r = rw (current_lem k w a) (rw (v, e) (rw (r)))

    pub sys_PipeWrite-writes :
        (bs : List ℕ)
        → read_bytes k.uctxt.reg1 (writable p (pos_part (to_int k.uctxt.reg2))) k ≡ done bs k
        → sys_PipeWrite k
          ≡ done
              (pos (writable p (pos_part (to_int k.uctxt.reg2))))
              (woken (is_pipe (pipe_id k)) p.pipe_wait_list (written bs k))
    unfolding sys_PipeWrite
    sys_PipeWrite-writes bs r = rw (current_lem k w a) (
        rw (v, e)
          (rw (r) (
            rw (
              wake_reader_lem (is_pipe (pipe_id k)) (add_bytes bs p) (written bs k) m (
                  find-update_first (is_pipe (pipe_id k)) (add_bytes bs) p k.pipe_list
                    (add_bytes-is_pipe (pipe_id k) bs) e),
              add_bytes-waiting bs p,
            ))))

  -- Where `malloc` does not fail, the arguments are valid and their memory is there, a write takes as many
  -- bytes as are asked for, or as fit into what is left of the 4096 bytes of the buffer if these are fewer,
  -- adds them to the end of the pipe, and returns their number; the first process that waits for the pipe
  -- is made ready.
  pub sys_PipeWrite-appends :
      (p : PipeInfo) (len : ℕ) (bs : List ℕ)
      → pipe_args k w ≡ false
      → find (is_pipe (pipe_id k)) k.pipe_list ≡ some p
      → to_int k.uctxt.reg2 ≡ pos len
      → read_bytes k.uctxt.reg1 (min len (4096 - p.cur_len)) k ≡ done bs k
      → (sys_PipeWrite k
          ≡ done
              (pos (min len (4096 - p.cur_len)))
              (woken (is_pipe (pipe_id k)) p.pipe_wait_list (written bs k)))
        × (length bs ≡ min len (4096 - p.cur_len))
        × (contents (add_bytes bs p) ≡ contents p ++ bs)
  sys_PipeWrite-appends p len bs v e n r =
      let taken : writable p (pos_part (to_int k.uctxt.reg2)) ≡ min len (4096 - p.cur_len) =
        ap (λ i. writable p (pos_part i)) n ∙ writable-min p len in
      (
        rw (sys_PipeWrite-writes v p e bs (rw (taken) r), taken) refl,
        read_bytes-length k.uctxt.reg1 (min len (4096 - p.cur_len)) bs k r,
        add_bytes-contents bs p,
      )
