-- ===== src/Pipe/Bounds.antt =====
-- How full the buffers of pipes are after sys_PipeWrite, and what it leaves in other pipes.
use sc0x3a.Base.{
  ℕ, true, false, find_passes, ℤ, eqb_ℤ, ◌+◌, ◌≤◌, ◌≡◌, Bool, some, List, [], ◌∷◌, arith, length,
  find, update_first, All, All-find, All-update_first, pos_part, to_int, Bool-cases, Option-cases,
  inl, inr,
}
use sc0x3a.Kernel.{Kernel, PipeInfo}
use sc0x3a.Kernel.Monad.{Keeps}
use sc0x3a.Kernel.Memory.Frame.{read_bytes_cases}
use sc0x3a.Pipe.{is_pipe, add_bytes, writable, sys_PipeWrite, pipe_buf_size}
use sc0x3a.Pipe.Buffer.{writable-fits}
use sc0x3a.Pipe.Steps.{
  pipe_args, pipe_id, woken, written, sys_PipeWrite-invalid, sys_PipeWrite-missing,
  sys_PipeWrite-fault, sys_PipeWrite-writes, add_bytes-is_pipe,
}
use sc0x3a.Pipe.Stream.{Drains, other-Drains}

abbrev pub Fits : PipeInfo → Type 0
Fits p = p.cur_len ≤ pipe_buf_size

-- Each pipe of the kernel holds no more than its buffer.
abbrev pub AllFit : Kernel → Type 0
AllFit k = All Fits k.pipe_list

add_bytes-Fits :
    (bs : List ℕ) (p : PipeInfo) → p.cur_len + length bs ≤ pipe_buf_size → Fits (add_bytes bs p)
unfolding add_bytes
add_bytes-Fits bs p h = h

pub All-update_same {ℓ} :
    {A : Type ℓ} (P : A → Type 0) (test : A → Bool) (g : A → A) (xs : List A)
    → ((x : A) → P x → P (g x))
    → All P xs
    → All P (update_first test g xs)
All-update_same P test g [] h a = tt
All-update_same P test g (x ∷ xs) h a = elim (Bool-cases (test x)) [
  | inl t ↦ rw (t) (h x a.0, a.1)
  | inr t ↦ rw (t) (a.0, All-update_same P test g xs h a.1)
]

pub woken-All :
    (P : PipeInfo → Type 0)
    (waits : (p : PipeInfo) (ws : List ℕ) → P p → P (record p { pipe_wait_list = ws }))
    (test : PipeInfo → Bool) (ws : List ℕ) (k : Kernel)
    → All P k.pipe_list
    → All P (woken test ws k).pipe_list
woken-All P waits test [] k b = b
woken-All P waits test (w ∷ ws) k b =
    All-update_same P test (λ p. record p { pipe_wait_list = ws }) k.pipe_list (λ p. waits p ws) b

-- Where `malloc` does not fail, a write keeps what holds of every pipe, whoever waits for it, if adding
-- as many bytes as fit to the pipe of the call keeps it.
pub sys_PipeWrite-All :
    (P : PipeInfo → Type 0) (k : Kernel) (w : ℕ)
    → k.mallocs ≡ []
    → k.active_proc ≡ some w
    → ((p : PipeInfo) (ws : List ℕ) → P p → P (record p { pipe_wait_list = ws }))
    → ((p : PipeInfo) (bs : List ℕ)
        → is_pipe (pipe_id k) p ≡ true
        → length bs ≡ writable p (pos_part (to_int k.uctxt.reg2))
        → P p
        → P (add_bytes bs p))
    → All P k.pipe_list
    → Keeps (λ k'. All P k'.pipe_list) (sys_PipeWrite k)
sys_PipeWrite-All P k w m a waits adds b = elim (Bool-cases (pipe_args k w)) [
  | inl v ↦ rw (sys_PipeWrite-invalid k m w a v) b
  | inr v ↦ elim (Option-cases (find (is_pipe (pipe_id k)) k.pipe_list)) [
    | inl e ↦ rw (sys_PipeWrite-missing k m w a v e) b
    | inr (p, e) ↦
        let test = is_pipe (pipe_id k) in
        let n = writable p (pos_part (to_int k.uctxt.reg2)) in
        elim (read_bytes_cases k.uctxt.reg1 n k) [
          | inl r ↦ rw (sys_PipeWrite-fault k m w a v p e r) tt
          | inr (bs, r, l) ↦
              let here =
                adds p bs (find_passes test p k.pipe_list e) l
                  (All-find P test p k.pipe_list b e) in
              rw (sys_PipeWrite-writes k m w a v p e bs r) (
                woken-All P waits test p.pipe_wait_list (written bs k)
                  (All-update_first P test (add_bytes bs) p k.pipe_list b e here))
        ]
  ]
]

-- Where `malloc` does not fail, a write keeps every pipe within its buffer of 4096 bytes.
pub sys_PipeWrite-AllFit :
    (k : Kernel) (w : ℕ)
    → k.mallocs ≡ []
    → k.active_proc ≡ some w
    → AllFit k
    → Keeps AllFit (sys_PipeWrite k)
sys_PipeWrite-AllFit k w m a =
    sys_PipeWrite-All Fits k w m a (λ p ws h. h)
      λ p bs t l h.
        add_bytes-Fits bs p (omega (arith, writable-fits p (pos_part (to_int k.uctxt.reg2)) h, l))

-- Where `malloc` does not fail, a write to another pipe takes nothing from the one with this id and puts
-- nothing in.
pub sys_PipeWrite-Drains :
    (id : ℤ) (cs : List ℕ) (k : Kernel) (w : ℕ)
    → k.mallocs ≡ []
    → k.active_proc ≡ some w
    → eqb_ℤ (pipe_id k) id ≡ false
    → All (Drains id cs) k.pipe_list
    → Keeps (λ k'. All (Drains id cs) k'.pipe_list) (sys_PipeWrite k)
sys_PipeWrite-Drains id cs k w m a d =
    sys_PipeWrite-All (Drains id cs) k w m a (λ p ws h. h)
      λ p bs t l h.
        other-Drains id cs (pipe_id k) (add_bytes bs p) (rw (add_bytes-is_pipe (pipe_id k) bs p) t)
          d
