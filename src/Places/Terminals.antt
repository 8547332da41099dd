-- ===== src/Places/Terminals.antt =====
-- Where the processes are around sys_TtyRead, sys_TtyWrite and the traps of the terminals.
use sc0x3a.Base.{
  ℕ, zero, suc, ◌+◌, ◌≡◌, ap, ◌==◌, ltb, to_int, ℤ, pos, not, eqb_ℤ, error, Bool, false, some, List,
  [], ◌∷◌, if◌then◌else◌, arith, count, count-append, find, remove_first, Bool-cases, Option-cases,
  List-cases, inl, inr,
}
use sc0x3a.Kernel.{Kernel, Pcb, Point, blocked_r, blocked_w}
use sc0x3a.Kernel.Monad.{M, pure, ◌>>=◌, get, put_ready_lem, Keeps}
use sc0x3a.Terminal.{
  tty_read_back, sys_TtyRead, block_writer, transmit, write_loop, sys_TtyWrite, remaining, chunk,
  terminal_max_line, receive_loop, trap_tty_receive_hdl, trap_tty_transmit_hdl, reads_from,
  writes_to,
}
use sc0x3a.Quiet.{Silent, silent_rules, Silent-get, Silent-pure, Silent-out_of_fuel}
use sc0x3a.Quiet.Memory.{write_bytes-Silent}
use sc0x3a.Places.Counting.{Same}
use sc0x3a.Places.Conserve.{
  Conserves, Blocks, Conserves-of_Silent, Conserves-of_Blocks, Conserves-bind, Conserves-current,
  Conserves-if, Blocks-bind, Blocks-current,
}
use sc0x3a.Places.Waiting.{io-Blocks, update-Blocks}

pub tty_read_back-Silent : (tty_id : ℤ) → Silent (tty_read_back tty_id)
unfolding tty_read_back
tty_read_back-Silent tty_id = search (silent_rules, write_bytes-Silent) depth 12

-- Where `malloc` does not fail and another process is ready, sys_TtyRead leaves every process in as
-- many places as it was.
pub sys_TtyRead-places : (a p : ℕ) → Conserves a p sys_TtyRead
unfolding sys_TtyRead
sys_TtyRead-places a p = Conserves-bind a p get _ Silent-get λ k. Conserves-current a p _ (
    let tty_id = to_int k.uctxt.reg0 in
    let g = λ (c : Pcb). record c {
      state = blocked_r;
      tty_id = tty_id;
      buf = k.uctxt.reg1;
      len = to_int k.uctxt.reg2;
    } in
    Conserves-if a p _ _ _ (Conserves-of_Silent a p _ (Silent-pure error)) (
      Conserves-of_Blocks a p _ (
        update-Blocks a p p g _ (
          io-Blocks a p (Point.tty_read tty_id) (pure error)
            λ rc. if not (eqb_ℤ rc (pos 0)) then pure error else tty_read_back tty_id))))

transmit-Silent : (tty_id : ℤ) (addr : ℕ) (n : ℤ) → Silent (transmit tty_id addr n)
unfolding transmit Silent
transmit-Silent tty_id addr n k = ground arith

-- The process that runs waits for the terminal.
block_writer-Blocks : (a p : ℕ) (tty_id : ℤ) (pt : Point) → Blocks a p (block_writer tty_id pt)
unfolding block_writer
block_writer-Blocks a p tty_id pt = Blocks-current a p _ (
    update-Blocks a p p (λ c. record c { state = blocked_w; tty_id = tty_id }) _
      (io-Blocks a p pt _ _))

then-Conserves :
    (a p : ℕ) (tty_id : ℤ) (pt : Point) (f : ℤ → M ℤ) → Conserves a p (block_writer tty_id pt >>= f)
then-Conserves a p tty_id pt f =
    Conserves-of_Blocks a p _ (Blocks-bind a p _ f (block_writer-Blocks a p tty_id pt))

pub write_loop-places : (a p fuel : ℕ) (n : ℤ) → Conserves a p (write_loop fuel n)
unfolding write_loop
write_loop-places a p zero n = Conserves-of_Silent a p _ (Silent-out_of_fuel ℤ)
write_loop-places a p (suc fuel) n = Conserves-bind a p get _ Silent-get λ k.
    let tty_id = to_int k.uctxt.reg0 in
    Conserves-if a p _ _ _ (Conserves-of_Silent a p _ (Silent-pure _)) (
      Conserves-if a p _ _ _ (then-Conserves a p tty_id (Point.tty_busy n) _) (
        Conserves-bind a p _ _ (transmit-Silent tty_id k.uctxt.reg1 (chunk n)) λ _.
          then-Conserves a p tty_id (Point.tty_sent (remaining n))
            (λ rc. if not (eqb_ℤ rc (pos 0)) then pure error else write_loop fuel (remaining n))))

-- Where `malloc` does not fail and another process is ready, sys_TtyWrite leaves every process in as
-- many places as it was.
pub sys_TtyWrite-places : (a p fuel : ℕ) → Conserves a p (sys_TtyWrite fuel)
unfolding sys_TtyWrite
sys_TtyWrite-places a p fuel = Conserves-bind a p get _ Silent-get λ k. Conserves-current a p _ (
    Conserves-if a p _ _ _ (Conserves-of_Silent a p _ (Silent-pure error))
      (write_loop-places a p fuel _))

receive_loop-Same :
    (a fuel : ℕ) (tty_id : ℤ) (k : Kernel)
    → k.mallocs ≡ []
    → Keeps (Same a k) (receive_loop fuel tty_id k)
unfolding receive_loop
receive_loop-Same a zero tty_id k m = tt
receive_loop-Same a (suc fuel) tty_id k m = elim (List-cases k.io_list) [
  | inl e ↦ ground (arith, e)
  | inr (q, qs, e) ↦ elim (Bool-cases (reads_from k tty_id q)) [
    | inl mine ↦ ground (
      arith,
      put_ready_lem q (record k { io_list = qs }) m,
      count-append a k.ready_queue (q ∷ []),
      ap (count a) e,
    )
    | inr other ↦ ground (arith, receive_loop-Same a fuel tty_id k m)
  ]
]

-- Where `malloc` does not fail, the trap that delivers a line leaves every process in as many places
-- as it was.
pub trap_tty_receive_hdl-places :
    (a fuel : ℕ) (line : ℕ → ℕ) (n : ℕ) (k : Kernel)
    → k.mallocs ≡ []
    → Keeps (Same a k) (trap_tty_receive_hdl fuel line n k)
unfolding trap_tty_receive_hdl
trap_tty_receive_hdl-places a fuel line n k m = elim (Bool-cases (ltb n terminal_max_line)) [
  | inl short ↦ rw (short) (
      receive_loop-Same a fuel (to_int k.uctxt.code)
        (record k {
          receive = λ t.
              if eqb_ℤ t (to_int k.uctxt.code)
              then (λ i. if i == n then 0 else line i)
              else k.receive t;
          string_len = n + 1;
        })
        m)
  | inr long ↦ rw (long) (
      receive_loop-Same a fuel (to_int k.uctxt.code)
        (record k { receive = λ t. if eqb_ℤ t (to_int k.uctxt.code) then line else k.receive t }) m)
]

pub count-remove_first :
    (a q : ℕ) (test : ℕ → Bool) (xs : List ℕ)
    → find test xs ≡ some q
    → count a (remove_first test xs) + (if a == q then 1 else 0) ≡ count a xs
count-remove_first a q test [] e = absurd (cc)
count-remove_first a q test (x ∷ xs) e = elim (Bool-cases (test x)) [
  | inl t ↦ ground (arith, t)
  | inr t ↦ ground (arith, count-remove_first a q test xs)
]

-- Where `malloc` does not fail, the trap that reports a line as sent leaves every process in as many
-- places as it was.
pub trap_tty_transmit_hdl-places :
    (a : ℕ) (k : Kernel) → k.mallocs ≡ [] → Keeps (Same a k) (trap_tty_transmit_hdl k)
unfolding trap_tty_transmit_hdl
trap_tty_transmit_hdl-places a k m =
    let tty_id = to_int k.uctxt.code in
    elim (Option-cases (find (writes_to k tty_id) k.io_list)) [
      | inl e ↦ ground (arith, e)
      | inr (q, e) ↦
          let k₁ = record k {
            busy_terminal = λ t. if eqb_ℤ t tty_id then false else k.busy_terminal t;
            io_list = remove_first (writes_to k tty_id) k.io_list;
          } in
          ground (
            arith,
            put_ready_lem q k₁ m,
            count-append a k.ready_queue (q ∷ []),
            count-remove_first a q (writes_to k tty_id) k.io_list e,
          )
    ]
