-- ===== src/Terminal.antt =====
-- Terminals: sys_TtyRead and sys_TtyWrite of syscall.c, and the two terminal traps of trap.c.
mod Spin
mod Lines
mod Writes
mod Tests
use sc0x3a.Base.{
  ℕ, zero, suc, ◌+◌, ◌-◌, Bool, true, false, not, ◌&&◌, ◌||◌, none, some, [], ◌∷◌, if◌then◌else◌,
  ltb, find, remove_first, ◌==◌, ℤ, pos, eqb_ℤ, ltb_ℤ, leb_ℤ, ◌-ℤ◌, to_int, shift_page, error,
}
use sc0x3a.Kernel.{Kernel, Pcb, Point, blocked_r, blocked_w}
use sc0x3a.Kernel.Monad.{
  M, out_of_fuel, pure, ◌>>=◌, ◌>>◌, get, put, current, malloc, insert_last, put_ready,
}
use sc0x3a.Kernel.Memory.{write_bytes, vmem_1_base}
use sc0x3a.Scheduler.{normal_schedule, update_pcb}
use sc0x3a.Pipe.{bytes}

-- NUM_TERMINALS and TERMINAL_MAX_LINE
abbrev pub num_terminals : ℕ
num_terminals = 4

abbrev pub terminal_max_line : ℕ
terminal_max_line = 1024

-- `page_num >= next_heap_pn && page_num <= next_stack_pn`
abbrev pub in_gap : Pcb → ℤ → Bool
in_gap c page_num = leb_ℤ c.next_heap_pn page_num && leb_ℤ page_num c.next_stack_pn

abbrev pub bad_terminal : ℤ → Bool
bad_terminal tty_id = ltb_ℤ tty_id (pos 0) || ltb_ℤ (pos num_terminals) tty_id

-- `list_insert(&io_list, io_list.len+1, active_proc)`
unfoldable pub put_io : ℕ → M ℤ
unfolding malloc insert_last
put_io p = do
  b ← malloc
  k ← get
  let (queue, rc) = insert_last k.io_list p b
  put (record k { io_list = queue })
  pure rc

-- What sys_TtyRead does when its process runs again: all that the terminal received is copied.
unfoldable pub tty_read_back : ℤ → M ℤ
unfolding update_pcb write_bytes bytes
tty_read_back tty_id = do
  k ← get
  p ← current
  update_pcb p (λ c. record c { len = pos k.string_len })
  write_bytes (k.pcbs p).buf (bytes (k.receive tty_id) 0 k.string_len)
  pure (pos k.string_len)

unfoldable pub sys_TtyRead : M ℤ
unfolding put_io update_pcb tty_read_back
sys_TtyRead = do
  k ← get
  p ← current
  let tty_id = to_int k.uctxt.reg0
  let len = to_int k.uctxt.reg2
  if bad_terminal tty_id
        || ltb_ℤ len (pos 0)
        || in_gap (k.pcbs p) (shift_page (to_int k.uctxt.reg1) -ℤ pos 128)
        || ltb k.uctxt.reg1 vmem_1_base
      then pure error
      else do
        update_pcb p
            (λ c. record c { state = blocked_r; tty_id = tty_id; buf = k.uctxt.reg1; len = len })
        rc ← put_io p
        if not (eqb_ℤ rc (pos 0)) then pure error else do
          rc ← normal_schedule (Point.tty_read tty_id)
          if not (eqb_ℤ rc (pos 0)) then pure error else tty_read_back tty_id

-- The bookkeeping of sys_TtyWrite before it gives the processor away, and the switch.
unfoldable pub block_writer : ℤ → Point → M ℤ
unfolding put_io update_pcb
block_writer tty_id pt = do
  p ← current
  update_pcb p (λ c. record c { state = blocked_w; tty_id = tty_id })
  rc ← put_io p
  if not (eqb_ℤ rc (pos 0))
      then pure error
      else do rc ← normal_schedule pt; if not (eqb_ℤ rc (pos 0)) then pure error else pure (pos 0)

-- `TtyTransmit(tty_id, regs[1], n)` and the busy flag set before it.
unfoldable pub transmit : ℤ → ℕ → ℤ → M (Unit {0})
transmit tty_id addr n = do
  k ← get
  put (record k {
    busy_terminal = λ t. if eqb_ℤ t tty_id then true else k.busy_terminal t;
    sent = (tty_id, addr, n) ∷ k.sent;
  })

-- The bytes of one call of TtyTransmit, and those that remain.
abbrev pub chunk : ℤ → ℤ
chunk n = if ltb_ℤ (pos terminal_max_line) n then pos terminal_max_line else n

abbrev pub remaining : ℤ → ℤ
remaining n = if ltb_ℤ (pos terminal_max_line) n then n -ℤ pos terminal_max_line else pos 0

-- The two loops of sys_TtyWrite. A turn that finds the terminal busy gives the processor away and
-- looks again; one that does not sends the next part, from the same address, and gives the processor
-- away. The rounds that are made while nobody else can run are counted by fuel.
unfoldable pub write_loop : ℕ → ℤ → M ℤ
unfolding block_writer transmit
write_loop zero remain_bytes = λ _. out_of_fuel
write_loop (suc fuel) remain_bytes =
    let look_again = write_loop fuel remain_bytes in
    let next_part = write_loop fuel (remaining remain_bytes) in
    do
      k ← get
      let tty_id = to_int k.uctxt.reg0
      if leb_ℤ remain_bytes (pos 0)
          then pure (to_int k.uctxt.reg2)
          else if k.busy_terminal tty_id
          then (do
            rc ← block_writer tty_id (Point.tty_busy remain_bytes)
            if not (eqb_ℤ rc (pos 0)) then pure error else look_again)
          else (do
            transmit tty_id k.uctxt.reg1 (chunk remain_bytes)
            rc ← block_writer tty_id (Point.tty_sent (remaining remain_bytes))
            if not (eqb_ℤ rc (pos 0)) then pure error else next_part)

unfoldable pub sys_TtyWrite : ℕ → M ℤ
unfolding write_loop
sys_TtyWrite fuel = do
  k ← get
  p ← current
  let len = to_int k.uctxt.reg2
  if bad_terminal (to_int k.uctxt.reg0)
        || ltb_ℤ len (pos 0)
        || ltb k.uctxt.reg1 vmem_1_base
        || in_gap (k.pcbs p) (shift_page (to_int (k.uctxt.reg1 - vmem_1_base)))
      then pure error
      else write_loop fuel len

abbrev pub reads_from : Kernel → ℤ → ℕ → Bool
reads_from k tty_id p = elim (k.pcbs p).state [
  | blocked_r ↦ eqb_ℤ tty_id (k.pcbs p).tty_id
  | _ ↦ false
]

abbrev pub writes_to : Kernel → ℤ → ℕ → Bool
writes_to k tty_id p = elim (k.pcbs p).state [
  | blocked_w ↦ eqb_ℤ tty_id (k.pcbs p).tty_id
  | _ ↦ false
]

-- The loop of trap_tty_receive_hdl, whose `tmp` stays at the first process of `io_list`.
unfoldable pub receive_loop : ℕ → ℤ → M (Unit {0})
unfolding put_ready
receive_loop zero tty_id = λ _. out_of_fuel
receive_loop (suc fuel) tty_id =
    let again = receive_loop fuel tty_id in
    do
      k ← get
      elim k.io_list [
        | [] ↦ pure tt
        | p ∷ ps ↦
            if reads_from k tty_id p
            then (do put (record k { io_list = ps }); put_ready p; pure tt)
            else again
      ]

-- `line` and `n` are what TtyReceive delivers.
unfoldable pub trap_tty_receive_hdl : ℕ → (ℕ → ℕ) → ℕ → M (Unit {0})
unfolding receive_loop
trap_tty_receive_hdl fuel line n = do
  k ← get
  let tty_id = to_int k.uctxt.code
  let text = λ (i : ℕ). if i == n then 0 else line i
  put (
      if ltb n terminal_max_line
      then record k {
        receive = λ t. if eqb_ℤ t tty_id then text else k.receive t;
        string_len = n + 1;
      }
      else record k { receive = λ t. if eqb_ℤ t tty_id then line else k.receive t })
  receive_loop fuel tty_id

-- The loop looks at each process of `io_list` in turn.
unfoldable pub trap_tty_transmit_hdl : M (Unit {0})
unfolding put_ready
trap_tty_transmit_hdl = do
  k ← get
  let tty_id = to_int k.uctxt.code
  put (record k { busy_terminal = λ t. if eqb_ℤ t tty_id then false else k.busy_terminal t })
  elim (find (writes_to k tty_id) k.io_list) [
    | none ↦ pure tt
    | some p ↦ do
      k' ← get
      put (record k' { io_list = remove_first (writes_to k tty_id) k.io_list })
      put_ready p
      pure tt
  ]
