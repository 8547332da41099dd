-- ===== src/Program/Exec.antt =====
-- sys_Exec of syscall.c, and return_initial_state of scheduler.c.
use sc0x3a.Base.{ℕ, zero, suc, ◌+◌, ◌*◌, List, [], ◌∷◌, if◌then◌else◌, ◌==◌, ℤ, eqb_ℤ, error}
use sc0x3a.Kernel.{Point}
use sc0x3a.Kernel.Monad.{M, out_of_fuel, switched, pure, ◌>>=◌, ◌>>◌, get, put, current, set_pcb}
use sc0x3a.Kernel.Memory.{read_byte, read_bytes, bad_address}
use sc0x3a.Program.{FileSystem, load_program}

-- The string at an address of region 1, and the strings at the pointers from an address on, up to NULL.
-- Region 1 has 2 ^ 20 bytes and what lies behind it is a fault, so one more round is enough fuel.
unfoldable pub read_string : ℕ → ℕ → M (List ℕ)
unfolding read_byte
read_string zero a = λ _. out_of_fuel
read_string (suc fuel) a = do
  b ← read_byte a
  let rest = read_string fuel (a + 1)
  if b == 0 then pure [] else do bs ← rest; pure (b ∷ bs)

abbrev pub word_of : List ℕ → ℕ
word_of [] = 0
word_of (b ∷ bs) = b + 256 * word_of bs

unfoldable pub read_args : ℕ → ℕ → M (List (List ℕ))
unfolding read_bytes read_string
read_args zero a = λ _. out_of_fuel
read_args (suc fuel) a = do
  w ← read_bytes a 4
  let rest = read_args fuel (a + 4)
  if word_of w == 0
      then pure []
      else do s ← read_string 0x10_0001 (word_of w); ss ← rest; pure (s ∷ ss)

-- KernelContextSwitch(return_initial_state): the process goes on at the end of KernelStart, with the
-- context of its pcb, and sys_Exec does not return.
unfoldable pub return_initial_state : M ℤ
return_initial_state = do
  p ← current
  k ← get
  let c = k.pcbs p
  λ _. switched (record k { pcbs = set_pcb k.pcbs p (record c { kctxt = Point.start }) })

unfoldable pub sys_Exec : FileSystem → M ℤ
unfolding bad_address read_string load_program read_args return_initial_state
sys_Exec files = do
  k ← get
  p ← current
  if bad_address (k.pcbs p) k.uctxt.reg1 then pure error else do
    name ← read_string 0x10_0001 k.uctxt.reg0
    rc ← load_program files name (read_args 0x4_0001 k.uctxt.reg1) p
    if eqb_ℤ rc error
        then pure error
        else do k ← get; put (record k { uctxt = (k.pcbs p).uctxt }); return_initial_state
