-- ===== src/Program.antt =====
-- loadprogram.c. What stands in files is a parameter: a file system gives,
-- for a name, the file's load_info and what `read` delivers from an offset on.
mod Rejects
mod Stack
mod Pages
mod Tests
pub mod Exec
use sc0x3a.Base.{
  ℕ, zero, suc, ◌+◌, ◌-◌, ◌*◌, ◌/◌, Bool, true, false, not, Option, none, some, List, [], ◌∷◌, ◌++◌,
  if◌then◌else◌, ltb, length, get_elem?, ◌==◌, ℤ, pos, pos_part, eqb_ℤ, leb_ℤ, ◌+ℤ◌, ◌-ℤ◌,
  shift_page, error,
}
use sc0x3a.Kernel.{Kernel, Pcb, Point}
use sc0x3a.Kernel.Monad.{
  M, out_of_fuel, switched, crash, pure, ◌>>=◌, ◌>>◌, get, put, current, malloc, set_pcb,
}
use sc0x3a.Kernel.Frames.{grab_a_frame}
use sc0x3a.Kernel.Memory.{
  translate, set_byte, read_byte, read_bytes, int_bytes, bad_address, page_size, vmem_1_base,
  vmem_1_limit, read_write,
}
use sc0x3a.Scheduler.{update_pcb}
use sc0x3a.Process.{set_pte, brk_loop, replicate}
use sc0x3a.Process.Exit.{free_pages}

-- The fields of `struct load_info` that load_program reads.
pub record LoadInfo : Type 0 where
  pub entry : ℕ
  pub t_vaddr : ℕ
  pub t_faddr : ℕ
  pub t_npg : ℕ
  pub id_vaddr : ℕ
  pub id_faddr : ℕ
  pub id_npg : ℕ
  pub ud_npg : ℕ
  pub id_end : ℕ
  pub ud_end : ℕ

-- A file that `open` opens: what LoadInfo says of it, `none` for an error, and the bytes that `read`
-- delivers at an offset, `none` if there are fewer than were asked for.
pub record Executable : Type 0 where
  pub info : Option LoadInfo
  pub read : ℕ → ℕ → Option (List ℕ)

abbrev pub FileSystem : Type 0
FileSystem = List ℕ → Option Executable

-- `#define KILL 2012`
abbrev pub kill : ℤ
kill = pos 2012

-- The bytes that the arguments take, each with its NUL.
unfoldable pub args_size : List (List ℕ) → ℕ
args_size [] = 0
args_size (a ∷ more) = length a + 1 + args_size more

-- `cp`, and `cpp` and with it the new stack pointer: room for the strings, for as many pointers, for
-- three words and for POST_ARGV_NULL_SPACE words, at a double word.
abbrev pub strings_at : List (List ℕ) → ℕ
strings_at args = vmem_1_limit - args_size args

abbrev pub stack_top : List (List ℕ) → ℕ
stack_top args = (strings_at args - (length args + 3 + 0x20) * 4) / 8 * 8

abbrev pub stack_npg : List (List ℕ) → ℕ
stack_npg args = (vmem_1_limit - stack_top args / page_size * page_size) / page_size

-- `(vaddr - VMEM_1_BASE) >> PAGESHIFT`
abbrev pub first_page : ℕ → ℤ
first_page vaddr = shift_page (pos vaddr -ℤ pos vmem_1_base)

abbrev pub data_npg : LoadInfo → ℕ
data_npg li = li.id_npg + li.ud_npg

-- Whether no page is left between heap and stack.
abbrev pub too_large : LoadInfo → List (List ℕ) → Bool
too_large li args =
    leb_ℤ (pos 128) (pos (stack_npg args) +ℤ first_page li.id_vaddr +ℤ pos (data_npg li))

-- A store to region 1 through the page table of `p`, which the machine uses while the program is loaded.
unfoldable pub store_byte : ℕ → ℕ → ℕ → M (Unit {0})
unfolding translate
store_byte p a v = do
  k ← get
  elim (translate (k.pcbs p).u_page_table a) [
    | none ↦ crash
    | some (f, o) ↦ put (record k { phys = set_byte k.phys f o v })
  ]

unfoldable pub store_bytes : ℕ → ℕ → List ℕ → M (Unit {0})
unfolding store_byte
store_bytes p a [] = pure tt
store_bytes p a (b ∷ bs) = do store_byte p a b; store_bytes p (a + 1) bs

abbrev pub store_word : ℕ → ℕ → ℕ → M (Unit {0})
store_word p a v = store_bytes p a (int_bytes (pos v))

-- The loop over the pages of the stack, from page `i` down.
unfoldable pub stack_pages : ℕ → ℕ → ℤ → M ℤ
unfolding grab_a_frame set_pte
stack_pages p zero i = pure (pos 0)
stack_pages p (suc n) i = do
  pfn ← grab_a_frame
  let rest = stack_pages p n (i -ℤ pos 1)
  if pfn == 0
      then pure error
      else do set_pte p i (record { valid = true; prot = read_write; pfn = pfn }); rest

-- The loop that makes the pages of the text readable and executable, PROT_READ | PROT_EXEC.
unfoldable pub protect_page : ℕ → ℤ → M (Unit {0})
unfolding set_pte
protect_page p i = do
  k ← get
  elim (get_elem? (k.pcbs p).u_page_table (pos_part i)) [
    | none ↦ crash
    | some e ↦ set_pte p i (record e { prot = 5 })
  ]

unfoldable pub protect_pages : ℕ → ℕ → ℤ → M (Unit {0})
unfolding protect_page
protect_pages p zero i = pure tt
protect_pages p (suc n) i = do protect_page p i; protect_pages p n (i +ℤ pos 1)

-- The old pages of region 1 are freed, and those of text, data and stack allocated: 0, or ERROR as
-- soon as the frames run out.
unfoldable pub new_pages : ℕ → LoadInfo → List (List ℕ) → M ℤ
unfolding free_pages brk_loop stack_pages update_pcb
new_pages p li args = do
  k ← get
  table ← free_pages (k.pcbs p).u_page_table
  update_pcb p (λ c. record c { u_page_table = table })
  rc ← brk_loop p li.t_npg (first_page li.t_vaddr)
  if not (eqb_ℤ rc (pos 0)) then pure error else do
    rc ← brk_loop p (data_npg li) (first_page li.id_vaddr)
    if not (eqb_ℤ rc (pos 0)) then pure error else do
      update_pcb p (λ c. record c { next_heap_pn = first_page li.id_vaddr +ℤ pos (data_npg li) })
      rc ← stack_pages p (stack_npg args) (pos 127)
      if not (eqb_ℤ rc (pos 0)) then pure error else do
        update_pcb p (λ c. record c { next_stack_pn = pos 127 -ℤ pos (stack_npg args) })
        pure (pos 0)

-- The pointers from `cpp` on to the strings from `cp` on, the strings, and the two NULL pointers.
unfoldable pub write_args : ℕ → ℕ → ℕ → List (List ℕ) → M (Unit {0})
unfolding store_bytes
write_args p cpp cp [] = do store_word p cpp 0; store_word p (cpp + 4) 0
write_args p cpp cp (a ∷ more) = do
  store_word p cpp cp
  store_bytes p cp (a ++ 0 ∷ [])
  write_args p (cpp + 4) (cp + length a + 1) more

-- The part of load_program behind the reads: protection, the data that is not in the file, the entry
-- point and the stack with the arguments.
unfoldable pub finish_image : ℕ → LoadInfo → List (List ℕ) → M ℤ
unfolding protect_pages store_bytes update_pcb write_args
finish_image p li args = do
  protect_pages p li.t_npg (first_page li.t_vaddr)
  store_bytes p li.id_end (replicate (li.ud_end - li.id_end) 0)
  update_pcb p (λ c. record c { uctxt = record c.uctxt { pc = li.entry } })
  store_bytes p (stack_top args) (replicate (vmem_1_limit - stack_top args) 0)
  store_word p (stack_top args) (length args)
  write_args p (stack_top args + 4) (strings_at args) args
  pure (pos 0)

-- The reads of the data and of the text. A read that falls short ends in KILL; the bytes that it does
-- deliver are not modelled.
unfoldable pub load_data : ℕ → Executable → LoadInfo → List (List ℕ) → M ℤ
unfolding store_bytes finish_image
load_data p file li args = elim (file.read li.id_faddr (li.id_npg * page_size)) [
  | none ↦ pure kill
  | some bytes ↦ do store_bytes p li.id_vaddr bytes; finish_image p li args
]

unfoldable pub load_text : ℕ → Executable → LoadInfo → List (List ℕ) → M ℤ
unfolding store_bytes load_data
load_text p file li args = elim (file.read li.t_faddr (li.t_npg * page_size)) [
  | none ↦ pure kill
  | some text ↦ do store_bytes p li.t_vaddr text; load_data p file li args
]

-- load_program behind its checks.
unfoldable pub load_image : ℕ → Executable → LoadInfo → List (List ℕ) → M ℤ
unfolding malloc update_pcb new_pages load_text
load_image p file li args = do
  update_pcb p (λ c. record c { uctxt = record c.uctxt { sp = stack_top args } })
  b ← malloc
  if not b then pure error else do
    rc ← new_pages p li args
    if not (eqb_ℤ rc (pos 0)) then pure error else load_text p file li args

-- `get_args` reads `args` from where the caller has them, once the file's header has been checked.
unfoldable pub load_program : FileSystem → List ℕ → M (List (List ℕ)) → ℕ → M ℤ
unfolding load_image
load_program files name get_args p = elim (files name) [
  | none ↦ pure error
  | some file ↦ elim file.info [
    | none ↦ pure error
    | some li ↦
        if ltb li.entry vmem_1_base
        then pure error
        else do args ← get_args; if too_large li args then pure error else load_image p file li args
  ]
]
