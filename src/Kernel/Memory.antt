-- ===== src/Kernel/Memory.antt =====
-- The memory of region 1 as the kernel reaches it through a process's page table (hardware.h, the
-- layout and the page table entries). What is not mapped there, and the kernel's own memory, which
-- some handlers let a process name, is a fault of the model.
pub mod Frame
use sc0x3a.Base.{
  ℕ, zero, suc, ◌+◌, ◌-◌, ◌/◌, ◌%◌, Bool, true, false, Option, none, some, List, [], ◌∷◌, ◌==◌,
  ◌&&◌, if◌then◌else◌, ltb, leb, get_elem?, ◌||◌, ℤ, pos, of_int, to_int, ltb_ℤ, leb_ℤ,
}
use sc0x3a.Kernel.{Kernel, Pcb, Pte, UserContext}
use sc0x3a.Kernel.Monad.{M, done, fault, pure, ◌>>=◌, ◌>>◌, get, put, crash, current}

-- PAGESIZE, VMEM_1_BASE and VMEM_1_LIMIT; the 128 pages of region 1 and PROT_READ | PROT_WRITE.
abbrev pub page_size : ℕ
page_size = 0x2000

abbrev pub vmem_1_base : ℕ
vmem_1_base = 0x10_0000

abbrev pub vmem_1_limit : ℕ
vmem_1_limit = 0x20_0000

abbrev pub user_pagetable_size : ℕ
user_pagetable_size = 128

abbrev pub read_write : ℕ
read_write = 3

-- The frame and the offset of an address of region 1.
unfoldable pub translate : List Pte → ℕ → Option (ℕ × ℕ)
translate table a =
    if leb vmem_1_base a && ltb a vmem_1_limit
    then elim (get_elem? table ((a - vmem_1_base) / page_size)) [
      | none ↦ none
      | some e ↦ if e.valid then some (e.pfn, a % page_size) else none
    ]
    else none

abbrev pub set_byte : (ℕ → ℕ → ℕ) → ℕ → ℕ → ℕ → ℕ → ℕ → ℕ
set_byte m f o v g i = if (g == f) && (i == o) then v else m g i

unfoldable pub read_byte : ℕ → M ℕ
unfolding translate
read_byte a = do
  p ← current
  k ← get
  elim (translate (k.pcbs p).u_page_table a) [ none ↦ crash | some (f, o) ↦ pure (k.phys f o) ]

unfoldable pub write_byte : ℕ → ℕ → M (Unit {0})
unfolding translate
write_byte a v = do
  p ← current
  k ← get
  elim (translate (k.pcbs p).u_page_table a) [
    | none ↦ crash
    | some (f, o) ↦ put (record k { phys = set_byte k.phys f o v })
  ]

-- `memcpy` from and to region 1
unfoldable pub read_bytes : ℕ → ℕ → M (List ℕ)
unfolding read_byte
read_bytes a zero = pure []
read_bytes a (suc n) = do b ← read_byte a; bs ← read_bytes (a + 1) n; pure (b ∷ bs)

unfoldable pub write_bytes : ℕ → List ℕ → M (Unit {0})
unfolding write_byte
write_bytes a [] = pure tt
write_bytes a (b ∷ bs) = do write_byte a b; write_bytes (a + 1) bs

-- `*p = v` at an `int*`
abbrev pub int_bytes : ℤ → List ℕ
int_bytes v =
    let u = of_int v in (u % 256) ∷ (u / 256 % 256) ∷ (u / 65536 % 256) ∷ (u / 16777216 % 256) ∷ []

unfoldable pub write_int : ℕ → ℤ → M (Unit {0})
unfolding write_bytes
write_int a v = write_bytes a (int_bytes v)

-- The number of the page of region 1 that an address lies in.
abbrev pub page_of : ℕ → ℤ
page_of a = pos ((a - vmem_1_base) / page_size)

-- The checks that sys_Exec, sys_Wait, sys_PipeRead and sys_PipeWrite make of an address: NULL, below
-- region 1, and between the heap and the stack of the process.
unfoldable pub bad_address : Pcb → ℕ → Bool
bad_address c a =
    (a == 0)
    || ltb_ℤ (to_int a) (pos vmem_1_base)
    || (leb_ℤ c.next_heap_pn (page_of a) && leb_ℤ (page_of a) c.next_stack_pn)
