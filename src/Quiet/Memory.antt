-- ===== src/Quiet/Memory.antt =====
-- Region 1 and the page tables.
use sc0x3a.Base.{ℕ, zero, suc, ◌+◌, List, [], ◌∷◌, arith, ℤ, pos, ◌+ℤ◌}
use sc0x3a.Kernel.{Pte}
use sc0x3a.Kernel.Memory.{read_byte, write_byte, read_bytes, write_bytes, write_int, int_bytes}
use sc0x3a.Scheduler.{update_pcb}
use sc0x3a.Process.{set_pte, brk_loop, sys_Brk}
use sc0x3a.Process.Exit.{free_page, free_pages}
use sc0x3a.Quiet.{Silent, Silent-pure, silent_rules}

pub read_byte-Silent : (a : ℕ) → Silent (read_byte a)
unfolding Silent read_byte
read_byte-Silent a k = ground arith

pub read_bytes-Silent : (a n : ℕ) → Silent (read_bytes a n)
unfolding read_bytes
read_bytes-Silent a zero = Silent-pure {A = List ℕ} []
read_bytes-Silent a (suc n) =
    search (silent_rules, read_byte-Silent, read_bytes-Silent (a + 1) n) depth 12

pub write_byte-Silent : (a v : ℕ) → Silent (write_byte a v)
unfolding Silent write_byte
write_byte-Silent a v k = ground arith

pub write_bytes-Silent : (a : ℕ) (bs : List ℕ) → Silent (write_bytes a bs)
unfolding write_bytes
write_bytes-Silent a [] = Silent-pure tt
write_bytes-Silent a (b ∷ bs) =
    search (silent_rules, write_byte-Silent, write_bytes-Silent (a + 1) bs) depth 12

pub write_int-Silent : (a : ℕ) (v : ℤ) → Silent (write_int a v)
unfolding write_int
write_int-Silent a v = write_bytes-Silent a (int_bytes v)

pub set_pte-Silent : (p : ℕ) (i : ℤ) (e : Pte) → Silent (set_pte p i e)
unfolding Silent set_pte update_pcb
set_pte-Silent p i e k = ground arith

pub brk_loop-Silent : (p n : ℕ) (i : ℤ) → Silent (brk_loop p n i)
unfolding brk_loop
brk_loop-Silent p zero i = Silent-pure (pos 0)
brk_loop-Silent p (suc n) i =
    search (silent_rules, set_pte-Silent, brk_loop-Silent p n (i +ℤ pos 1)) depth 12

pub sys_Brk-Silent : Silent sys_Brk
unfolding sys_Brk
sys_Brk-Silent = search (silent_rules, brk_loop-Silent) depth 12

pub free_page-Silent : (e : Pte) → Silent (free_page e)
unfolding free_page
free_page-Silent e = search silent_rules depth 12

pub free_pages-Silent : (es : List Pte) → Silent (free_pages es)
unfolding free_pages
free_pages-Silent [] = Silent-pure {A = List Pte} []
free_pages-Silent (e ∷ es) = search (silent_rules, free_page-Silent, free_pages-Silent es) depth 12
