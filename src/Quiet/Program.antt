-- ===== src/Quiet/Program.antt =====
-- The load of a program, and sys_Exec.
use sc0x3a.Base.{ℕ, zero, suc, ◌+◌, ◌*◌, length, List, [], ◌∷◌, arith, ℤ, pos, ◌+ℤ◌, ◌-ℤ◌, error}
use sc0x3a.Kernel.Monad.{M}
use sc0x3a.Kernel.Memory.{page_size}
use sc0x3a.Scheduler.{update_pcb}
use sc0x3a.Process.{set_pte}
use sc0x3a.Program.{
  FileSystem, Executable, LoadInfo, store_byte, store_bytes, stack_pages, protect_page,
  protect_pages, new_pages, write_args, finish_image, load_data, load_text, load_image,
  load_program, kill,
}
use sc0x3a.Program.Exec.{read_string, read_args, return_initial_state, sys_Exec}
use sc0x3a.Quiet.{
  Silent, Silent-elim, Silent-pure, silent_rules, Silent-set_uctxt, Silent-out_of_fuel,
}
use sc0x3a.Quiet.Memory.{
  read_byte-Silent, read_bytes-Silent, set_pte-Silent, brk_loop-Silent, free_pages-Silent,
}

store_byte-Silent : (p a v : ℕ) → Silent (store_byte p a v)
unfolding Silent store_byte
store_byte-Silent p a v k = ground arith

store_bytes-Silent : (p a : ℕ) (bs : List ℕ) → Silent (store_bytes p a bs)
unfolding store_bytes
store_bytes-Silent p a [] = Silent-pure tt
store_bytes-Silent p a (b ∷ bs) =
    search (silent_rules, store_byte-Silent, store_bytes-Silent p (a + 1) bs) depth 12

stack_pages-Silent : (p n : ℕ) (i : ℤ) → Silent (stack_pages p n i)
unfolding stack_pages
stack_pages-Silent p zero i = Silent-pure (pos 0)
stack_pages-Silent p (suc n) i =
    search (silent_rules, set_pte-Silent, stack_pages-Silent p n (i -ℤ pos 1)) depth 12

protect_page-Silent : (p : ℕ) (i : ℤ) → Silent (protect_page p i)
unfolding Silent protect_page set_pte update_pcb
protect_page-Silent p i k = ground arith

protect_pages-Silent : (p n : ℕ) (i : ℤ) → Silent (protect_pages p n i)
unfolding protect_pages
protect_pages-Silent p zero i = Silent-pure tt
protect_pages-Silent p (suc n) i =
    search (silent_rules, protect_page-Silent, protect_pages-Silent p n (i +ℤ pos 1)) depth 12

new_pages-Silent : (p : ℕ) (li : LoadInfo) (args : List (List ℕ)) → Silent (new_pages p li args)
unfolding new_pages
new_pages-Silent p li args =
    search (silent_rules, free_pages-Silent, brk_loop-Silent, stack_pages-Silent) depth 30

write_args-Silent : (p cpp cp : ℕ) (args : List (List ℕ)) → Silent (write_args p cpp cp args)
unfolding write_args
write_args-Silent p cpp cp [] = search (silent_rules, store_bytes-Silent) depth 12
write_args-Silent p cpp cp (a ∷ more) =
    search
      (silent_rules, store_bytes-Silent, write_args-Silent p (cpp + 4) (cp + length a + 1) more)
      depth 12

finish_image-Silent :
    (p : ℕ) (li : LoadInfo) (args : List (List ℕ)) → Silent (finish_image p li args)
unfolding finish_image
finish_image-Silent p li args =
    search (silent_rules, protect_pages-Silent, store_bytes-Silent, write_args-Silent) depth 30

module _ (p : ℕ) (file : Executable) (li : LoadInfo) (args : List (List ℕ)) where
  load_data-Silent : Silent (load_data p file li args)
  unfolding load_data
  load_data-Silent =
      Silent-elim (file.read li.id_faddr (li.id_npg * page_size)) _ _ (Silent-pure kill)
        λ more. (search (silent_rules, store_bytes-Silent, finish_image-Silent) depth 12)

  load_text-Silent : Silent (load_text p file li args)
  unfolding load_text
  load_text-Silent =
      Silent-elim (file.read li.t_faddr (li.t_npg * page_size)) _ _ (Silent-pure kill)
        λ text. (search (silent_rules, store_bytes-Silent, load_data-Silent) depth 12)

  load_image-Silent : Silent (load_image p file li args)
  unfolding load_image
  load_image-Silent = search (silent_rules, new_pages-Silent, load_text-Silent) depth 30

pub load_program-Silent :
    (files : FileSystem) (name : List ℕ) (get_args : M (List (List ℕ))) (p : ℕ)
    → Silent get_args
    → Silent (load_program files name get_args p)
unfolding load_program
load_program-Silent files name get_args p s =
    Silent-elim (files name) _ _ (Silent-pure error) λ file.
      Silent-elim file.info _ _ (Silent-pure error)
        λ li. (search (silent_rules, load_image-Silent) depth 30)

read_string-Silent : (fuel a : ℕ) → Silent (read_string fuel a)
unfolding read_string
read_string-Silent zero a = Silent-out_of_fuel _
read_string-Silent (suc fuel) a =
    search (silent_rules, read_byte-Silent, read_string-Silent fuel (a + 1)) depth 12

read_args-Silent : (fuel a : ℕ) → Silent (read_args fuel a)
unfolding read_args
read_args-Silent zero a = Silent-out_of_fuel _
read_args-Silent (suc fuel) a =
    search (silent_rules, read_bytes-Silent, read_string-Silent, read_args-Silent fuel (a + 4))
      depth 12

return_initial_state-Silent : Silent return_initial_state
unfolding return_initial_state Silent
return_initial_state-Silent k = ground arith

-- sys_Exec moves no process, whether it returns or the process starts its new program.
pub sys_Exec-Silent : (files : FileSystem) → Silent (sys_Exec files)
unfolding sys_Exec
sys_Exec-Silent files =
    search
      (
        silent_rules, read_string-Silent, load_program-Silent, read_args-Silent, Silent-set_uctxt,
        return_initial_state-Silent,
      )
      depth 30
