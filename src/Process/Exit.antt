-- ===== src/Process/Exit.antt =====
-- sys_Exit of syscall.c.
use sc0x3a.Base.{
  ℕ, Bool, false, not, none, some, List, [], ◌∷◌, if◌then◌else◌, find, remove_first, ◌==◌, ℤ, pos,
  negsuc, eqb_ℤ, to_int, error,
}
use sc0x3a.Kernel.{Pte, Point}
use sc0x3a.Kernel.Monad.{M, crash, pure, ◌>>=◌, ◌>>◌, get, put, current, put_ready}
use sc0x3a.Kernel.Frames.{free_frame}
use sc0x3a.Scheduler.{normal_schedule, insert_dead_list, update_pcb}
use sc0x3a.Process.{get_pcb}

-- `ppid = -1` in each child
unfoldable pub orphan : List ℕ → M (Unit {0})
unfolding update_pcb
orphan [] = pure tt
orphan (c ∷ cs) = elim (get_pcb c) [
  | none ↦ crash
  | some p ↦ do update_pcb p (λ c. record c { ppid = negsuc 0 }); orphan cs
]

-- One turn of the loops of sys_Exit over a page table: a frame in use is put at the front of
-- `free_frames`.
unfoldable pub free_page : Pte → M Pte
unfolding free_frame
free_page e =
    if e.valid then (do free_frame e.pfn; pure (record e { valid = false; prot = 0 })) else pure e

unfoldable pub free_pages : List Pte → M (List Pte)
unfolding free_page
free_pages [] = pure []
free_pages (e ∷ es) = do e' ← free_page e; rest ← free_pages es; pure (e' ∷ rest)

-- The frames of region 1 and of the kernel stack.
unfoldable pub free_memory : ℕ → M (Unit {0})
unfolding free_pages update_pcb
free_memory p = do
  k ← get
  table ← free_pages (k.pcbs p).u_page_table
  update_pcb p (λ c. record c { u_page_table = table })
  e0 ← free_page (k.pcbs p).k_stack_0
  update_pcb p (λ c. record c { k_stack_0 = e0 })
  e1 ← free_page (k.pcbs p).k_stack_1
  update_pcb p (λ c. record c { k_stack_1 = e1 })

-- The part of sys_Exit for a process with a parent; 0, or ERROR with nothing more done.
unfoldable pub tell_parent : ℕ → ℤ → M ℤ
unfolding insert_dead_list update_pcb
tell_parent p status = do
  k ← get
  elim (k.pcbs p).ppid [
    | negsuc _ ↦ pure (pos 0)
    | pos parent ↦ do
      rc ← insert_dead_list (pos parent) p status
      if not (eqb_ℤ rc (pos 0)) then pure error else elim (get_pcb parent) [
        | none ↦ crash
        | some q ↦ do
          update_pcb q (λ c. record c { children = remove_first (λ x. x == p) c.children })
          pure (pos 0)
      ]
  ]

abbrev pub is_pid : ℤ → ℕ → Bool
is_pid id w = eqb_ℤ (pos w) id

-- The parent, if it waits, is made ready.
unfoldable pub wake_parent : ℤ → M (Unit {0})
unfolding put_ready
wake_parent ppid = do
  k ← get
  elim (find (is_pid ppid) k.wait_list) [
    | none ↦ pure tt
    | some w ↦ do
      put (record k { wait_list = remove_first (is_pid ppid) k.wait_list })
      put_ready w
      pure tt
  ]

-- `mode` is 0 for the call of a process and 1 for an abort.
unfoldable pub sys_Exit : ℕ → M ℤ
unfolding orphan tell_parent free_memory wake_parent
sys_Exit mode = do
  k ← get
  p ← current
  let status = if mode == 0 then to_int k.uctxt.reg0 else error
  orphan (k.pcbs p).children
  rc ← tell_parent p status
  if not (eqb_ℤ rc (pos 0)) then pure error else do
    free_memory p
    k ← get
    wake_parent (k.pcbs p).ppid
    k ← get
    put (record k { active_proc = none })
    rc ← normal_schedule Point.exited
    if not (eqb_ℤ rc (pos 0)) then pure error else pure (pos 0)
