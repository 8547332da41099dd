-- ===== src/Untouched/Processes.antt =====
-- What the calls of processes and the clock leave as it was.
use sc0x3a.Base.{
  ℕ, none, List, [], ◌∷◌, ◌==◌, arith, ℤ, pos, error, to_int, if◌then◌else◌, length, ◌+◌,
}
use sc0x3a.Kernel.{waited, exited}
use sc0x3a.Kernel.Monad.{get, current, malloc, insert_last, put_ready}
use sc0x3a.Scheduler.{normal_schedule, update_pcb, insert_dead_list}
use sc0x3a.Process.{get_pcb, reap, sys_Wait, wait_back, sys_Delay}
use sc0x3a.Process.Exit.{orphan, tell_parent, free_memory, wake_parent, sys_Exit}
use sc0x3a.Quiet.Memory.{free_pages-Silent, free_page-Silent}
use sc0x3a.Quiet.{silent_rules}
use sc0x3a.Places.Waiting.{reap-Silent, wait_back-Silent}
use sc0x3a.Trap.{trap_clock_hdl}
use sc0x3a.Untouched.{
  Part, Leaves, Leaves-of_Still, Leaves-of_Silent, Leaves-bind, Leaves-elim, Leaves-edit,
  Leaves-pure, Leaves-get, Leaves-current, Leaves-if, Leaves-malloc, Leaves-crash, leaves_rules,
}
use sc0x3a.Untouched.Switching.{
  Leaves-update_pcb, Leaves-normal_schedule, Leaves-do_scheduler, Leaves-update_sleep_list,
  Leaves-insert_sleep_list,
}

module _ (x : Part) where
  pub Leaves-sys_Wait : Leaves x sys_Wait
  unfolding sys_Wait
  Leaves-sys_Wait = Leaves-bind x get _ (Leaves-get x) λ k.
      Leaves-bind x current _ (Leaves-current x) λ p. Leaves-if x _ _ _ (Leaves-pure x error) (
        Leaves-bind x (reap 1) _ (Leaves-of_Silent x (reap 1) (reap-Silent 1)) λ r.
          Leaves-elim x r _ _
            (Leaves-bind x malloc _ (Leaves-malloc x) λ b.
              Leaves-edit x (λ k. record k { wait_list = (insert_last k.wait_list p b).0 }) _
                (λ k. ground arith)
                λ k.
                  Leaves-bind x (normal_schedule (waited (length k.dead_list + 1))) _
                    (Leaves-normal_schedule x _)
                    λ rc. Leaves-if x _ _ _ (Leaves-pure x error) (
                      Leaves-of_Silent x (wait_back (length k.dead_list + 1)) (wait_back-Silent _)))
            λ pid. Leaves-pure x pid)

  pub Leaves-sys_Delay : Leaves x sys_Delay
  unfolding sys_Delay
  Leaves-sys_Delay =
      search (leaves_rules, Leaves-insert_sleep_list, Leaves-normal_schedule) depth 20

  orphan-Leaves : (cs : List ℕ) → Leaves x (orphan cs)
  unfolding orphan
  orphan-Leaves [] = Leaves-pure x tt
  orphan-Leaves (c ∷ cs) =
      Leaves-elim x (get_pcb c) _ _ (Leaves-crash x _)
        λ p. (search (leaves_rules, Leaves-update_pcb, orphan-Leaves cs) depth 12)

  free_memory-Leaves : (p : ℕ) → Leaves x (free_memory p)
  unfolding free_memory
  free_memory-Leaves p =
      Leaves-of_Silent x (free_memory p)
        (search (silent_rules, free_pages-Silent, free_page-Silent) depth 20)

  tell_parent-Leaves : (p : ℕ) (status : ℤ) → Leaves x (tell_parent p status)
  unfolding tell_parent insert_dead_list update_pcb insert_last malloc
  tell_parent-Leaves p status = Leaves-of_Still x (tell_parent p status) λ k. ground arith

  wake_parent-Leaves : (id : ℤ) → Leaves x (wake_parent id)
  unfolding wake_parent put_ready malloc insert_last
  wake_parent-Leaves id = Leaves-of_Still x (wake_parent id) λ k. ground arith

  pub Leaves-sys_Exit : (mode : ℕ) → Leaves x (sys_Exit mode)
  unfolding sys_Exit
  Leaves-sys_Exit mode = Leaves-bind x get _ (Leaves-get x) λ k.
      Leaves-bind x current _ (Leaves-current x) λ p.
        Leaves-bind x (orphan (k.pcbs p).children) _ (orphan-Leaves (k.pcbs p).children) λ _.
          Leaves-bind x (tell_parent p (if mode == 0 then to_int k.uctxt.reg0 else error)) _
            (tell_parent-Leaves p (if mode == 0 then to_int k.uctxt.reg0 else error))
            λ rc. Leaves-if x _ _ _ (Leaves-pure x error) (
              Leaves-bind x (free_memory p) _ (free_memory-Leaves p) λ _.
                Leaves-bind x get _ (Leaves-get x) λ k.
                  Leaves-bind x (wake_parent (k.pcbs p).ppid) _ (wake_parent-Leaves (k.pcbs p).ppid)
                    λ _.
                      Leaves-edit x (λ k. record k { active_proc = none }) _ (λ k. ground arith)
                        λ k.
                          Leaves-bind x (normal_schedule exited) _ (Leaves-normal_schedule x exited)
                            λ rc. Leaves-if x _ _ _ (Leaves-pure x error) (Leaves-pure x (pos 0)))

  pub Leaves-trap_clock_hdl : Leaves x trap_clock_hdl
  unfolding trap_clock_hdl
  Leaves-trap_clock_hdl =
      search (leaves_rules, Leaves-update_sleep_list, Leaves-do_scheduler) depth 12
