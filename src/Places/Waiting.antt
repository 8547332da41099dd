-- ===== src/Places/Waiting.antt =====
-- The calls that wait for a child, for a terminal or for the clock.
use sc0x3a.Base.{
  ℕ, ap, ℤ, pos, not, eqb_ℤ, error, Option, none, [], ◌∷◌, ◌++◌, if◌then◌else◌, arith, find,
  count-append,
}
use sc0x3a.Kernel.{Kernel, Pcb, Point, SleepInfo, delay}
use sc0x3a.Kernel.Monad.{
  M, ◌>>=◌, get, put, current, malloc, malloc_lem, insert_last, set_pcb, Switches-bind,
  Keeps-of_Switches,
}
use sc0x3a.Scheduler.{normal_schedule, update_pcb, insert_sleep_list}
use sc0x3a.Process.{sys_Wait, reap, wait_back, child_of, sys_Delay}
use sc0x3a.Terminal.{put_io}
use sc0x3a.Quiet.{
  Silent, silent_rules, Silent-bind, Silent-get, Silent-current, Silent-elim, Silent-pure,
  Silent-remove_dead,
}
use sc0x3a.Quiet.Memory.{write_int-Silent}
use sc0x3a.Places.{count_in, count_active, sleepers}
use sc0x3a.Places.Counting.{Same, count_in-append}
use sc0x3a.Places.Conserve.{
  CanBlock, Conserves, Blocks, Conserves-of_Silent, Conserves-of_Blocks, Conserves-bind,
  Conserves-current, Conserves-if, Conserves-elim, switch-Same,
}

module _ (a p : ℕ) where
  -- A process that waits for a child.
  pub wait-Conserves :
      {B : Type 0} (pt : Kernel → Point) (f : Kernel → ℤ → M B)
      → Conserves a p (
          malloc >>= λ b. get >>= λ k.
          put (record k { wait_list = (insert_last k.wait_list p b).0 }) >>= λ _.
          normal_schedule (pt k) >>= f k)
  unfolding Conserves insert_last
  wait-Conserves pt f k c =
      let k₁ = record k { wait_list = k.wait_list ++ p ∷ [] } in
      let c₁ : CanBlock p k₁ = record { memory = c.memory; active = c.active; ready = c.ready } in
      rw (malloc_lem k c.memory) (
        Keeps-of_Switches (Same a k) _ (
          Switches-bind (Same a k) (normal_schedule (pt k) k₁) (f k) (
            switch-Same a p (pt k) k k₁ c₁
              (omega (arith, ap (count_active a) c.active, count-append a k.wait_list (p ∷ []))))))

  -- A process that waits for a terminal.
  pub io-Blocks :
      {B : Type 0} (pt : Point) (m : M B) (f : ℤ → M B)
      → Blocks a p
          (put_io p >>= λ rc. if not (eqb_ℤ rc (pos 0)) then m else normal_schedule pt >>= f)
  unfolding Blocks put_io insert_last
  io-Blocks pt m f k c =
      let k₁ = record k { io_list = k.io_list ++ p ∷ [] } in
      let c₁ : CanBlock p k₁ = record { memory = c.memory; active = c.active; ready = c.ready } in
      rw (malloc_lem k c.memory) (
        Switches-bind (Same a k) (normal_schedule pt k₁) f (
          switch-Same a p pt k k₁ c₁
            (omega (arith, ap (count_active a) c.active, count-append a k.io_list (p ∷ [])))))

  pub update-Blocks :
      {B : Type 0} (q : ℕ) (g : Pcb → Pcb) (m : M B)
      → Blocks a p m
      → Blocks a p (update_pcb q g >>= λ _. m)
  unfolding Blocks update_pcb
  update-Blocks q g m b k c =
      b (record k { pcbs = set_pcb k.pcbs q (g (k.pcbs q)) })
        (record { memory = c.memory; active = c.active; ready = c.ready })

  pub sleep-Blocks :
      {B : Type 0} (n : ℤ) (pt : Point) (m : M B) (f : ℤ → M B)
      → Blocks a p (
          insert_sleep_list p n >>= λ rc.
          if not (eqb_ℤ rc (pos 0)) then m else normal_schedule pt >>= f)
  unfolding Blocks insert_sleep_list update_pcb insert_last count_in
  sleep-Blocks n pt m f k c =
      let s : SleepInfo = record { ticks_left = n; pcb = p } in
      let k₀ = record k {
        pcbs = set_pcb k.pcbs p (let b = k.pcbs p in record b { state = delay });
      } in
      let k₁ = record k₀ { sleep_list = k.sleep_list ++ s ∷ [] } in
      let c₁ : CanBlock p k₁ = record { memory = c.memory; active = c.active; ready = c.ready } in
      rw (malloc_lem k c.memory) (
        rw (malloc_lem k₀ c.memory) (
          Switches-bind (Same a k) (normal_schedule pt k₁) f (
            switch-Same a p pt k k₁ c₁ (
              omega (
                arith,
                ap (count_active a) c.active,
                count_in-append sleepers a k.sleep_list (s ∷ []),
              )))))

pub reap-Silent : (i : ℕ) → Silent (reap i)
unfolding reap
reap-Silent i = Silent-bind get _ Silent-get λ k. Silent-bind current _ Silent-current λ p.
    Silent-elim (find (child_of p) k.dead_list) _ _ (Silent-pure {A = Option ℤ} none)
      λ d. (search (silent_rules, write_int-Silent, Silent-remove_dead) depth 12)

pub wait_back-Silent : (i : ℕ) → Silent (wait_back i)
unfolding wait_back
wait_back-Silent i = search (silent_rules, reap-Silent) depth 12

-- Where `malloc` does not fail and another process is ready, sys_Wait leaves every process in as many
-- places as it was.
pub sys_Wait-places : (a p : ℕ) → Conserves a p sys_Wait
unfolding sys_Wait
sys_Wait-places a p = Conserves-bind a p get _ Silent-get λ k. Conserves-current a p _ (
    Conserves-if a p _ _ _ (Conserves-of_Silent a p _ (Silent-pure error)) (
      Conserves-bind a p (reap 1) _ (reap-Silent 1) λ r.
        Conserves-elim a p r _ _ (wait-Conserves a p _ _)
          λ pid. Conserves-of_Silent a p _ (Silent-pure pid)))

pub sys_Delay-places : (a p : ℕ) → Conserves a p sys_Delay
unfolding sys_Delay
sys_Delay-places a p = Conserves-bind a p get _ Silent-get λ k.
    Conserves-if a p _ _ _ (Conserves-of_Silent a p _ (Silent-pure error)) (
      Conserves-if a p _ _ _ (Conserves-of_Silent a p _ (Silent-pure (pos 0)))
        (Conserves-current a p _ (Conserves-of_Blocks a p _ (sleep-Blocks a p _ _ _ _))))
