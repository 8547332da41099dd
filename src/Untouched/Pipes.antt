-- ===== src/Untouched/Pipes.antt =====
-- What the calls of pipes leave as it was.
use sc0x3a.Base.{
  ℕ, zero, suc, ◌+◌, ◌≡◌, refl, Bool, true, false, none, some, List, [], ◌∷◌, arith, find,
  remove_first, All, All-append, update_first, length, ℤ, pos, pos_part, error, to_int,
}
use sc0x3a.Kernel.{Kernel, Kind, PipeInfo, pipe_wait}
use sc0x3a.Kernel.Monad.{M, crash, pure, get, put, current, malloc, insert_last, put_ready, ◌>>=◌}
use sc0x3a.Kernel.Memory.{read_bytes, write_bytes, write_int}
use sc0x3a.Scheduler.{normal_schedule, unblock}
use sc0x3a.Lock.{malloc_at}
use sc0x3a.Pipe.{
  sys_PipeInit, bytes, take_bytes, add_bytes, writable, wake_reader, wait_for_pipe, can_free,
  free_moved, read_pipe, pipe_loop, pipe_back, sys_PipeRead, sys_PipeWrite, destroy_pipe_info,
  is_pipe, pipe_at,
}
use sc0x3a.Pipe.Bounds.{Fits, All-update_same}
use sc0x3a.Pipe.Stream.{Drains, Drains-empty, take_bytes-Drains}
use sc0x3a.Quiet.Memory.{write_bytes-Silent, read_bytes-Silent}
use sc0x3a.Untouched.{
  Part, pids, boot, locks, sems, pipes, fits, balanced, drains, held, Kept, Kept-refl, Leaves,
  Leaves-from, Leaves-read, Keeps-elim, Keeps-elim_list, Leaves-of_Silent, Leaves-bind, Leaves-elim,
  Leaves-modify, Leaves-pure, Leaves-get, Leaves-if, Leaves-current, Leaves-malloc, Leaves-crash,
  Leaves-out_of_fuel, leaves_rules,
}
use sc0x3a.Untouched.Switching.{Leaves-put_ready, Leaves-unblock, Leaves-normal_schedule}
use sc0x3a.Untouched.Cvars.{Leaves-malloc_at, Leaves-put_reclaim, Leaves-write_int}

-- All but the pipes is as it was.
pub record StillButPipes (k k' : Kernel) : Type 0 where
  pub pids : k'.next_pid ≡ k.next_pid
  pub boot : k'.boot ≡ k.boot
  pub locks : k'.lock_list ≡ k.lock_list
  pub sems : k'.sem_list ≡ k.sem_list

-- What the part says of each pipe.
abbrev OfPipe : Part → PipeInfo → Type 0
OfPipe fits p = Fits p
OfPipe (drains id cs) p = Drains id cs p
OfPipe _ p = Unit

abbrev pub not_pipes : Part → Bool
not_pipes pipes = false
not_pipes _ = true

Kept-set_pipes :
    (x : Part) (k k' : Kernel)
    → not_pipes x ≡ true
    → StillButPipes k k'
    → (All (OfPipe x) k.pipe_list → All (OfPipe x) k'.pipe_list)
    → Kept x k k'
unfolding Kept
Kept-set_pipes pids k k' t s h = s.pids
Kept-set_pipes boot k k' t s h = s.boot
Kept-set_pipes locks k k' t s h = s.locks
Kept-set_pipes sems k k' t s h = s.sems
Kept-set_pipes pipes k k' t s h = absurd (cc)
Kept-set_pipes fits k k' t s h = h
Kept-set_pipes balanced k k' t s h = λ b. rw (s.sems) b
Kept-set_pipes (drains id cs) k k' t s h = h
Kept-set_pipes (held n q) k k' t s h = λ l. rw (s.locks) l

All-remove_first :
    (P : PipeInfo → Type 0) (test : PipeInfo → Bool) (ps : List PipeInfo)
    → All P ps
    → All P (remove_first test ps)
All-remove_first P test [] h = tt
All-remove_first P test (p ∷ ps) h = ground (arith, All-remove_first P test ps h.1)

insert_last-All :
    (P : PipeInfo → Type 0) (p : PipeInfo) (b : Bool) (ps : List PipeInfo)
    → P p
    → All P ps
    → All P (insert_last ps p b).0
unfolding insert_last
insert_last-All P p true ps h a = All-append P ps (p ∷ []) a (h, tt)
insert_last-All P p false ps h a = a

take_bytes-Fits : (n : ℕ) (p : PipeInfo) → Fits p → Fits (take_bytes n p)
unfolding take_bytes
take_bytes-Fits n p h = omega (arith, h)

take_bytes-OfPipe : (x : Part) (n : ℕ) (p : PipeInfo) → OfPipe x p → OfPipe x (take_bytes n p)
take_bytes-OfPipe fits n p h = take_bytes-Fits n p h
take_bytes-OfPipe (drains id cs) n p h = take_bytes-Drains id cs n p h
take_bytes-OfPipe _ n p h = tt

waits-OfPipe :
    (x : Part) (p : PipeInfo) (ws : List ℕ)
    → OfPipe x p
    → OfPipe x (record p { pipe_wait_list = ws })
waits-OfPipe fits p ws h = h
waits-OfPipe (drains id cs) p ws h = h
waits-OfPipe _ p ws h = tt

empty-OfPipe : (x : Part) (p : PipeInfo) → p.cur_len ≡ 0 → OfPipe x p
empty-OfPipe fits p e = omega arith
empty-OfPipe (drains id cs) p e = Drains-empty id cs p e
empty-OfPipe _ p e = tt

module _ (x : Part) (t : not_pipes x ≡ true) where
  sets_pipes :
      (k : Kernel) (ps : List PipeInfo)
      → (All (OfPipe x) k.pipe_list → All (OfPipe x) ps)
      → Kept x k (record k { pipe_list = ps })
  sets_pipes k ps h = Kept-set_pipes x k (record k { pipe_list = ps }) t (ground arith) h

  edit_pipes :
      {A : Type 0} (g : Kernel → List PipeInfo) (m : Kernel → M A)
      → ((k : Kernel) → All (OfPipe x) k.pipe_list → All (OfPipe x) (g k))
      → ((k : Kernel) → Leaves x (m k))
      → Leaves x (get >>= λ k. put (record k { pipe_list = g k }) >>= λ _. m k)
  edit_pipes g m h s =
      Leaves-modify x (λ k. record k { pipe_list = g k }) m (λ k. sets_pipes k (g k) (h k)) s

  wait_for_pipe-Leaves : (a w : ℕ) → Leaves x (wait_for_pipe a w)
  unfolding wait_for_pipe
  wait_for_pipe-Leaves a w = Leaves-bind x malloc _ (Leaves-malloc x) λ b.
      let g =
        λ (p : PipeInfo). record p { pipe_wait_list = (insert_last p.pipe_wait_list w b).0 } in
      edit_pipes (λ k. update_first (pipe_at a) g k.pipe_list) _
        (λ k.
          All-update_same (OfPipe x) (pipe_at a) g k.pipe_list
            (λ p. waits-OfPipe x p (insert_last p.pipe_wait_list w b).0))
        λ k. Leaves-pure x tt

  wake_reader-Leaves : (test : PipeInfo → Bool) → Leaves x (wake_reader test)
  unfolding wake_reader
  wake_reader-Leaves test =
      Leaves-read x
        (λ k. elim (find test k.pipe_list) [
          | none ↦ crash
          | some p ↦ elim p.pipe_wait_list [
            | [] ↦ pure tt
            | v ∷ vs ↦
                let g = λ (p : PipeInfo). record p { pipe_wait_list = vs } in
                put (record k { pipe_list = update_first test g k.pipe_list }) >>= λ _.
                put_ready v >>= λ _. pure tt
          ]
        ])
        λ k. Keeps-elim (Kept x k) k (find test k.pipe_list) _ _ tt λ p.
          Keeps-elim_list (Kept x k) k p.pipe_wait_list _ _ (Kept-refl x k) λ v vs.
            let g = λ (p : PipeInfo). record p { pipe_wait_list = vs } in
            Leaves-from x (put_ready v >>= λ _. pure tt) k
              (record k { pipe_list = update_first test g k.pipe_list })
              (Leaves-bind x (put_ready v) _ (Leaves-put_ready x v) λ _. Leaves-pure x tt)
              (sets_pipes k (update_first test g k.pipe_list)
                (All-update_same (OfPipe x) test g k.pipe_list (λ p. waits-OfPipe x p vs)))

  free_moved-Leaves : (n : ℕ) → Leaves x (free_moved n)
  unfolding free_moved
  free_moved-Leaves n =
      Leaves-bind x get _ (Leaves-get x)
        λ k. Leaves-if x (can_free n k) _ _ (Leaves-pure x tt) (Leaves-crash x _)

  read_pipe-Leaves : (a : ℕ) (p : PipeInfo) → Leaves x (read_pipe a p)
  unfolding read_pipe
  read_pipe-Leaves a p = Leaves-bind x get _ (Leaves-get x) λ k.
      let n = pos_part (to_int k.uctxt.reg2) in
      let bs = bytes p.pipe_buffer 0 n in
      Leaves-bind x (write_bytes k.uctxt.reg1 bs) _
        (Leaves-of_Silent x _ (write_bytes-Silent k.uctxt.reg1 bs))
        λ _. Leaves-bind x malloc _ (Leaves-malloc x) λ b. Leaves-if x _ _ _ (Leaves-crash x ℤ) (
          Leaves-bind x (free_moved n) _ (free_moved-Leaves n) λ _.
            edit_pipes (λ k. update_first (pipe_at a) (take_bytes n) k.pipe_list) _
              (λ k.
                All-update_same (OfPipe x) (pipe_at a) (take_bytes n) k.pipe_list
                  (take_bytes-OfPipe x n))
              λ k.
                Leaves-bind x (wake_reader (pipe_at a)) _ (wake_reader-Leaves (pipe_at a))
                  λ _. Leaves-pure x (pos 0))

  pub Leaves-pipe_loop : (fuel a : ℕ) (exist : Bool) → Leaves x (pipe_loop fuel a exist)
  unfolding pipe_loop
  Leaves-pipe_loop zero a exist = Leaves-out_of_fuel x ℤ
  Leaves-pipe_loop (suc fuel) a exist = Leaves-bind x get _ (Leaves-get x) λ k.
      Leaves-bind x current _ (Leaves-current x) λ w.
        Leaves-elim x (find (pipe_at a) k.pipe_list) _ _ (Leaves-crash x ℤ) λ p.
          Leaves-if x _ _ _
            (Leaves-bind x (wait_for_pipe a w) _ (wait_for_pipe-Leaves a w) λ _.
              Leaves-bind x (normal_schedule (pipe_wait a exist)) _ (Leaves-normal_schedule x _)
                λ rc. Leaves-if x _ _ _ (Leaves-pure x error) (
                  Leaves-bind x get _ (Leaves-get x)
                    λ k. Leaves-if x _ _ _ (Leaves-pure x error) (Leaves-pipe_loop fuel a true)))
            (read_pipe-Leaves a p)

  pub Leaves-pipe_back : (fuel a : ℕ) (exist : Bool) → Leaves x (pipe_back fuel a exist)
  unfolding pipe_back
  Leaves-pipe_back fuel a exist = search (leaves_rules, Leaves-pipe_loop) depth 12

  pub Leaves-sys_PipeRead : (fuel : ℕ) → Leaves x (sys_PipeRead fuel)
  unfolding sys_PipeRead
  Leaves-sys_PipeRead fuel = Leaves-bind x get _ (Leaves-get x) λ k.
      Leaves-bind x current _ (Leaves-current x) λ w. Leaves-if x _ _ _ (Leaves-pure x error) (
        Leaves-elim x (find (is_pipe (to_int k.uctxt.reg0)) k.pipe_list) _ _ (Leaves-pure x error)
          λ p. Leaves-pipe_loop fuel p.addr false)

  pub Leaves-destroy_pipe_info : (id : ℤ) → Leaves x (destroy_pipe_info id)
  unfolding destroy_pipe_info
  Leaves-destroy_pipe_info id = Leaves-bind x get _ (Leaves-get x) λ k.
      Leaves-if x _ _ _ (Leaves-pure x error) (
        Leaves-elim x (find (is_pipe id) k.pipe_list) _ _ (Leaves-pure x error) λ p.
          Leaves-bind x (unblock 1 p.pipe_wait_list) _ (Leaves-unblock x 1 p.pipe_wait_list) λ _.
            edit_pipes (λ k. remove_first (is_pipe id) k.pipe_list) _
              (λ k. All-remove_first (OfPipe x) (is_pipe id) k.pipe_list)
              λ k. Leaves-pure x (pos 0))

  pub Leaves-sys_PipeInit : Leaves x sys_PipeInit
  unfolding sys_PipeInit
  Leaves-sys_PipeInit = Leaves-bind x malloc_at _ (Leaves-malloc_at x) λ c.
      Leaves-bind x malloc _ (Leaves-malloc x) λ r.
        Leaves-elim x c _ _ (Leaves-pure x error) λ addr. Leaves-if x _ _ _ (Leaves-pure x error) (
          Leaves-bind x get _ (Leaves-get x) λ k. Leaves-bind x malloc _ (Leaves-malloc x) λ buffer.
            Leaves-if x _ _ _ (Leaves-pure x error) (
              Leaves-bind x malloc _ (Leaves-malloc x) λ h.
                Leaves-if x _ _ _ (Leaves-pure x error) (
                  let id = length k.reclaim_list + 1 in
                  let p : PipeInfo = record {
                    addr = addr;
                    pipeid = id;
                    cur_len = 0;
                    pipe_buffer = λ i. 0;
                    pipe_wait_list = [];
                  } in
                  Leaves-bind x (write_int k.uctxt.reg0 (pos id)) _
                    (Leaves-write_int x k.uctxt.reg0 (pos id))
                    λ _. Leaves-bind x malloc _ (Leaves-malloc x) λ b.
                      edit_pipes (λ k. (insert_last k.pipe_list p b).0) _
                        (λ k. insert_last-All (OfPipe x) p b k.pipe_list (empty-OfPipe x p refl))
                        λ k.
                          Leaves-if x _ _ _ (Leaves-pure x (insert_last k.pipe_list p b).1)
                            (Leaves-put_reclaim x (record { id = id; kind = Kind.pipe })))))

-- The pipes and what they hold aside.
abbrev pub not_filled : Part → Bool
not_filled pipes = false
not_filled fits = false
not_filled (drains id cs) = false
not_filled _ = true

filled-not_pipes : (x : Part) → not_filled x ≡ true → not_pipes x ≡ true
filled-not_pipes x t = ground arith

filled-not_fits :
    (x : Part)
    → not_filled x ≡ true
    → (k : Kernel) (ps : List PipeInfo) → Kept x k (record k { pipe_list = ps })
unfolding Kept
filled-not_fits pids t k ps = refl
filled-not_fits boot t k ps = refl
filled-not_fits locks t k ps = refl
filled-not_fits sems t k ps = refl
filled-not_fits pipes t k ps = absurd (cc)
filled-not_fits fits t k ps = absurd (cc)
filled-not_fits balanced t k ps = λ h. h
filled-not_fits (drains id cs) t k ps = absurd (cc)
filled-not_fits (held n q) t k ps = λ h. h

module _ (x : Part) (t : not_filled x ≡ true) where
  pub Leaves-sys_PipeWrite : Leaves x sys_PipeWrite
  unfolding sys_PipeWrite
  Leaves-sys_PipeWrite = Leaves-bind x get _ (Leaves-get x) λ k.
      let id = to_int k.uctxt.reg0 in
      Leaves-bind x current _ (Leaves-current x) λ w. Leaves-if x _ _ _ (Leaves-pure x error) (
        Leaves-elim x (find (is_pipe id) k.pipe_list) _ _ (Leaves-pure x error) λ p.
          let n = writable p (pos_part (to_int k.uctxt.reg2)) in
          Leaves-bind x (read_bytes k.uctxt.reg1 n) _
            (Leaves-of_Silent x _ (read_bytes-Silent k.uctxt.reg1 n))
            λ bs.
              Leaves-modify x
                (λ k. record k { pipe_list = update_first (is_pipe id) (add_bytes bs) k.pipe_list })
                _
                (λ k. filled-not_fits x t k (update_first (is_pipe id) (add_bytes bs) k.pipe_list))
                λ k.
                  Leaves-bind x (wake_reader (is_pipe id)) _
                    (wake_reader-Leaves x (filled-not_pipes x t) (is_pipe id))
                    λ _. Leaves-pure x (pos n))
