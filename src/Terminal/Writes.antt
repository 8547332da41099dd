-- ===== src/Terminal/Writes.antt =====
-- A turn of the loops of sys_TtyWrite of syscall.c.
use sc0x3a.Base.{
  ℕ, suc, min, ◌<◌, ◌≡◌, refl, sym, ap, ◌∙◌, arith, true, false, some, List, [], ◌∷◌, ◌++◌,
  if◌then◌else◌, ℤ, pos, eqb_ℤ, eqb_ℤ_iff, leb_ℤ, to_int, Bool-cases, inl, inr,
}
use sc0x3a.Kernel.{Kernel, Pcb, Pte, Point, blocked_w}
use sc0x3a.Kernel.Monad.{current_lem, set_pcb, malloc, insert_last}
use sc0x3a.Scheduler.{normal_schedule, update_pcb}
use sc0x3a.Scheduler.Switch.{CanRun}
use sc0x3a.Scheduler.Choice.{
  GivesTo, GivesTo-bind, GivesTo-mono, Rescheduled, choose, normal_schedule_lem,
}
use sc0x3a.Terminal.{block_writer, transmit, put_io, write_loop, chunk, remaining}

-- `next` runs; `p` stands last among those that wait for terminals; what has been sent and which terminals
-- are busy is as it was.
pub record Blocked (p next : ℕ) (k k' : Kernel) : Type 0 where
  pub active : k'.active_proc ≡ some next
  pub io : k'.io_list ≡ k.io_list ++ p ∷ []
  pub busy : k'.busy_terminal ≡ k.busy_terminal
  pub sent : k'.sent ≡ k.sent

waiting-stack :
    (f : ℕ → Pcb) (p q : ℕ) (t : ℤ)
    → (set_pcb f p (let c = f p in record c { state = blocked_w; tty_id = t }) q).k_stack_0
      ≡ (f q).k_stack_0
waiting-stack f p q t = ground arith

block_writer-Blocked :
    (t : ℤ) (pt : Point) (p x : ℕ) (xs : List ℕ) (k : Kernel)
    → k.mallocs ≡ []
    → k.active_proc ≡ some p
    → k.ready_queue ≡ x ∷ xs
    → CanRun k (choose x xs).0
    → GivesTo (Blocked p (choose x xs).0 k) (block_writer t pt k)
unfolding block_writer put_io update_pcb malloc insert_last
block_writer-Blocked t pt p x xs k m act q can =
    let next = choose x xs in
    let k₁ = record k {
      mallocs = [];
      pcbs = set_pcb k.pcbs p (let c = k.pcbs p in record c { state = blocked_w; tty_id = t });
      io_list = k.io_list ++ p ∷ [];
    } in
    let can₁ : CanRun k₁ next.0 = elim can [
      | inl own ↦ inl λ z. own (ap (λ (e : Pte). e.pfn) (sym (waiting-stack k.pcbs p next.0 t)) ∙ z)
      | inr frames ↦ inr frames
    ] in
    let away : GivesTo (Blocked p next.0 k) (normal_schedule pt k₁) =
      GivesTo-mono (Rescheduled k₁ next.0 next.1) _ (normal_schedule pt k₁)
        (normal_schedule_lem pt x xs k₁ refl q can₁)
        λ k' s. record { active = s.active; io = s.io; busy = s.busy; sent = s.sent } in
    rw (current_lem k p act) (simp (m) (GivesTo-bind _ (normal_schedule pt k₁) _ away))

-- What the turn of the process `p` with `len` bytes to write leaves: another process runs; the part
-- that is sent where the terminal of the call is free; the terminal is busy then.
abbrev pub Sends : ℕ → ℕ → ℕ → Kernel → Kernel → Type 0
Sends p len next k k' =
    let t = to_int k.uctxt.reg0 in
    (k'.active_proc ≡ some next)
    × (k'.sent
        ≡ (if k.busy_terminal t then k.sent else (t, k.uctxt.reg1, pos (min len 1024)) ∷ k.sent))
    × (k'.busy_terminal t ≡ true)
    × (k'.io_list ≡ k.io_list ++ p ∷ [])

chunk-min : (len : ℕ) → chunk (pos len) ≡ pos (min len 1024)
chunk-min len = ground arith

-- Where `malloc` does not fail, a process runs and another is ready, the one that is chosen has a kernel
-- stack or finds frames for one, and bytes remain to be written: if the terminal is busy nothing is sent,
-- if it is free the bytes that remain are, or 1024 where these are more, from the address of the call; the
-- process does not go on, and stands last among those that wait for terminals, the terminal is busy, and
-- the chosen process runs.
pub write_loop-Sends :
    (fuel len p x : ℕ) (xs : List ℕ) (k : Kernel)
    → k.mallocs ≡ []
    → k.active_proc ≡ some p
    → k.ready_queue ≡ x ∷ xs
    → CanRun k (choose x xs).0
    → 0 < len
    → GivesTo (Sends p len (choose x xs).0 k) (write_loop (suc fuel) (pos len) k)
unfolding write_loop transmit
write_loop-Sends fuel len p x xs k m act q can more =
    let t = to_int k.uctxt.reg0 in
    let next = (choose x xs).0 in
    let some_left : leb_ℤ (pos len) (pos 0) ≡ false = ground arith in
    elim (Bool-cases (k.busy_terminal t)) [
      | inl b ↦
          let pt = Point.tty_busy (pos len) in
          let out : GivesTo (Sends p len next k) (block_writer t pt k) =
            GivesTo-mono (Blocked p next k) (Sends p len next k) (block_writer t pt k)
              (block_writer-Blocked t pt p x xs k m act q can)
              λ k' s. rw (b) (s.active, s.sent, rw (s.busy) b, s.io) in
          rw (some_left) (simp (b) (GivesTo-bind (Sends p len next k) (block_writer t pt k) _ out))
      | inr b ↦
          let pt = Point.tty_sent (remaining (pos len)) in
          let k₁ = record k {
            busy_terminal = λ s. if eqb_ℤ s t then true else k.busy_terminal s;
            sent = (t, k.uctxt.reg1, chunk (pos len)) ∷ k.sent;
          } in
          let itself : eqb_ℤ t t ≡ true = (eqb_ℤ_iff t t).1 refl in
          let out : GivesTo (Sends p len next k) (block_writer t pt k₁) =
            GivesTo-mono (Blocked p next k₁) (Sends p len next k) (block_writer t pt k₁)
              (block_writer-Blocked t pt p x xs k₁ m act q can)
              λ k' s.
                rw (b, sym (chunk-min len)) (s.active, s.sent, rw (s.busy, itself) refl, s.io) in
          rw (some_left) (simp (b) (GivesTo-bind (Sends p len next k) (block_writer t pt k₁) _ out))
    ]
