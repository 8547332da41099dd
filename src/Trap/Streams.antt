-- ===== src/Trap/Streams.antt =====
-- Pipes through every run of the machine: the bytes that the writes of a run put into a pipe, and what
-- the pipe holds of them at the end.
use mathlib.Core.List.{append-nil, append_assoc}
use sc0x3a.Base.{
  ℕ, suc, ◌≡◌, ◌≢◌, ◌⊎◌, refl, sym, Bool, true, List, [], ◌++◌, arith, All, ℤ, inl, inr,
}
use sc0x3a.Kernel.{Kernel, Handler, on_kernel}
use sc0x3a.Kernel.Monad.{Outcome, Keeps, Keeps-bind, Keeps-mono}
use sc0x3a.Places.Conserve.{CanBlock}
use sc0x3a.Pipe.{is_pipe}
use sc0x3a.Pipe.Stream.{Drains}
use sc0x3a.Pipe.Written.{alone, written_to, sys_PipeWrite-Written}
use sc0x3a.Trap.{Outside, Call, call_of, pipe_write, dispatch, set_result, trap_kernel_hdl, handle}
use sc0x3a.Trap.Machine.{
  Leads-Keeps, trap_eq, Step, computes, traps, resumes, RunsTo, stays, goes_on,
}
use sc0x3a.Trap.Lasting.{Leaves-set_result, Kept-handle, Kept-resume}
use sc0x3a.Untouched.{drains, Kept, Kept-of_Still, Leaves}
use sc0x3a.Untouched.Calls.{leaves, Kept-dispatch}

-- What a kernel call of the process `p` puts into the pipe.
abbrev pub put_by_call : ℤ → ℕ → Kernel → Call → List ℕ
put_by_call id p k pipe_write = written_to id p k
put_by_call id p k _ = []

-- What a trap in which `p` runs puts into the pipe.
abbrev pub put_by_trap : ℤ → ℕ → Kernel → Handler → List ℕ
put_by_trap id p k on_kernel = put_by_call id p k (call_of k.uctxt.code)
put_by_trap id p k _ = []

abbrev pub put_by_step :
    {ok : ℕ → Kernel → Handler → Bool} {k k' : Kernel} → ℤ → Step ok k k' → List ℕ
put_by_step {k} id (computes m u) = []
put_by_step {k} id (traps p fuel out vector h e t c s) = put_by_trap id p k h
put_by_step {k} id (resumes p fuel c s) = []

-- All that the calls of a run put into the pipe, in their order.
abbrev pub stream : {ok : ℕ → Kernel → Handler → Bool} {k k' : Kernel} → ℤ → RunsTo ok k k' → List ℕ
stream id stays = []
stream id (goes_on r s) = stream id r ++ put_by_step id s

-- Traps at which no two pipes have the id.
abbrev pub one_pipe : ℤ → ℕ → Kernel → Handler → Bool
one_pipe id p k h = alone (is_pipe id) k.pipe_list

-- Every pipe with the id holds the last of the bytes, in their order.
abbrev pub Holds : ℤ → List ℕ → Kernel → Type 0
Holds id cs k = All (Drains id cs) k.pipe_list

other_call :
    (id : ℤ) (cs : List ℕ) (p : ℕ) (k : Kernel) (c : Call)
    → (c ≡ pipe_write) ⊎ ((leaves (drains id cs) p c ≡ true) × (put_by_call id p k c ≡ []))
other_call id cs p k c = ground arith

other_trap :
    (id : ℤ) (p : ℕ) (k : Kernel) (h : Handler)
    → (h ≡ on_kernel) ⊎ ((h ≢ on_kernel) × (put_by_trap id p k h ≡ []))
other_trap id p k h = ground arith

module _ (id : ℤ) (cs : List ℕ) (k : Kernel) (b : Holds id cs k) where
  from_Kept :
      {A : Type 0} (r : Outcome A) {bs : List ℕ}
      → bs ≡ []
      → Keeps (Kept (drains id cs) k) r
      → Keeps (Holds id (cs ++ bs)) r
  unfolding Kept
  from_Kept r e h = rw (e, append-nil cs) (Keeps-mono _ _ r h λ k' f. f b)

  module _ (p fuel : ℕ) (out : Outside) (c : CanBlock p k)
      (u : alone (is_pipe id) k.pipe_list ≡ true) where
    dispatch-Holds :
        (call : Call)
        → Keeps
            (Holds id (cs ++ put_by_call id p k call))
            (dispatch (suc fuel) out.files out.junk call k)
    unfolding dispatch
    dispatch-Holds call = elim (other_call id cs p k call) [
      | inl e ↦ rw (e) (sys_PipeWrite-Written cs k p c.memory c.active id u b)
      | inr (l, e) ↦
          from_Kept _ e
            (Kept-dispatch (drains id cs) p k c.active (suc fuel) out.files out.junk call l)
    ]

    handle_kernel-Holds :
        Keeps (Holds id (cs ++ put_by_trap id p k on_kernel)) (handle (suc fuel) out on_kernel k)
    unfolding handle trap_kernel_hdl Leaves Kept
    handle_kernel-Holds =
        let call = call_of k.uctxt.code in
        let sent = cs ++ put_by_call id p k call in
        let Q = Holds id sent in
        Keeps-bind Q Q (dispatch (suc fuel) out.files out.junk call k) set_result
          (dispatch-Holds call) (λ k₁ h. h)
          λ rc k₁ h.
            Keeps-mono (Kept (drains id sent) k₁) Q (set_result rc k₁)
              (Leaves-set_result (drains id sent) rc k₁) λ k₂ f. f h

    handle-Holds :
        (h : Handler) → Keeps (Holds id (cs ++ put_by_trap id p k h)) (handle (suc fuel) out h k)
    handle-Holds h = elim (other_trap id p k h) [
      | inl e ↦ rw (e) handle_kernel-Holds
      | inr (other, e) ↦
          from_Kept _ e (Kept-handle (drains id cs) (suc fuel) out k h λ q. absurd (other q))
    ]

pub Step-Holds :
    (id : ℤ) (cs : List ℕ) {k k' : Kernel} (s : Step (one_pipe id) k k')
    → Holds id cs k
    → Holds id (cs ++ put_by_step id s) k'
unfolding Kept
Step-Holds id cs {k} (computes m u) b =
    rw (append-nil cs)
      (Kept-of_Still (drains id cs) k (record k { phys = m; uctxt = u }) (ground arith) b)
Step-Holds id cs {k} {k'} (traps p fuel out vector h e t c s) b =
    Leads-Keeps (Holds id (cs ++ put_by_trap id p k h)) _ k' s
      (rw (trap_eq (suc fuel) out k vector h e) (handle-Holds id cs k b p fuel out c t h))
Step-Holds id cs {k} {k'} (resumes p fuel c s) b =
    Leads-Keeps (Holds id (cs ++ [])) _ k' s
      (from_Kept id cs k b _ refl (Kept-resume (drains id cs) refl refl (suc fuel) p k c.active))

-- In every run of traps, of processes that go on where they gave the processor away, and of computations
-- of a process, such that `malloc` does not fail, a process runs and another is ready at each trap and
-- each resumption, and no two pipes have the id at a trap: if a pipe with the id holds at the beginning
-- the last of some bytes, it holds at the end the last of these bytes followed by all that the calls of
-- sys_PipeWrite in the run put into the pipe with the id, in their order.
pub RunsTo-stream :
    (id : ℤ) (cs : List ℕ) {k k' : Kernel} (r : RunsTo (one_pipe id) k k')
    → Holds id cs k
    → Holds id (cs ++ stream id r) k'
RunsTo-stream id cs stays b = rw (append-nil cs) b
RunsTo-stream id cs {k} {k'} (goes_on {k₁} r s) b =
    rw (sym (append_assoc cs (stream id r) (put_by_step id s)))
      (Step-Holds id (cs ++ stream id r) s (RunsTo-stream id cs r b))
