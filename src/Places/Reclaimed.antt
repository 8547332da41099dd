-- ===== src/Places/Reclaimed.antt =====
-- Where the processes are around sys_Reclaim.
use sc0x3a.Base.{
  ℕ, ◌≤◌, ◌≡◌, false, none, some, List, [], arith, find, ℤ, pos, eqb_ℤ, ltb_ℤ, to_int, error, inl,
  inr, Bool-cases, Option-cases,
}
use sc0x3a.Kernel.{Kernel, Kind, pipe, lock, cvar}
use sc0x3a.Kernel.Monad.{Outcome, done, switched, fault, out_of_fuel, Does, Keeps, Keeps-bind}
use sc0x3a.Lock.{destroy_lock_info, destroyable}
use sc0x3a.Cvar.{destroy_cvar_info, is_cvar}
use sc0x3a.Pipe.{destroy_pipe_info, is_pipe}
use sc0x3a.Reclaim.{destroy, has_id, sys_Reclaim}
use sc0x3a.Places.{places}
use sc0x3a.Places.Destroyed.{
  Loses, destroy_lock_info-Loses, destroy_cvar_info-Loses, destroy_pipe_info-Loses,
}

-- The process stands in no more places than it did.
abbrev pub Fewer : ℕ → Kernel → Kernel → Type 0
Fewer a k k' = places a k' ≤ places a k

Fewer-of_Loses :
    (a : ℕ) (ws : List ℕ) (k : Kernel) (r : Outcome ℤ) → Does (Loses a ws k) r → Keeps (Fewer a k) r
Fewer-of_Loses a ws k (done rc k') d = omega (arith, d.1)
Fewer-of_Loses a ws k (switched k') d = absurd d
Fewer-of_Loses a ws k fault d = absurd d
Fewer-of_Loses a ws k out_of_fuel d = absurd d

module _ (a p : ℕ) (k : Kernel) (m : k.mallocs ≡ []) (act : k.active_proc ≡ some p) (id : ℤ)
    (valid : ltb_ℤ id (pos 0) ≡ false) where
  destroy_lock_info-none :
      find (destroyable id p) k.lock_list ≡ none → destroy_lock_info id k ≡ done error k
  unfolding destroy_lock_info
  destroy_lock_info-none e = rw (valid) (ground (arith, e))

  destroy_cvar_info-none :
      find (is_cvar id) k.cvar_list ≡ none → destroy_cvar_info id k ≡ done error k
  unfolding destroy_cvar_info
  destroy_cvar_info-none e = rw (valid, e)

  destroy_pipe_info-none :
      find (is_pipe id) k.pipe_list ≡ none → destroy_pipe_info id k ≡ done error k
  unfolding destroy_pipe_info
  destroy_pipe_info-none e = rw (valid, e)

  destroy-Fewer : (kind : Kind) → Keeps (Fewer a k) (destroy kind id k)
  unfolding destroy
  destroy-Fewer pipe = elim (Option-cases (find (is_pipe id) k.pipe_list)) [
    | inl e ↦ rw (destroy_pipe_info-none e) (omega arith)
    | inr (q, e) ↦
        Fewer-of_Loses a q.pipe_wait_list k _ (destroy_pipe_info-Loses a k m id valid q e)
  ]
  destroy-Fewer lock = elim (Option-cases (find (destroyable id p) k.lock_list)) [
    | inl e ↦ rw (destroy_lock_info-none e) (omega arith)
    | inr (l, e) ↦
        Fewer-of_Loses a l.lock_wait_list k _ (destroy_lock_info-Loses a k m id valid p l act e)
  ]
  destroy-Fewer cvar = elim (Option-cases (find (is_cvar id) k.cvar_list)) [
    | inl e ↦ rw (destroy_cvar_info-none e) (omega arith)
    | inr (c, e) ↦
        Fewer-of_Loses a c.cvar_wait_list k _ (destroy_cvar_info-Loses a k m id valid c e)
  ]

-- Where `malloc` does not fail and a process runs, sys_Reclaim leaves every process in no more places
-- than it was.
pub sys_Reclaim-Fewer :
    (a p : ℕ) (k : Kernel)
    → k.mallocs ≡ []
    → k.active_proc ≡ some p
    → Keeps (Fewer a k) (sys_Reclaim k)
unfolding sys_Reclaim
sys_Reclaim-Fewer a p k m act =
    let id = to_int k.uctxt.reg0 in
    elim (Bool-cases (ltb_ℤ id (pos 0))) [
      | inl neg ↦ rw (neg) (omega arith)
      | inr valid ↦ elim (Option-cases (find (has_id id) k.reclaim_list)) [
        | inl e ↦ rw (valid, e) (omega arith)
        | inr (r, e) ↦
            rw (valid, e)
              (Keeps-bind (Fewer a k) (Fewer a k) (destroy r.kind id k) _
                (destroy-Fewer a p k m act id valid r.kind) (λ k₁ f. f)
                λ rc k₁ f. elim (Bool-cases (eqb_ℤ rc (pos 0))) [
                  | inl z ↦ rw (z) f
                  | inr z ↦ rw (z) f
                ])
      ]
    ]
