-- ===== src/Pipe/Written.antt =====
-- The bytes that sys_PipeWrite of syscall.c puts into the pipe with an id, behind those it holds.
use mathlib.Core.List.{append-nil, append_assoc, IsSuffix, nil-suffix}
use sc0x3a.Base.{
  ℕ, ◌≡◌, sym, ap, ◌∙◌, Bool, true, false, not, none, some, List, [], ◌∷◌, ◌++◌, if◌then◌else◌,
  arith, find, any, update_first, All, ℤ, pos_part, to_int, eqb_ℤ, eqb_ℤ_iff, Bool-cases,
  Option-cases, inl, inr,
}
use sc0x3a.Kernel.{Kernel, PipeInfo}
use sc0x3a.Kernel.Monad.{Outcome, done, Keeps}
use sc0x3a.Kernel.Memory.{read_bytes}
use sc0x3a.Kernel.Memory.Frame.{read_bytes_cases}
use sc0x3a.Pipe.{is_pipe, add_bytes, writable, sys_PipeWrite}
use sc0x3a.Pipe.Buffer.{contents, add_bytes-contents}
use sc0x3a.Pipe.Stream.{Drains, Drains-absent}
use sc0x3a.Pipe.Bounds.{woken-All, sys_PipeWrite-Drains}
use sc0x3a.Pipe.Steps.{
  pipe_args, pipe_id, written, sys_PipeWrite-invalid, sys_PipeWrite-missing, sys_PipeWrite-fault,
  sys_PipeWrite-writes, add_bytes-is_pipe,
}

-- No two entries pass the test.
abbrev pub alone {ℓ} : {A : Type ℓ} → (A → Bool) → List A → Bool
alone test [] = true
alone test (x ∷ xs) = if test x then not (any test xs) else alone test xs

abbrev pub loaded : Outcome (List ℕ) → List ℕ
loaded (done bs k) = bs
loaded _ = []

-- What a write of the process `w` takes from its memory.
abbrev pub new_bytes : ℕ → Kernel → List ℕ
new_bytes w k = if pipe_args k w then [] else elim (find (is_pipe (pipe_id k)) k.pipe_list) [
  | none ↦ []
  | some p ↦ loaded (read_bytes k.uctxt.reg1 (writable p (pos_part (to_int k.uctxt.reg2))) k)
]

-- What of that goes to the pipe with this id.
abbrev pub written_to : ℤ → ℕ → Kernel → List ℕ
written_to id w k = if eqb_ℤ (pipe_id k) id then new_bytes w k else []

module _ (id : ℤ) (cs bs : List ℕ) where
  add_bytes-Drains : (p : PipeInfo) → Drains id cs p → Drains id (cs ++ bs) (add_bytes bs p)
  add_bytes-Drains p h = elim (Bool-cases (is_pipe id p)) [
    | inl t ↦
        let (d, e) : IsSuffix (contents p) cs = rw (t) at h in
        rw (add_bytes-is_pipe id bs p, t, add_bytes-contents bs p)
          ((d, sym (append_assoc d (contents p) bs) ∙ ap (λ (xs : List ℕ). xs ++ bs) e))
    | inr t ↦ rw (add_bytes-is_pipe id bs p, t) nil-suffix
  ]

  add_bytes-All_others :
      (ps : List PipeInfo) → any (is_pipe id) ps ≡ false → All (Drains id (cs ++ bs)) ps
  add_bytes-All_others [] e = tt
  add_bytes-All_others (p ∷ ps) e =
      let this : is_pipe id p ≡ false = ground arith in
      let more : any (is_pipe id) ps ≡ false = ground arith in
      (Drains-absent id (cs ++ bs) p this, add_bytes-All_others ps more)

  update_alone :
      (ps : List PipeInfo)
      → alone (is_pipe id) ps ≡ true
      → All (Drains id cs) ps
      → All (Drains id (cs ++ bs)) (update_first (is_pipe id) (add_bytes bs) ps)
  update_alone [] u h = tt
  update_alone (p ∷ ps) u h = elim (Bool-cases (is_pipe id p)) [
    | inl t ↦
        let others : any (is_pipe id) ps ≡ false = ground arith in
        rw (t) (add_bytes-Drains p h.0, add_bytes-All_others ps others)
    | inr t ↦ rw (t) (Drains-absent id (cs ++ bs) p t, update_alone ps (rw (t) at u) h.1)
  ]

module _ (cs : List ℕ) (k : Kernel) (w : ℕ) (m : k.mallocs ≡ []) (a : k.active_proc ≡ some w) where
  abbrev Holding : List ℕ → Kernel → Type 0
  Holding bs k' = All (Drains (pipe_id k) (cs ++ bs)) k'.pipe_list

  -- The write of the process goes to the pipe.
  sys_PipeWrite-here :
      alone (is_pipe (pipe_id k)) k.pipe_list ≡ true
      → All (Drains (pipe_id k) cs) k.pipe_list
      → Keeps (Holding (new_bytes w k)) (sys_PipeWrite k)
  sys_PipeWrite-here u b = elim (Bool-cases (pipe_args k w)) [
    | inl v ↦ rw (sys_PipeWrite-invalid k m w a v) (rw (v, append-nil cs) b)
    | inr v ↦ elim (Option-cases (find (is_pipe (pipe_id k)) k.pipe_list)) [
      | inl e ↦ rw (sys_PipeWrite-missing k m w a v e) (rw (v, e, append-nil cs) b)
      | inr (p, e) ↦
          let n = writable p (pos_part (to_int k.uctxt.reg2)) in
          elim (read_bytes_cases k.uctxt.reg1 n k) [
            | inl r ↦ rw (sys_PipeWrite-fault k m w a v p e r) tt
            | inr (bs, r, l) ↦ rw (sys_PipeWrite-writes k m w a v p e bs r) (
                rw (v, e, r)
                  (woken-All (Drains (pipe_id k) (cs ++ bs)) (λ p ws h. h) (is_pipe (pipe_id k))
                    p.pipe_wait_list (written bs k)
                    (update_alone (pipe_id k) cs bs k.pipe_list u b)))
          ]
    ]
  ]

  pub sys_PipeWrite-Written :
      (id : ℤ)
      → alone (is_pipe id) k.pipe_list ≡ true
      → All (Drains id cs) k.pipe_list
      → Keeps (λ k'. All (Drains id (cs ++ written_to id w k)) k'.pipe_list) (sys_PipeWrite k)
  sys_PipeWrite-Written id u b = elim (Bool-cases (eqb_ℤ (pipe_id k) id)) [
    | inl t ↦
        let this : id ≡ pipe_id k = sym ((eqb_ℤ_iff (pipe_id k) id).0 t) in
        rw (t) (rw (this) (sys_PipeWrite-here (rw (this) at u) (rw (this) at b)))
    | inr t ↦ rw (t, append-nil cs) (sys_PipeWrite-Drains id cs k w m a t b)
  ]
