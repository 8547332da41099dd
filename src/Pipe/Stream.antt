-- ===== src/Pipe/Stream.antt =====
-- What sys_PipeRead and sys_PipeWrite of syscall.c leave of the bytes that the pipe with an id holds.
use mathlib.Core.List.{IsSuffix, nil-suffix, IsSuffix-trans}
use sc0x3a.Base.{
  ℕ, ◌≤◌, ◌<◌, ◌≡◌, refl, sym, true, false, List, [], if◌then◌else◌, arith, ℤ, pos, eqb_ℤ,
  eqb_ℤ_iff, leb, Bool-cases, inl, inr,
}
use sc0x3a.Kernel.{PipeInfo}
use sc0x3a.Pipe.{is_pipe, bytes, take_bytes}
use sc0x3a.Pipe.Buffer.{contents, take_bytes-contents}

-- What the pipe holds if it has this id.
abbrev pub held_in : ℤ → PipeInfo → List ℕ
held_in id p = if is_pipe id p then contents p else []

-- If it has this id, the pipe holds the last of these bytes, in their order, and no other.
abbrev pub Drains : ℤ → List ℕ → PipeInfo → Type 0
Drains id cs p = IsSuffix (held_in id p) cs

module _ (id : ℤ) (cs : List ℕ) where
  pub Drains-absent : (p : PipeInfo) → is_pipe id p ≡ false → Drains id cs p
  Drains-absent p t = rw (t) nil-suffix

  pub Drains-empty : (p : PipeInfo) → p.cur_len ≡ 0 → Drains id cs p
  unfolding bytes
  Drains-empty p e = elim (Bool-cases (is_pipe id p)) [
    | inl t ↦ rw (t, e) nil-suffix
    | inr t ↦ Drains-absent p t
  ]

  take_all : (n : ℕ) (p : PipeInfo) → p.cur_len < n → (take_bytes n p).cur_len ≡ 0
  unfolding take_bytes
  take_all n p l = omega arith

  take_bytes-is_pipe : (n : ℕ) (p : PipeInfo) → is_pipe id (take_bytes n p) ≡ is_pipe id p
  unfolding take_bytes
  take_bytes-is_pipe n p = refl

  pub take_bytes-Drains : (n : ℕ) (p : PipeInfo) → Drains id cs p → Drains id cs (take_bytes n p)
  take_bytes-Drains n p h = elim (Bool-cases (leb n p.cur_len)) [
    | inl e ↦ elim (Bool-cases (is_pipe id p)) [
      | inl t ↦
          let l : n ≤ p.cur_len = ground arith in
          let front : IsSuffix (contents (take_bytes n p)) (contents p) =
            (bytes p.pipe_buffer 0 n, sym (take_bytes-contents n p l)) in
          rw (take_bytes-is_pipe n p, t) (IsSuffix-trans front (rw (t) at h))
      | inr t ↦ rw (take_bytes-is_pipe n p, t) nil-suffix
    ]
    | inr e ↦ Drains-empty (take_bytes n p) (take_all n p (ground arith))
  ]

  pub other-Drains :
      (other : ℤ) (p : PipeInfo) → is_pipe other p ≡ true → eqb_ℤ other id ≡ false → Drains id cs p
  other-Drains other p t d =
      let this : pos p.pipeid ≡ other = (eqb_ℤ_iff (pos p.pipeid) other).0 t in
      Drains-absent p (rw (this) d)
