-- ===== src/Kernel/Memory/Frame.antt =====
-- Reading region 1 changes nothing, and writing to it nothing but the memory.
use sc0x3a.Base.{
  ℕ, zero, suc, ◌+◌, ◌≡◌, refl, ap, ◌⊎◌, inl, inr, List, [], ◌∷◌, Option-cases, arith, ℤ, length,
}
use sc0x3a.Kernel.{Kernel}
use sc0x3a.Kernel.Monad.{Outcome, done, fault}
use sc0x3a.Kernel.Memory.{
  set_byte, translate, read_byte, write_byte, read_bytes, write_bytes, write_int, int_bytes,
}

abbrev pub Stores : Kernel → Outcome (Unit {0}) → Type 0
Stores k r = (r ≡ fault) ⊎ ((m : ℕ → ℕ → ℕ) × (r ≡ done tt (record k { phys = m })))

write_byte_cases : (a v : ℕ) (k : Kernel) → Stores k (write_byte a v k)
unfolding write_byte
write_byte_cases a v k = elim (Option-cases k.active_proc) [
  | inl e ↦ inl (rw (e, write_byte))
  | inr (p, e) ↦ elim (Option-cases (translate (k.pcbs p).u_page_table a)) [
    | inl t ↦ inl (ground arith)
    | inr ((f, o), t) ↦ inr (set_byte k.phys f o v, ground arith)
  ]
]

write_bytes_cases : (a : ℕ) (bs : List ℕ) (k : Kernel) → Stores k (write_bytes a bs k)
unfolding write_bytes
write_bytes_cases a [] k = inr (k.phys, refl)
write_bytes_cases a (b ∷ bs) k = elim (write_byte_cases a b k) [
  | inl e ↦ inl (rw e)
  | inr (m, e) ↦ rw e (write_bytes_cases (a + 1) bs (record k { phys = m }))
]

pub write_bytes_lem : (a : ℕ) (bs : List ℕ) (k : Kernel) → Stores k (write_bytes a bs k)
write_bytes_lem a bs k = write_bytes_cases a bs k

pub write_int_cases : (a : ℕ) (v : ℤ) (k : Kernel) → Stores k (write_int a v k)
unfolding write_int
write_int_cases a v k = write_bytes_cases a (int_bytes v) k

abbrev pub Loads : Kernel → ℕ → Outcome (List ℕ) → Type 0
Loads k n r = (r ≡ fault) ⊎ ((bs : List ℕ) × (r ≡ done bs k) × (length bs ≡ n))

read_byte_cases :
    (a : ℕ) (k : Kernel) → (read_byte a k ≡ fault) ⊎ ((b : ℕ) × (read_byte a k ≡ done b k))
unfolding read_byte
read_byte_cases a k = elim (Option-cases k.active_proc) [
  | inl e ↦ inl (rw (e, read_byte))
  | inr (p, e) ↦ elim (Option-cases (translate (k.pcbs p).u_page_table a)) [
    | inl t ↦ inl (ground arith)
    | inr ((f, o), t) ↦ inr (k.phys f o, ground arith)
  ]
]

pub read_bytes_cases : (a n : ℕ) (k : Kernel) → Loads k n (read_bytes a n k)
unfolding read_bytes
read_bytes_cases a zero k = inr ([], refl, refl)
read_bytes_cases a (suc n) k = elim (read_byte_cases a k) [
  | inl e ↦ inl (rw e)
  | inr (b, e) ↦ elim (read_bytes_cases (a + 1) n k) [
    | inl e' ↦ inl (rw (e, e'))
    | inr (bs, e', l) ↦ inr (b ∷ bs, rw (e, e'), ap suc l)
  ]
]

pub read_bytes-length :
    (a n : ℕ) (bs : List ℕ) (k : Kernel) → read_bytes a n k ≡ done bs k → length bs ≡ n
read_bytes-length a n bs k r = elim (read_bytes_cases a n k) [
  | inl e ↦ absurd (cc)
  | inr (cs, e, l) ↦ let same : bs ≡ cs = cc in rw (same) l
]
