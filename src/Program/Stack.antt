-- ===== src/Program/Stack.antt =====
-- What the loop over the pages of the new stack maps.
use sc0x3a.Base.{
  ℕ, zero, suc, ◌-◌, ◌≤◌, ◌≡◌, ◌≢◌, refl, ap, ◌∙◌, true, false, List, [], ◌∷◌, ◌==◌, arith, length,
  set, take, drop, All, ℤ, pos, List-cases, inl, inr, ◌-ℤ◌,
}
use sc0x3a.Kernel.{Kernel, Pte}
use sc0x3a.Kernel.Monad.{Does, Does-mono}
use sc0x3a.Kernel.Frames.{grab_a_frame_lem}
use sc0x3a.Kernel.Memory.{user_pagetable_size}
use sc0x3a.Process.Brk.{mapped, one_page, set_pte_lem}
use sc0x3a.Program.{stack_pages}

-- The page table with the frames at the pages below `m`, from the top down.
abbrev pub map_down : ℕ → List ℕ → List Pte → List Pte
map_down m [] table = table
map_down m (f ∷ fs) table = map_down (m - 1) fs (set table (m - 1) (mapped f))

-- The first `n` free frames are the process's pages below `m`; nothing else of any pcb is changed.
abbrev pub GrownDown : ℕ → ℕ → ℕ → Kernel → ℤ → Kernel → Type 0
GrownDown p n m k rc k' =
    (rc ≡ pos 0)
    × (k'.free_frames ≡ drop n k.free_frames)
    × (k'.pcbs p ≡ (
        let c = k.pcbs p in
        record c { u_page_table = map_down m (take n k.free_frames) c.u_page_table }))
    × ((q : ℕ) → (q == p) ≡ false → k'.pcbs q ≡ k.pcbs q)

top_page : (m n : ℕ) → suc n ≤ m → pos m -ℤ pos 1 ≡ pos (m - 1)
top_page m n le = ground arith

stack_pages-page :
    (p n m f : ℕ) (fs : List ℕ) (k : Kernel)
    → k.free_frames ≡ f ∷ fs
    → f ≢ 0
    → suc n ≤ m
    → m ≤ user_pagetable_size
    → stack_pages p (suc n) (pos m -ℤ pos 1) k
      ≡ stack_pages p n (pos (m - 1) -ℤ pos 1) (one_page p (m - 1) f fs k)
unfolding stack_pages
stack_pages-page p n m f fs k e live le inside =
    let there : (f == 0) ≡ false = ground arith in
    rw (
      top_page m n le,
      grab_a_frame_lem f fs k e,
      there,
      set_pte_lem p (m - 1) (mapped f) (record k { free_frames = fs }) (omega arith),
    )

-- Where enough frames are free, all of them numbers of frames, and the pages stand in the table, the
-- loop maps the first of the free frames to the pages from the top down.
pub stack_pages_lem :
    (n p m : ℕ) (k : Kernel)
    → n ≤ length k.free_frames
    → All (λ f. f ≢ 0) (take n k.free_frames)
    → n ≤ m
    → m ≤ user_pagetable_size
    → Does (GrownDown p n m k) (stack_pages p n (pos m -ℤ pos 1) k)
stack_pages_lem zero p m k enough live le inside =
    unfold stack_pages in (refl, refl, refl, λ q d. refl)
stack_pages_lem (suc n) p m k enough live le inside = elim (List-cases k.free_frames) [
  | inl e ↦ absurd (omega (arith, ap length e))
  | inr (f, fs, e) ↦
      let some_live : All (λ f. f ≢ 0) (take (suc n) (f ∷ fs)) = rw (e) at live in
      let k₁ = one_page p (m - 1) f fs k in
      let self : (p == p) ≡ true = ground arith in
      rw (stack_pages-page p n m f fs k e some_live.0 le inside) (
        Does-mono (GrownDown p n (m - 1) k₁) (GrownDown p (suc n) m k)
          (stack_pages p n (pos (m - 1) -ℤ pos 1) k₁)
          (stack_pages_lem n p (m - 1) k₁ (omega (arith, ap length e)) some_live.1 (omega arith)
            (omega arith))
          λ rc k' (zero_rc, frames, table, others).
            (zero_rc, rw (e) frames, rw (e) (rw (self) at table), λ q d. others q d ∙ rw (d)))
]
