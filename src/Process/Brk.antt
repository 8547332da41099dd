-- ===== src/Process/Brk.antt =====
-- What sys_Brk maps.
use sc0x3a.Base.{
  ℕ, zero, suc, ◌+◌, ◌≤◌, ◌<◌, ◌≡◌, ◌≢◌, refl, ap, ◌∙◌, true, false, ◌||◌, List, [], ◌∷◌, ◌==◌,
  arith, length, set, take, drop, All, ℤ, pos, ltb_ℤ, leb_ℤ, List-cases, inl, inr, ◌+ℤ◌,
}
use sc0x3a.Kernel.{Kernel, Pte}
use sc0x3a.Kernel.Monad.{Does, Does-mono, done, set_pcb}
use sc0x3a.Kernel.Frames.{grab_a_frame_lem}
use sc0x3a.Kernel.Memory.{read_write, user_pagetable_size}
use sc0x3a.Scheduler.{update_pcb}
use sc0x3a.Process.{set_pte, brk_loop}

abbrev pub mapped : ℕ → Pte
mapped f = record { valid = true; prot = read_write; pfn = f }

-- The page table with the frames at the pages from `i` on.
abbrev pub map_pages : ℕ → List ℕ → List Pte → List Pte
map_pages i [] table = table
map_pages i (f ∷ fs) table = map_pages (i + 1) fs (set table i (mapped f))

-- The first `n` free frames are the process's pages from `i` on; nothing else of any pcb is changed.
abbrev pub Grown : ℕ → ℕ → ℕ → Kernel → ℤ → Kernel → Type 0
Grown p n i k rc k' =
    (rc ≡ pos 0)
    × (k'.free_frames ≡ drop n k.free_frames)
    × (k'.pcbs p ≡ (
        let c = k.pcbs p in
        record c { u_page_table = map_pages i (take n k.free_frames) c.u_page_table }))
    × ((q : ℕ) → (q == p) ≡ false → k'.pcbs q ≡ k.pcbs q)

-- The state after one turn of the loop.
abbrev pub one_page : ℕ → ℕ → ℕ → List ℕ → Kernel → Kernel
one_page p i f fs k = record k {
  free_frames = fs;
  pcbs =
      set_pcb k.pcbs p
        (let c = k.pcbs p in record c { u_page_table = set c.u_page_table i (mapped f) });
}

pub set_pte_lem :
    (p i : ℕ) (v : Pte) (k : Kernel)
    → i < user_pagetable_size
    → set_pte p (pos i) v k
      ≡ done tt (record k {
        pcbs =
            set_pcb k.pcbs p
              (let c = k.pcbs p in record c { u_page_table = set c.u_page_table i v });
      })
unfolding set_pte update_pcb
set_pte_lem p i v k inside =
    let legal : (ltb_ℤ (pos i) (pos 0) || leb_ℤ (pos user_pagetable_size) (pos i)) ≡ false =
      ground arith in
    rw (legal)

next_page : (i : ℕ) → pos i +ℤ pos 1 ≡ pos (i + 1)
next_page i = ground arith

brk_loop-page :
    (p n i f : ℕ) (fs : List ℕ) (k : Kernel)
    → k.free_frames ≡ f ∷ fs
    → f ≢ 0
    → i < user_pagetable_size
    → brk_loop p (suc n) (pos i) k ≡ brk_loop p n (pos (i + 1)) (one_page p i f fs k)
unfolding brk_loop
brk_loop-page p n i f fs k e live inside =
    let there : (f == 0) ≡ false = ground arith in
    rw (
      grab_a_frame_lem f fs k e,
      there,
      set_pte_lem p i (mapped f) (record k { free_frames = fs }) inside,
      next_page i,
    )

-- Where enough frames are free, all of them numbers of frames, and the pages stand in the table, the
-- loop maps the first of the free frames to the pages in their order.
pub brk_loop_lem :
    (n p i : ℕ) (k : Kernel)
    → n ≤ length k.free_frames
    → All (λ f. f ≢ 0) (take n k.free_frames)
    → i + n ≤ user_pagetable_size
    → Does (Grown p n i k) (brk_loop p n (pos i) k)
brk_loop_lem zero p i k enough live inside = unfold brk_loop in (refl, refl, refl, λ q d. refl)
brk_loop_lem (suc n) p i k enough live inside = elim (List-cases k.free_frames) [
  | inl e ↦ absurd (omega (arith, ap length e))
  | inr (f, fs, e) ↦
      let some_live : All (λ f. f ≢ 0) (take (suc n) (f ∷ fs)) = rw (e) at live in
      let k₁ = one_page p i f fs k in
      let self : (p == p) ≡ true = ground arith in
      rw (brk_loop-page p n i f fs k e some_live.0 (omega arith)) (
        Does-mono (Grown p n (i + 1) k₁) (Grown p (suc n) i k) (brk_loop p n (pos (i + 1)) k₁)
          (brk_loop_lem n p (i + 1) k₁ (omega (arith, ap length e)) some_live.1 (omega arith))
          λ rc k' (zero_rc, frames, table, others).
            (zero_rc, rw (e) frames, rw (e) (rw (self) at table), λ q d. others q d ∙ rw (d)))
]

-- What sys_Brk establishes where it moves the break up by `n` pages from page `s`.
abbrev pub BreakAt : ℕ → ℕ → ℕ → Kernel → ℤ → Kernel → Type 0
BreakAt p s n k rc k' =
    (rc ≡ pos 0)
    × (k'.free_frames ≡ drop n k.free_frames)
    × (k'.pcbs p ≡ (
        let c = k.pcbs p in
        record c {
          u_page_table = map_pages s (take n k.free_frames) c.u_page_table;
          next_heap_pn = pos (s + n);
        }))
    × ((q : ℕ) → (q == p) ≡ false → k'.pcbs q ≡ k.pcbs q)
