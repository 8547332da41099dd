-- ===== src/Start/Brk.antt =====
-- What SetKernelBrk maps.
use sc0x3a.Base.{
  ℕ, zero, suc, ◌+◌, ◌-◌, ◌/◌, ◌≤◌, ◌<◌, ◌≡◌, ◌≢◌, refl, ap, ◌∙◌, true, false, List, [], ◌∷◌, ◌==◌,
  arith, length, take, drop, All, pos, List-cases, inl, inr, error,
}
use sc0x3a.Kernel.{Kernel, Pte}
use sc0x3a.Kernel.Monad.{done}
use sc0x3a.Kernel.Frames.{grab_a_frame_lem, grab_a_frame-none}
use sc0x3a.Kernel.Memory.{page_size}
use sc0x3a.Process.Brk.{mapped}
use sc0x3a.Start.{set_entry, kernel_pages, pages_from, set_kernel_brk}

-- The table of the kernel with the frames at the pages from `i` on.
abbrev pub map_kernel : ℕ → List ℕ → (ℕ → Pte) → ℕ → Pte
map_kernel i [] table = table
map_kernel i (f ∷ fs) table = map_kernel (i + 1) fs (set_entry table i (mapped f))

-- The first `n` free frames are the kernel's pages from `i` on.
abbrev pub Taken : ℕ → ℕ → Kernel → Kernel
Taken n i k = record k {
  free_frames = drop n k.free_frames;
  boot = record k.boot {
    krnl_page_table = map_kernel i (take n k.free_frames) k.boot.krnl_page_table;
  };
}

abbrev one_page : ℕ → ℕ → List ℕ → Kernel → Kernel
one_page i f fs k = record k {
  free_frames = fs;
  boot = record k.boot { krnl_page_table = set_entry k.boot.krnl_page_table i (mapped f) };
}

kernel_pages-page :
    (n i f : ℕ) (fs : List ℕ) (k : Kernel)
    → k.free_frames ≡ f ∷ fs
    → f ≢ 0
    → kernel_pages (suc n) i k ≡ kernel_pages n (i + 1) (one_page i f fs k)
unfolding kernel_pages
kernel_pages-page n i f fs k e live =
    let there : (f == 0) ≡ false = ground arith in rw (grab_a_frame_lem f fs k e, there)

kernel_pages_lem :
    (n i : ℕ) (k : Kernel)
    → n ≤ length k.free_frames
    → All (λ f. f ≢ 0) (take n k.free_frames)
    → kernel_pages n i k ≡ done (pos 0) (Taken n i k)
kernel_pages_lem zero i k enough live = unfold kernel_pages in refl
kernel_pages_lem (suc n) i k enough live = elim (List-cases k.free_frames) [
  | inl e ↦ absurd (omega (arith, ap length e))
  | inr (f, fs, e) ↦
      let some_live : All (λ f. f ≢ 0) (take (suc n) (f ∷ fs)) = rw (e) at live in
      rw (kernel_pages-page n i f fs k e some_live.0) (
        kernel_pages_lem n (i + 1) (one_page i f fs k) (omega (arith, ap length e)) some_live.1
        ∙ rw (e))
]

-- Where fewer frames are free than pages are needed, the loop ends in ERROR with all of them taken.
kernel_pages-short :
    (n i : ℕ) (k : Kernel)
    → length k.free_frames < n
    → All (λ f. f ≢ 0) k.free_frames
    → kernel_pages n i k ≡ done error (Taken (length k.free_frames) i k)
kernel_pages-short zero i k short live = absurd (omega arith)
kernel_pages-short (suc n) i k short live = elim (List-cases k.free_frames) [
  | inl e ↦ unfold kernel_pages in rw (grab_a_frame-none k e, e)
  | inr (f, fs, e) ↦
      let some_live : All (λ f. f ≢ 0) (f ∷ fs) = rw (e) at live in
      rw (kernel_pages-page n i f fs k e some_live.0) (
        kernel_pages-short n (i + 1) (one_page i f fs k) (omega (arith, ap length e)) some_live.1
        ∙ rw (e))
]

-- The state in which SetKernelBrk has moved the break to `addr`.
abbrev pub raised : ℕ → Kernel → Kernel
raised addr k = record k { boot = record k.boot { kernel_brk = addr } }

module _ (addr : ℕ) (k : Kernel) (on : k.boot.vmem_enabled ≡ true) (up : k.boot.kernel_brk < addr)
    (low : addr < 0xf_c000) where
  -- Where the memory is virtual, the address lies above the break and below the kernel stack, and
  -- enough frames are free, all of them numbers of frames, SetKernelBrk returns 0, maps the first free
  -- frames, in their order, to the pages from the one of the old break on and below the one of the
  -- address, moves the break to the address, and changes nothing else.
  pub set_kernel_brk_lem :
      let s = k.boot.kernel_brk / page_size in
      let n = addr / page_size - s in
      n ≤ length k.free_frames
      → All (λ f. f ≢ 0) (take n k.free_frames)
      → set_kernel_brk addr k ≡ done (pos 0) (raised addr (Taken n s k))
  unfolding set_kernel_brk pages_from
  set_kernel_brk_lem enough live =
      let s = k.boot.kernel_brk / page_size in
      let n = addr / page_size - s in ground (arith, kernel_pages_lem n s k enough live)

  -- Where the memory is virtual, the address lies above the break and below the kernel stack, and
  -- fewer frames are free than pages are needed, all of them numbers of frames, SetKernelBrk returns
  -- ERROR with every free frame mapped above the break and none left, and the break where it was.
  pub set_kernel_brk-short :
      let s = k.boot.kernel_brk / page_size in
      length k.free_frames < addr / page_size - s
      → All (λ f. f ≢ 0) k.free_frames
      → set_kernel_brk addr k ≡ done error (Taken (length k.free_frames) s k)
  unfolding set_kernel_brk pages_from
  set_kernel_brk-short short live =
      let s = k.boot.kernel_brk / page_size in
      let n = addr / page_size - s in ground (arith, kernel_pages-short n s k short live)
