-- ===== src/Start/Table.antt =====
-- The page table of region 0 that the loops of enable_vmem leave.
use sc0x3a.Base.{
  ℕ, zero, suc, ◌+◌, ◌-◌, ◌/◌, ◌≤◌, ◌<◌, ◌≡◌, ◌∙◌, Bool, true, false, ◌&&◌, if◌then◌else◌, ltb, leb,
  arith,
}
use sc0x3a.Kernel.{Boot, Pte}
use sc0x3a.Kernel.Memory.{page_size, read_write}
use sc0x3a.Start.{invalidate, map_identity, kernel_table, set_entry}

-- The page `j` at the frame of the same number.
abbrev pub identity : ℕ → ℕ → Pte
identity prot j = record { valid = true; prot = prot; pfn = j }

abbrev pub within : ℕ → ℕ → ℕ → Bool
within i n j = leb i j && ltb j (i + n)

abbrev pub cleared : Pte → Pte
cleared e = record e { valid = false }

map_identity_lem :
    (prot i n : ℕ) (table : ℕ → Pte) (j : ℕ)
    → map_identity prot i n table j ≡ (if within i n j then identity prot j else table j)
unfolding map_identity
map_identity_lem prot i zero table j = ground arith
map_identity_lem prot i (suc n) table j =
    ground (arith, map_identity_lem prot (i + 1) n (set_entry table i (identity prot i)) j)

invalidate_lem :
    (i n : ℕ) (table : ℕ → Pte) (j : ℕ)
    → invalidate i n table j ≡ (if within i n j then cleared (table j) else table j)
unfolding invalidate
invalidate_lem i zero table j = ground arith
invalidate_lem i (suc n) table j =
    ground (arith, invalidate_lem (i + 1) n (set_entry table i (cleared (table i))) j)

-- The four ranges of enable_vmem, the later over the earlier, in the order of the pages.
ranges :
    {A : Type 0} (t d h j : ℕ) (code kept absent : A)
    → j < 128
    → t ≤ d
    → d ≤ h
    → (if within 126 2 j
        then kept
        else if within d (h - d) j
        then kept
        else if within t (d - t) j
        then kept
        else if within 0 t j
        then code
        else absent)
      ≡ (if leb 126 j then kept else if ltb j t then code else if ltb j h then kept else absent)
ranges t d h j code kept absent j_lt text heap = ground arith

module _ (b : Boot) (j : ℕ) (j_lt : j < 128)
    (text : b.data_seg_base / page_size ≤ b.data_seg_limit / page_size)
    (heap : b.data_seg_limit / page_size ≤ b.kernel_brk / page_size) where
  -- Where the kernel's text, data and heap follow each other, enable_vmem maps a page of region 0 to
  -- the frame of its number if it is of the kernel stack, or below the page in which the kernel's break
  -- lies, the pages below the data readable and executable and the others readable and writable; a page
  -- between is not valid.
  pub kernel_table_lem : kernel_table b j ≡ (
      if leb 126 j
      then identity read_write j
      else if ltb j (b.data_seg_base / page_size)
      then identity 5 j
      else if ltb j (b.kernel_brk / page_size)
      then identity read_write j
      else cleared (b.krnl_page_table j))
  unfolding kernel_table
  kernel_table_lem =
      let text_end = b.data_seg_base / page_size in
      let data_end = b.data_seg_limit / page_size in
      let heap_end = b.kernel_brk / page_size in
      let t0 = invalidate 0 128 b.krnl_page_table in
      let t1 = map_identity 5 0 text_end t0 in
      let t2 = map_identity read_write text_end (data_end - text_end) t1 in
      let t3 = map_identity read_write data_end (heap_end - data_end) t2 in
      let inside : within 0 128 j ≡ true = ground arith in
      map_identity_lem read_write 126 2 t3 j
      ∙ rw
          (
            map_identity_lem read_write data_end (heap_end - data_end) t2 j,
            map_identity_lem read_write text_end (data_end - text_end) t1 j,
            map_identity_lem 5 0 text_end t0 j,
            invalidate_lem 0 128 b.krnl_page_table j,
            inside,
          )
          (ranges text_end data_end heap_end j (identity 5 j) (identity read_write j)
            (cleared (b.krnl_page_table j)) j_lt text heap)
