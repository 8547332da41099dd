-- ===== src/Start/Vmem.antt =====
-- The state of the kernel before its first process, and the pages of region 0 in it.
use sc0x3a.Base.{
  not, pos, ltb_ℤ, ◌%◌, ap, ℕ, ◌+◌, ◌/◌, ◌≤◌, ◌<◌, ◌≡◌, refl, ◌∙◌, Bool, true, false, ◌&&◌, ◌||◌,
  List, [], ◌∷◌, ◌==◌, if◌then◌else◌, ltb, leb, arith, count,
}
use sc0x3a.Kernel.{
  Kernel, Boot, Pte, Handler, on_kernel, on_clock, on_illegal, on_memory, on_math, on_receive,
  on_transmit, on_disk, on_undefined,
}
use sc0x3a.Process.{replicate}
use sc0x3a.Terminal.{num_terminals}
use mathlib.Core.Path.{subst, sym}
use sc0x3a.Kernel.Monad.{Does, done, malloc}
use sc0x3a.Kernel.Memory.{page_size, read_write}
use sc0x3a.Start.{kernel_table, init_queues, init_lists, init_int_vector, enable_vmem, up_page}
use sc0x3a.Start.Table.{identity, cleared, kernel_table_lem}
use sc0x3a.Start.Launch.{init_kernel}
use sc0x3a.Start.Frames.{gathered, gathered-count, gather_free_frames_eq}

-- The state of a kernel whose lists are all empty.
abbrev pub emptied : Kernel → Kernel
emptied k = record k {
  ready_queue = [];
  sleep_list = [];
  dead_list = [];
  wait_list = [];
  io_list = [];
  pipe_list = [];
  lock_list = [];
  cvar_list = [];
  sem_list = [];
  reclaim_list = [];
}

init_queues_lem : (k : Kernel) → k.mallocs ≡ [] → init_queues k ≡ done tt (emptied k)
unfolding init_queues init_lists malloc
init_queues_lem k m =
    subst (λ l. let k₁ = record k { mallocs = l } in init_queues k₁ ≡ done tt (emptied k₁)) (sym m)
      refl

-- What init_int_vector enters.
abbrev pub vectors : List Handler
vectors =
    on_kernel
    ∷ on_clock
    ∷ on_illegal
    ∷ on_memory
    ∷ on_math
    ∷ on_receive
    ∷ on_transmit
    ∷ on_disk
    ∷ replicate 8 on_undefined

-- The state before KernelStart gathers the free frames.
abbrev prepared : ℕ → Kernel → Kernel
prepared pmem_size k =
    let k₁ = emptied (record k {
      next_pid = 0;
      next_sem = 0;
      busy_terminal = λ t.
          if not (ltb_ℤ t (pos 0)) && ltb_ℤ t (pos num_terminals) then false else k.busy_terminal t;
      boot = record k.boot { total_frames = pmem_size / page_size; vmem_enabled = false };
    }) in
    record k₁ { boot = record k₁.boot { int_vector = vectors } }

-- The state that init_kernel leaves.
abbrev pub booted : ℕ → Kernel → Kernel
booted pmem_size k =
    let k₁ = prepared pmem_size k in
    record k₁ {
      free_frames = gathered k₁;
      boot = record k₁.boot { krnl_page_table = kernel_table k₁.boot; vmem_enabled = true };
    }

pub init_kernel_lem :
    (pmem_size : ℕ) (k : Kernel)
    → k.mallocs ≡ []
    → init_kernel pmem_size k ≡ done tt (booted pmem_size k)
unfolding init_kernel init_int_vector enable_vmem
init_kernel_lem pmem_size k m =
    let k₁ = record k {
      next_pid = 0;
      next_sem = 0;
      busy_terminal = λ t.
          if not (ltb_ℤ t (pos 0)) && ltb_ℤ t (pos num_terminals) then false else k.busy_terminal t;
      boot = record k.boot { total_frames = pmem_size / page_size; vmem_enabled = false };
    } in
    rw (init_queues_lem k₁ m) (rw (gather_free_frames_eq (prepared pmem_size k) m))

abbrev pub one_if : Bool → ℕ
one_if b = if b then 1 else 0

-- Whether the kernel's break lies inside page `j`, and not at its start.
abbrev pub break_inside : Boot → ℕ → Bool
break_inside b j = j == b.kernel_brk / page_size && not (b.kernel_brk % page_size == 0) && ltb j 126

valid_if :
    (t h j : ℕ) (e : Pte)
    → t ≤ h
    → (let entry =
          if leb 126 j
          then identity read_write j
          else if ltb j t
          then identity 5 j
          else if ltb j h
          then identity read_write j
          else cleared e in
        entry.valid)
      ≡ (leb 126 j || ltb j h)
valid_if t h j e le = ground arith

up_page_lem :
    (brk : ℕ)
    → up_page brk ≡ (if brk % page_size == 0 then brk / page_size else brk / page_size + 1)
up_page_lem brk = ground arith

-- A page of region 0 is counted once, as mapped or as free.
split_pages :
    (j h c : ℕ) (up : ℕ) (exact : Bool)
    → j < 128
    → up ≡ (if exact then h else h + 1)
    → c ≡ (if leb up j && ltb j 126 then 1 else 0)
    → one_if (leb 126 j || ltb j h) + c ≡ (if j == h && not exact && ltb j 126 then 0 else 1)
split_pages j h c up exact j_lt u e = ground arith

-- Where `malloc` does not fail and the kernel's text, data and heap follow each other, the start of the
-- kernel up to enable_vmem returns, and each page of region 0 is then either valid in the kernel's page
-- table or its frame is free once, but for a page below the kernel stack inside which the kernel's
-- break lies: that is neither valid nor free.
pub init_kernel-pages :
    (pmem_size j : ℕ) (k : Kernel)
    → k.mallocs ≡ []
    → j < 128
    → k.boot.data_seg_base / page_size ≤ k.boot.data_seg_limit / page_size
    → k.boot.data_seg_limit / page_size ≤ k.boot.kernel_brk / page_size
    → Does
        (λ _ k'.
          one_if (k'.boot.krnl_page_table j).valid + count j k'.free_frames
          ≡ (if break_inside k.boot j then 0 else 1))
        (init_kernel pmem_size k)
init_kernel-pages pmem_size j k m j_lt text heap =
    let k₁ = prepared pmem_size k in
    let t = k.boot.data_seg_base / page_size in
    let h = k.boot.kernel_brk / page_size in
    let none_above : (leb 128 j && ltb j k₁.boot.total_frames) ≡ false = ground arith in
    let free = gathered-count j k₁ in
    let valid : (kernel_table k₁.boot j).valid ≡ (leb 126 j || ltb j h) =
      ap {A = Pte} (λ e. e.valid) (kernel_table_lem k₁.boot j j_lt text heap)
      ∙ valid_if t h j (k.boot.krnl_page_table j) (omega arith) in
    rw (init_kernel_lem pmem_size k m) (
      rw (valid) (
        split_pages j h (count j (gathered k₁)) (up_page k.boot.kernel_brk)
          (k.boot.kernel_brk % page_size == 0) j_lt (up_page_lem k.boot.kernel_brk)
          (free ∙ rw (none_above))))
