-- ===== src/Start.antt =====
-- kernel.c: what the start of the kernel sets up, and SetKernelBrk.
-- Registers of the machine and its TLB are left out. An address of the kernel is a number, and a page
-- table of region 0 a function; what the boot ROM passes are arguments.
mod Frames
mod Table
pub mod Vmem
pub mod First
mod Brk
mod Tests
pub mod Launch
use sc0x3a.Base.{
  ℕ, zero, suc, ◌+◌, ◌-◌, ◌/◌, Bool, true, false, not, ◌&&◌, Option, none, some, List, [], ◌∷◌,
  if◌then◌else◌, ltb, leb, ◌==◌, ℤ, pos, negsuc, eqb_ℤ, ltb_ℤ, leb_ℤ, error, to_int, shift_page,
  pos_part, ◌-ℤ◌,
}
use sc0x3a.Kernel.{
  Kernel, Pcb, Pte, Boot, Handler, State, UserContext, on_kernel, on_clock, on_illegal, on_memory,
  on_math, on_receive, on_transmit, on_disk, on_undefined,
}
use sc0x3a.Kernel.Monad.{
  M, crash, pure, ◌>>=◌, ◌>>◌, get, put, current, malloc, insert_last, put_ready,
}
use sc0x3a.Kernel.Frames.{grab_a_frame}
use sc0x3a.Kernel.Memory.{page_size, read_write, user_pagetable_size}
use sc0x3a.Scheduler.{update_pcb}
use sc0x3a.Process.{no_pte, replicate}
use sc0x3a.Terminal.{num_terminals}
use sc0x3a.Program.{FileSystem, load_program}

abbrev pub set_boot : (Boot → Boot) → M (Unit {0})
set_boot f = do k ← get; put (record k { boot = f k.boot })

-- `x.len = 0; x.head = malloc(...); if (x.head == NULL) return;` for each list in turn
unfoldable pub init_lists : List (Kernel → Kernel) → M (Unit {0})
unfolding malloc
init_lists [] = pure tt
init_lists (clear ∷ more) = do
  k ← get
  put (clear k)
  b ← malloc
  let rest = init_lists more
  if not b then pure tt else rest

unfoldable pub init_queues : M (Unit {0})
unfolding init_lists
init_queues = init_lists (
    (λ k. record k { ready_queue = [] })
    ∷ (λ k. record k { sleep_list = [] })
    ∷ (λ k. record k { dead_list = [] })
    ∷ (λ k. record k { wait_list = [] })
    ∷ (λ k. record k { io_list = [] })
    ∷ (λ k. record k { pipe_list = [] })
    ∷ (λ k. record k { lock_list = [] })
    ∷ (λ k. record k { cvar_list = [] })
    ∷ (λ k. record k { sem_list = [] })
    ∷ (λ k. record k { reclaim_list = [] })
    ∷ [])

-- TRAP_VECTOR_SIZE entries
unfoldable pub init_int_vector : M (Unit {0})
init_int_vector = set_boot λ b. record b {
  int_vector =
      on_kernel
      ∷ on_clock
      ∷ on_illegal
      ∷ on_memory
      ∷ on_math
      ∷ on_receive
      ∷ on_transmit
      ∷ on_disk
      ∷ replicate 8 on_undefined;
}

-- `for (i = lowest+n-1; i > lowest-1; i--) if (list_insert(&free_frames, len+1, i)) return;`: whether
-- the loop came to its end.
unfoldable pub gather_down : ℕ → ℕ → M Bool
unfolding malloc insert_last
gather_down lowest zero = pure true
gather_down lowest (suc n) = do
  b ← malloc
  k ← get
  put (record k { free_frames = (insert_last k.free_frames (lowest + n) b).0 })
  let rest = gather_down lowest n
  if not b then pure false else rest

-- `UP_TO_PAGE(addr) >> PAGESHIFT`
abbrev pub up_page : ℕ → ℕ
up_page a = (a + 0x1fff) / page_size

-- VMEM_0_LIMIT >> PAGESHIFT, KERNEL_STACK_BASE >> PAGESHIFT, and KERNEL_STACK_BASE
abbrev pub region_0_pages : ℕ
region_0_pages = 128

abbrev pub kernel_stack_page : ℕ
kernel_stack_page = 126

abbrev pub kernel_stack_base : ℕ
kernel_stack_base = 0xf_c000

unfoldable pub gather_free_frames : M (Unit {0})
unfolding malloc gather_down
gather_free_frames = do
  k ← get
  put (record k { free_frames = [] })
  h ← malloc
  if not h then pure tt else do
    ok ← gather_down region_0_pages (k.boot.total_frames - region_0_pages)
    if not ok then pure tt else do
      k ← get
      let low = up_page k.boot.kernel_brk
      gather_down low (kernel_stack_page - low)
      pure tt

abbrev pub set_entry : (ℕ → Pte) → ℕ → Pte → ℕ → Pte
set_entry table i e j = if j == i then e else table j

-- The loops of enable_vmem over `n` pages from page `i` on.
unfoldable pub invalidate : ℕ → ℕ → (ℕ → Pte) → ℕ → Pte
invalidate i zero table = table
invalidate i (suc n) table =
    invalidate (i + 1) n (set_entry table i (let e = table i in record e { valid = false }))

unfoldable pub map_identity : ℕ → ℕ → ℕ → (ℕ → Pte) → ℕ → Pte
map_identity prot i zero table = table
map_identity prot i (suc n) table =
    map_identity prot (i + 1) n (set_entry table i (record { valid = true; prot = prot; pfn = i }))

-- Text is PROT_READ | PROT_EXEC, data, heap and stack are PROT_READ | PROT_WRITE.
unfoldable pub kernel_table : Boot → ℕ → Pte
unfolding invalidate map_identity
kernel_table b =
    let text_end = b.data_seg_base / page_size in
    let data_end = b.data_seg_limit / page_size in
    let heap_end = b.kernel_brk / page_size in
    map_identity read_write kernel_stack_page 2 (
      map_identity read_write data_end (heap_end - data_end) (
        map_identity read_write text_end (data_end - text_end)
          (map_identity 5 0 text_end (invalidate 0 region_0_pages b.krnl_page_table))))

unfoldable pub enable_vmem : M (Unit {0})
unfolding kernel_table
enable_vmem = set_boot λ b. record b { krnl_page_table = kernel_table b; vmem_enabled = true }

unfoldable pub set_kernel_data : ℕ → ℕ → M (Unit {0})
set_kernel_data start end =
    set_boot λ b. record b { data_seg_base = start; data_seg_limit = end; kernel_brk = end }

-- The loop of SetKernelBrk over `n` pages from page `i` on.
unfoldable pub kernel_pages : ℕ → ℕ → M ℤ
unfolding grab_a_frame
kernel_pages zero i = pure (pos 0)
kernel_pages (suc n) i = do
  pfn ← grab_a_frame
  let rest = kernel_pages n (i + 1)
  if pfn == 0 then pure error else do
    set_boot λ b. record b {
      krnl_page_table =
          set_entry b.krnl_page_table i (record { valid = true; prot = read_write; pfn = pfn });
    }
    rest

-- The loop from the page `(int)kernel_brk >> PAGESHIFT` on; a page below 0 is outside of the table.
unfoldable pub pages_from : ℕ → ℤ → M ℤ
unfolding kernel_pages
pages_from n (pos i) = kernel_pages n i
pages_from n (negsuc i) = if n == 0 then pure (pos 0) else crash

-- SetKernelBrk. Its trace where the address lies in the kernel stack reads `active_proc->pid`.
unfoldable pub set_kernel_brk : ℕ → M ℤ
unfolding pages_from
set_kernel_brk addr = do
  k ← get
  let raise : M (Unit {0}) = set_boot λ b. record b { kernel_brk = addr }
  if not (ltb k.boot.kernel_brk addr)
      then pure (pos 0)
      else if not k.boot.vmem_enabled
      then (do raise; pure (pos 0))
      else if leb_ℤ (pos kernel_stack_base) (to_int addr)
      then (do current; pure error)
      else (do
        let start = shift_page (to_int k.boot.kernel_brk)
        rc ← pages_from (pos_part (shift_page (to_int addr) -ℤ start)) start
        if not (eqb_ℤ rc (pos 0)) then pure error else do raise; pure (pos 0))
