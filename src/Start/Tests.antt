-- ===== src/Start/Tests.antt =====
-- The start of a kernel with 256 frames and its break inside page 33, and SetKernelBrk at one with
-- three free frames.
use sc0x3a.Base.{ltb, leb, if◌then◌else◌, ◌/◌, ◌+◌, ◌≡◌, refl, arith, count, pos, error}
use sc0x3a.Kernel.{Kernel}
use sc0x3a.Kernel.Monad.{Does, done}
use sc0x3a.Samples.{two_processes, context}
use sc0x3a.Kernel.Memory.{page_size, read_write}
use sc0x3a.Start.{kernel_table, gather_free_frames, set_kernel_brk}
use sc0x3a.Start.Launch.{init_kernel}
use sc0x3a.Start.Frames.{gather_free_frames-count}
use sc0x3a.Start.Table.{identity, cleared, kernel_table_lem}
use sc0x3a.Start.Vmem.{one_if, init_kernel-pages}
use sc0x3a.Start.Brk.{Taken, raised, set_kernel_brk_lem, set_kernel_brk-short}

abbrev machine : Kernel
machine = two_processes (context 0 0 0)

abbrev odd_break : Kernel
odd_break = record machine { boot = record machine.boot { kernel_brk = 0x4_2010 } }

gather_free_frames-count_example :
    Does (λ _ k'. count 33 k'.free_frames ≡ 0) (gather_free_frames odd_break)
gather_free_frames-count_example = gather_free_frames-count 33 odd_break refl

init_kernel-pages_example :
    Does
      (λ _ k'. one_if (k'.boot.krnl_page_table 33).valid + count 33 k'.free_frames ≡ 0)
      (init_kernel 0x20_0000 odd_break)
init_kernel-pages_example =
    init_kernel-pages 0x20_0000 33 odd_break refl (omega arith) (omega arith) (omega arith)

set_kernel_brk_lem_example :
    set_kernel_brk 0x4_4010 machine ≡ done (pos 0) (raised 0x4_4010 (Taken 2 32 machine))
set_kernel_brk_lem_example =
    set_kernel_brk_lem 0x4_4010 machine refl (omega arith) (omega arith) (omega arith)
      (omega arith, (omega arith, tt))

set_kernel_brk-short_example : set_kernel_brk 0x5_0000 machine ≡ done error (Taken 3 32 machine)
set_kernel_brk-short_example =
    set_kernel_brk-short 0x5_0000 machine refl (omega arith) (omega arith) (omega arith)
      (omega arith, (omega arith, (omega arith, tt)))

-- Page 32 is the last of the heap, and the break lies in page 33.
kernel_table_lem_example : kernel_table odd_break.boot 32 ≡ (
    if leb 126 32
    then identity read_write 32
    else if ltb 32 (odd_break.boot.data_seg_base / page_size)
    then identity 5 32
    else if ltb 32 (odd_break.boot.kernel_brk / page_size)
    then identity read_write 32
    else cleared (odd_break.boot.krnl_page_table 32))
kernel_table_lem_example =
    kernel_table_lem odd_break.boot 32 (omega arith) (omega arith) (omega arith)
