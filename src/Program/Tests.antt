-- ===== src/Program/Tests.antt =====
-- A program without a file, and one that fits with its two arguments.
use sc0x3a.Base.{ℕ, ◌≡◌, refl, true, none, some, List, [], ◌∷◌, arith, error}
use sc0x3a.Kernel.{Kernel}
use sc0x3a.Kernel.Monad.{Does, done, pure}
use sc0x3a.Process.{replicate, no_pte}
use sc0x3a.Process.Freed.{returned}
use sc0x3a.Program.Pages.{Loaded, new_pages_lem}
use sc0x3a.Samples.{two_processes, context}
use sc0x3a.Program.{LoadInfo, FileSystem, args_size, load_program, new_pages}
use sc0x3a.Program.Rejects.{load_program-refuses}

abbrev machine : Kernel
machine = two_processes (context 0 0 0)

abbrev header : LoadInfo
header = record {
  entry = 0x1000;
  t_vaddr = 0x10_0000;
  t_faddr = 0;
  t_npg = 1;
  id_vaddr = 0x10_2000;
  id_faddr = 0x2000;
  id_npg = 1;
  ud_npg = 1;
  id_end = 0x10_3000;
  ud_end = 0x10_5000;
}

-- The entry point lies in region 0.
abbrev files : FileSystem
files name = some (record { info = some header; read = λ at n. none })

load_program-refuses_example :
    load_program files (105 ∷ []) (pure ((97 ∷ []) ∷ [])) 2 machine ≡ done error machine
load_program-refuses_example = load_program-refuses files (105 ∷ []) ((97 ∷ []) ∷ []) 2 machine refl

abbrev two_args : List (List ℕ)
two_args = (97 ∷ 98 ∷ []) ∷ (99 ∷ []) ∷ []

-- Process 2 gives back frame 9, and frames 20, 21 and 22 are free: as many as the program needs.
abbrev roomy : Kernel
roomy = record machine {
  pcbs = λ p.
      let c = machine.pcbs p in
      record c { u_page_table = record { valid = true; prot = 3; pfn = 9 } ∷ replicate 127 no_pte };
}

frames_of : returned (roomy.pcbs 2).u_page_table roomy.free_frames ≡ 9 ∷ 20 ∷ 21 ∷ 22 ∷ []
unfolding returned
frames_of = refl

new_pages_lem_example : Does (Loaded 2 0 1 1 2 1 roomy) (new_pages 2 header two_args roomy)
unfolding args_size
new_pages_lem_example =
    new_pages_lem 2 0 1 header two_args roomy refl refl refl (omega arith) (omega arith)
      (omega arith) (rw (frames_of) (omega arith))
      (rw (frames_of) (omega arith, (omega arith, (omega arith, (omega arith, tt)))))
