-- ===== src/Program/Rejects.antt =====
-- What load_program refuses before it changes anything, and where the arguments lie on the new stack.
use sc0x3a.Base.{
  ℕ, ◌+◌, ◌-◌, ◌*◌, ◌/◌, ◌≤◌, ◌<◌, ◌≡◌, Bool, true, ◌||◌, Option, none, some, List, arith, ltb,
  error, Option-cases, inl, inr,
}
use sc0x3a.Kernel.{Kernel}
use sc0x3a.Kernel.Monad.{done, pure}
use sc0x3a.Kernel.Memory.{page_size, vmem_1_base, vmem_1_limit}
use sc0x3a.Program.{FileSystem, Executable, LoadInfo, load_program, too_large}

-- Whether the header of a file is missing, names an entry point below region 1, or asks for more pages
-- than leave one between heap and stack.
abbrev pub unfit : Option LoadInfo → List (List ℕ) → Bool
unfit none args = true
unfit (some li) args = ltb li.entry vmem_1_base || too_large li args

abbrev pub refused : Option Executable → List (List ℕ) → Bool
refused none args = true
refused (some file) args = unfit file.info args

-- Where the file cannot be opened, its header is not a program's, its entry point lies below region 1,
-- or no page would be left between heap and stack, load_program returns ERROR and changes nothing.
pub load_program-refuses :
    (files : FileSystem) (name : List ℕ) (args : List (List ℕ)) (p : ℕ) (k : Kernel)
    → refused (files name) args ≡ true
    → load_program files name (pure args) p k ≡ done error k
unfolding load_program
load_program-refuses files name args p k bad = elim (Option-cases (files name)) [
  | inl e ↦ ground (arith, e)
  | inr (file, e) ↦ elim (Option-cases file.info) [
    | inl i ↦ ground (arith, e, i)
    | inr (li, i) ↦ ground (arith, e, i)
  ]
]

abbrev top_of : ℕ → ℕ → ℕ
top_of size n = (vmem_1_limit - size - (n + 3 + 0x20) * 4) / 8 * 8

abbrev pages_of : ℕ → ℕ
pages_of top = (vmem_1_limit - top / page_size * page_size) / page_size

module _ (size n d : ℕ) (room : pages_of (top_of size n) + d < 128) where
  in_region : vmem_1_base ≤ top_of size n
  in_region = omega arith
