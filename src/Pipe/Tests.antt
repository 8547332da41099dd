-- ===== src/Pipe/Tests.antt =====
-- The properties of pipes at a kernel with one that holds three bytes, and a reader that waits.
use sc0x3a.Base.{ℕ, ◌+◌, ◌≡◌, refl, length, false, [], ◌∷◌, ◌++◌, pos}
use sc0x3a.Kernel.{Kernel, PipeInfo}
use sc0x3a.Kernel.Monad.{done}
use sc0x3a.Kernel.Memory.{set_byte, read_bytes, bad_address}
use sc0x3a.Samples.{two_processes, context}
use sc0x3a.Pipe.{is_pipe, add_bytes, sys_PipeWrite}
use sc0x3a.Pipe.Buffer.{contents}
use sc0x3a.Pipe.Steps.{pipe_args, woken, written, sys_PipeWrite-appends}

abbrev filled : PipeInfo
filled = record {
  addr = 40;
  pipeid = 1;
  cur_len = 3;
  pipe_buffer = λ i. i + 7;
  pipe_wait_list = 5 ∷ [];
}

-- The call asks for two bytes at the start of region 1.
abbrev machine : Kernel
machine = record (two_processes (context 1 0x10_0000 2)) { pipe_list = filled ∷ [] }

args_valid : pipe_args machine 2 ≡ false
unfolding bad_address
args_valid = refl

abbrev delivered : ℕ → ℕ → ℕ
delivered = set_byte (set_byte (λ f o. 0) 9 0 7) 9 1 8

fetches : read_bytes 0x10_0000 2 machine ≡ done (0 ∷ 0 ∷ []) machine
unfolding read_bytes
fetches = refl

sys_PipeWrite-appends_example :
    (sys_PipeWrite machine
      ≡ done (pos 2) (woken (is_pipe (pos 1)) (5 ∷ []) (written (0 ∷ 0 ∷ []) machine)))
    × (length {A = ℕ} (0 ∷ 0 ∷ []) ≡ 2)
    × (contents (add_bytes (0 ∷ 0 ∷ []) filled) ≡ contents filled ++ (0 ∷ 0 ∷ []))
sys_PipeWrite-appends_example =
    sys_PipeWrite-appends machine refl 2 refl filled 2 (0 ∷ 0 ∷ []) args_valid refl refl fetches
