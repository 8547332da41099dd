-- ===== src/Process/Tests.antt =====
-- sys_Brk at a process that asks for two more pages, and sys_Wait at one with a dead child.
use sc0x3a.Base.{ℕ, ◌≡◌, ◌+◌, count, refl, [], ◌∷◌, arith, pos}
use sc0x3a.Kernel.{Kernel, DeadInfo}
use sc0x3a.Kernel.Monad.{Does, done}
use sc0x3a.Kernel.Memory.{set_byte, write_int}
use sc0x3a.Samples.{two_processes, context}
use sc0x3a.Process.{wait_back}
use sc0x3a.Process.Exit.{free_memory}
use sc0x3a.Process.Freed.{held, entries, free_memory-count}
use sc0x3a.Process.Wait.{wait_back-leaves}

-- The break is at page 1; the new one, 0x10_5000, lies in page 2, and page 3 is the first beyond it.
abbrev machine : Kernel
machine = two_processes (context 0x10_5000 0 0)

-- An entry of another process's child, and one of process 2's.
abbrev stranger : DeadInfo
stranger = record { ppid = pos 3; pid = 8; status = pos 1 }

abbrev own_child : DeadInfo
own_child = record { ppid = pos 2; pid = 9; status = pos 5 }

abbrev parent : Kernel
parent =
    let k = two_processes (context 0x10_0000 0 0) in
    record k {
      dead_list = stranger ∷ own_child ∷ [];
      pcbs = λ p. let c = k.pcbs p in record c { children = 9 ∷ [] };
    }

abbrev stored : ℕ → ℕ → ℕ
stored = set_byte (set_byte (set_byte (set_byte (λ f o. 0) 9 0 5) 9 1 0) 9 2 0) 9 3 0

stores : write_int 0x10_0000 (pos 5) parent ≡ done tt (record parent { phys = stored })
unfolding write_int
stores = refl

wait_back-leaves_example : wait_back 2 parent ≡ done (pos 9) (record parent { phys = stored })
wait_back-leaves_example =
    wait_back-leaves 2 (stranger ∷ []) own_child stored parent refl (omega arith) refl refl refl
      stores

-- Process 2 holds frame 9 in region 1, and 11 and 12 for its kernel stack.
free_memory-count_example :
    Does
      (λ _ k'.
        (count 9 k'.free_frames ≡ held 9 (entries 2 machine) + count 9 machine.free_frames)
        × (held 9 (entries 2 k') ≡ 0))
      (free_memory 2 machine)
free_memory-count_example = free_memory-count 9 2 machine refl
