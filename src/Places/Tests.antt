-- ===== src/Places/Tests.antt =====
-- Where the processes are at a kernel with a lock of the active process, for which process 4 waits.
use sc0x3a.Base.{refl, true, [], ◌∷◌, pos}
use sc0x3a.Kernel.{Kernel, LockInfo}
use sc0x3a.Kernel.Monad.{Does, Switches}
use sc0x3a.Samples.{two_processes, context}
use sc0x3a.Lock.{destroy_lock_info}
use sc0x3a.Process.Exit.{sys_Exit}
use sc0x3a.Places.Exit.{Gone, sys_Exit-Gone}
use sc0x3a.Places.Destroyed.{Loses, destroy_lock_info-Loses}

abbrev held : LockInfo
held = record { addr = 40; lockid = 1; locked = true; pid = 2; lock_wait_list = 4 ∷ [] }

abbrev machine : Kernel
machine = record (two_processes (context 1 0 0)) { lock_list = held ∷ [] }

destroy_lock_info-Loses_example :
    Does (Loses 4 (4 ∷ []) machine) (destroy_lock_info (pos 1) machine)
destroy_lock_info-Loses_example =
    destroy_lock_info-Loses 4 machine refl (pos 1) refl 2 held refl refl

abbrev two_ready : Kernel
two_ready = two_processes (context 7 0 0)

-- Process 2 exits; 3, which is ready, stays where it is.
sys_Exit-Gone_example : Switches (Gone 3 2 two_ready) (sys_Exit 0 two_ready)
sys_Exit-Gone_example =
    sys_Exit-Gone 3 2 0 two_ready
      (record { memory = refl; active = refl; ready = (1, 3 ∷ [], refl) })
