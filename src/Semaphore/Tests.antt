-- ===== src/Semaphore/Tests.antt =====
-- The properties of semaphores at a kernel with one, for which process 5 waits.
use sc0x3a.Base.{◌≡◌, refl, [], ◌∷◌, ◌++◌, pos, negsuc, ◌+ℤ◌}
use sc0x3a.Kernel.{Kernel, Semaphore}
use sc0x3a.Kernel.Monad.{done}
use sc0x3a.Samples.{two_processes, context}
use sc0x3a.Semaphore.{sys_Custom_1, set_sem}
use sc0x3a.Semaphore.Steps.{with_count, with_waiting}
use sc0x3a.Semaphore.Balance.{sys_Custom_1-wakes}

abbrev waited_for : Semaphore
waited_for = record { addr = 40; id = 0; count = negsuc 0; waiting = 5 ∷ [] }

abbrev machine : Kernel
machine = record (two_processes (context 0 0 0)) { sem_list = waited_for ∷ [] }

sys_Custom_1-wakes_example :
    sys_Custom_1 machine
    ≡ done
        (pos 0)
        (record (set_sem machine (λ t. with_waiting [] (with_count (negsuc 0 +ℤ pos 1) t))) {
          ready_queue = (1 ∷ 3 ∷ []) ++ 5 ∷ [];
        })
sys_Custom_1-wakes_example = sys_Custom_1-wakes machine refl (refl, tt) waited_for 5 [] refl refl
