-- ===== src/Places.antt =====
-- Where the processes are: the places of the kernel's state that hold a process, and how often a
-- process stands in them. A process that the kernel has not lost stands in one.
mod Tests
pub mod Counting
pub mod Conserve
pub mod Waiting
pub mod Terminals
pub mod Created
pub mod Exit
pub mod Forked
pub mod Reclaimed
pub mod Lock
pub mod Semaphores
pub mod Cvars
pub mod Pipes
pub mod Destroyed
use sc0x3a.Base.{ℕ, ◌+◌, Option, none, some, List, [], ◌∷◌, ◌==◌, if◌then◌else◌, count}
use sc0x3a.Kernel.{Kernel, SleepInfo, PipeInfo, LockInfo, CvarInfo, Semaphore}

-- How often `a` stands in the lists that `f` reads off the elements.
unfoldable pub count_in {ℓ} : {A : Type ℓ} → (A → List ℕ) → ℕ → List A → ℕ
count_in f a [] = 0
count_in f a (x ∷ xs) = count a (f x) + count_in f a xs

abbrev pub count_active : ℕ → Option ℕ → ℕ
count_active a none = 0
count_active a (some p) = if a == p then 1 else 0

abbrev pub sleepers : SleepInfo → List ℕ
sleepers s = s.pcb ∷ []

abbrev pub pipe_waiters : PipeInfo → List ℕ
pipe_waiters p = p.pipe_wait_list

abbrev pub lock_waiters : LockInfo → List ℕ
lock_waiters l = l.lock_wait_list

abbrev pub cvar_waiters : CvarInfo → List ℕ
cvar_waiters c = c.cvar_wait_list

abbrev pub sem_waiters : Semaphore → List ℕ
sem_waiters s = s.waiting

-- The places that are not the active process's: the queues and the lists of waiters.
abbrev pub queued : ℕ → Kernel → ℕ
queued a k =
    count a k.ready_queue
    + count_in sleepers a k.sleep_list
    + count a k.wait_list
    + count a k.io_list
    + count_in pipe_waiters a k.pipe_list
    + count_in lock_waiters a k.lock_list
    + count_in cvar_waiters a k.cvar_list
    + count_in sem_waiters a k.sem_list

abbrev pub places : ℕ → Kernel → ℕ
places a k = count_active a k.active_proc + queued a k
