-- ===== src/Trap/Tests.antt =====
-- Two ticks of the clock at a kernel in which process 3 is ready behind idle, and a run that ends in
-- such a tick; the call of Getpid.
use sc0x3a.Base.{ℕ, ◌+◌, true, ◌≡◌, refl, none, some, [], ◌∷◌, ◌++◌, length, arith, pos, negsuc}
use sc0x3a.Kernel.{Kernel, on_kernel, on_clock, on_illegal}
use sc0x3a.Kernel.Monad.{Outcome, done, switched, fault, out_of_fuel}
use sc0x3a.Samples.{two_processes, context}
use sc0x3a.Places.{places, count_in}
use sc0x3a.Places.Conserve.{CanBlock}
use sc0x3a.Trap.{Outside, handle, trap, trap_kernel_hdl, call_of, trap_clock_hdl}
use sc0x3a.Trap.Fair.{RunsWithin, trap_clock_hdl-RunsWithin}
use sc0x3a.Trap.Machine.{Leads, RunsTo, stays, goes_on, computes, traps}
use sc0x3a.Start.Launch.{kernel_start}
use sc0x3a.Start.First.{Begun, kernel_start-Begun}
use sc0x3a.Semaphore.Balance.{Balanced}
use sc0x3a.Trap.Booted.{Sound, kernel_start-Sound}
use sc0x3a.Trap.Single.{Single, RunsTo-Single}
use sc0x3a.Trap.Streams.{Holds, one_pipe, stream, RunsTo-stream}
use sc0x3a.Trap.Invariants.{RunsTo-holder, RunsTo-Balanced}
use sc0x3a.Untouched.{holder}
use sc0x3a.Lock.{sys_Release}
use sc0x3a.Process.{sys_Fork}
use sc0x3a.Semaphore.{sys_Custom_1}
use sc0x3a.Kernel.Memory.{read_bytes, bad_address}
use sc0x3a.Pipe.{sys_PipeWrite, bytes}
use sc0x3a.Trap.Runs.{RunsTo-places}

abbrev machine : Kernel
machine =
    let k = two_processes (context 0 0 0) in
    record k { boot = record k.boot { int_vector = on_kernel ∷ on_clock ∷ on_illegal ∷ [] } }

-- Before each tick memory and registers change, and a process is added to those that are ready.
abbrev busy : ℕ → Kernel → Kernel
busy n k = record k {
  phys = λ f o. n;
  uctxt = context n 0 0;
  ready_queue = k.ready_queue ++ (n + 7) ∷ [];
}

trap_clock_hdl-RunsWithin_example : RunsWithin busy 3 2 machine
trap_clock_hdl-RunsWithin_example =
    trap_clock_hdl-RunsWithin busy
      (λ n k r. record {
        memory = r.0;
        active = refl;
        more = (n + 7) ∷ [];
        ready = refl;
        stacked = (let (m, act, st) = r in st);
      })
      2 3 (1 ∷ []) [] machine (refl, (2, refl), λ q. omega arith) refl (omega arith) (omega arith)

abbrev outside : Outside
outside = record { files = λ name. none; line = λ i. 0; count = 0; junk = pos 0 }

abbrev state_of : {A : Type 0} → Outcome A → Kernel → Kernel
state_of (done a k) k' = k
state_of (switched k) k' = k
state_of fault k' = k'
state_of out_of_fuel k' = k'

-- Process 2 has computed, and then the clock ticks.
abbrev computed : Kernel
computed = record machine { phys = λ f o. 7; uctxt = context 1 2 3 }

abbrev ticked : Kernel
ticked = state_of (trap 1 outside 1 computed) computed

blocks :
    (k : Kernel)
    → k.mallocs ≡ []
    → k.active_proc ≡ some 2
    → k.ready_queue ≡ 1 ∷ 3 ∷ []
    → CanBlock 2 k
blocks k m act r = record { memory = m; active = act; ready = (1, 3 ∷ [], r) }

leads : Leads (trap 1 outside 1 computed) ticked
unfolding trap handle trap_clock_hdl
leads = refl

RunsTo-places_example : places 3 ticked ≡ places 3 machine
RunsTo-places_example = RunsTo-places 3 {k = machine} (
    goes_on (goes_on stays (computes (λ f o. 7) (context 1 2 3)))
      (traps 2 0 outside 1 on_clock refl refl (blocks computed refl refl refl) leads))

-- Process 2 makes the kernel call with that number.
abbrev calling : ℕ → Kernel → Kernel
calling n k = record k { uctxt = let u = k.uctxt in record u { code = 0xabcd_ef00 + n } }

abbrev after_call : Kernel → Kernel
after_call k = state_of (trap 1 outside 0 k) k

-- Process 3 has a lock, which process 2 tries to release.
abbrev locked_machine : Kernel
locked_machine = calling 0x65 (record (two_processes (context 1 0 0)) {
  boot = machine.boot;
  lock_list = record { addr = 50; lockid = 1; locked = true; pid = 3; lock_wait_list = [] } ∷ [];
})

releases : Leads (trap 1 outside 0 locked_machine) (after_call locked_machine)
unfolding trap handle trap_kernel_hdl call_of sys_Release
releases = refl

RunsTo-holder_example : holder 50 (after_call locked_machine).lock_list ≡ some 3
RunsTo-holder_example =
    RunsTo-holder 50 3 {k = locked_machine}
      (goes_on stays
        (traps 2 0 outside 0 on_kernel refl refl (blocks locked_machine refl refl refl) releases))
      refl

-- Process 2 makes a child, process 4.
abbrev forking : Kernel
forking = calling 0x1 machine

forks : Leads (trap 1 outside 0 forking) (after_call forking)
unfolding trap handle trap_kernel_hdl call_of sys_Fork
forks = refl

machine-Single : Single forking
unfolding count_in
machine-Single a = ground arith

RunsTo-Single_example : Single (after_call forking)
RunsTo-Single_example =
    RunsTo-Single {k = forking}
      (goes_on stays
        (traps 2 0 outside 0 on_kernel refl refl (blocks forking refl refl refl) forks))
      machine-Single

-- Process 2 increments a semaphore for which process 5 waits.
abbrev sem_machine : Kernel
sem_machine = calling 0x71 (record machine {
  sem_list = record { addr = 40; id = 0; count = negsuc 0; waiting = 5 ∷ [] } ∷ [];
})

increments : Leads (trap 1 outside 0 sem_machine) (after_call sem_machine)
unfolding trap handle trap_kernel_hdl call_of sys_Custom_1
increments = refl

RunsTo-Balanced_example : Balanced (after_call sem_machine)
RunsTo-Balanced_example =
    RunsTo-Balanced {k = sem_machine}
      (goes_on stays
        (traps 2 0 outside 0 on_kernel refl refl (blocks sem_machine refl refl refl) increments))
      (refl, tt)

-- Process 2 writes three bytes to a pipe that holds two.
abbrev queue_machine : Kernel
queue_machine = calling 0x4a (record (two_processes (context 1 0x10_0000 3)) {
  boot = machine.boot;
  pipe_list =
      record { addr = 40; pipeid = 1; cur_len = 2; pipe_buffer = λ i. 7 + i; pipe_wait_list = [] }
      ∷ [];
})

queues : Leads (trap 1 outside 0 queue_machine) (after_call queue_machine)
unfolding trap handle trap_kernel_hdl call_of sys_PipeWrite
queues = refl

abbrev one_write : RunsTo (one_pipe (pos 1)) queue_machine (after_call queue_machine)
one_write =
    goes_on stays
      (traps 2 0 outside 0 on_kernel refl refl (blocks queue_machine refl refl refl) queues)

writes_three : length (stream (pos 1) one_write) ≡ 3
unfolding call_of bad_address read_bytes
writes_three = refl

RunsTo-stream_example :
    Holds (pos 1) ((7 ∷ 8 ∷ []) ++ stream (pos 1) one_write) (after_call queue_machine)
unfolding bytes
RunsTo-stream_example = RunsTo-stream (pos 1) (7 ∷ 8 ∷ []) one_write (([], refl), tt)

-- The kernel starts with 256 frames, and the clock ticks.
abbrev before_start : Kernel
before_start = record (two_processes (context 0 0 0)) { active_proc = none }

abbrev started : Kernel
started = state_of (kernel_start outside.files [] [] 0x20_0000 before_start) before_start

starts : kernel_start outside.files [] [] 0x20_0000 before_start ≡ done tt started
unfolding kernel_start
starts = refl

kernel_start-Begun_example : Begun started
kernel_start-Begun_example =
    kernel_start-Begun outside.files [] [] 0x20_0000 before_start refl starts

ticks : Leads (trap 1 outside 1 started) (state_of (trap 1 outside 1 started) started)
unfolding trap handle trap_clock_hdl kernel_start
ticks = refl

kernel_start-Sound_example : Sound (state_of (trap 1 outside 1 started) started)
unfolding kernel_start
kernel_start-Sound_example =
    kernel_start-Sound outside.files [] [] 0x20_0000 before_start refl starts (
      goes_on stays (
        traps 0 0 outside 1 on_clock refl refl
          (record { memory = refl; active = refl; ready = (1, [], refl) }) ticks))
