-- ===== src/Samples.antt =====
-- A kernel with two processes besides idle, for the tests of the other modules: process 2 runs, and
-- its first page holds bytes of frame 9.
use sc0x3a.Base.{ℕ, true, false, some, [], ◌∷◌, pos}
use sc0x3a.Kernel.{Kernel, Pcb, Pte, UserContext, State, Point}

-- A user context with these three arguments of a kernel call.
abbrev pub context : ℕ → ℕ → ℕ → UserContext
context a b c = record { code = 0; addr = 0; pc = 0; sp = 0x11_f000; reg0 = a; reg1 = b; reg2 = c }

abbrev page : ℕ → Pte
page f = record { valid = true; prot = 3; pfn = f }

abbrev process : Pcb
process = record {
  state = State.ready;
  ppid = pos 0;
  children = [];
  uctxt = context 0 0 0;
  kctxt = Point.start;
  next_heap_pn = pos 1;
  next_stack_pn = pos 100;
  tty_id = pos 0;
  buf = 0;
  len = pos 0;
  u_page_table = page 9 ∷ [];
  k_stack_0 = page 11;
  k_stack_1 = page 12;
}

-- Process 1, idle, is ready; process 2 runs; `uc` is the context of the trap.
abbrev pub two_processes : UserContext → Kernel
two_processes uc = record {
  mallocs = [];
  fresh = 64;
  phys = λ f o. 0;
  uctxt = uc;
  free_frames = 20 ∷ 21 ∷ 22 ∷ [];
  next_pid = 4;
  pcbs = λ p. process;
  active_proc = some 2;
  ready_queue = 1 ∷ 3 ∷ [];
  sleep_list = [];
  wait_list = [];
  io_list = [];
  dead_list = [];
  pipe_list = [];
  lock_list = [];
  cvar_list = [];
  reclaim_list = [];
  sem_list = [];
  next_sem = 0;
  receive = λ t i. 0;
  busy_terminal = λ t. false;
  string_len = 0;
  sent = [];
  free_inside = true;
  boot = record {
    vmem_enabled = true;
    total_frames = 256;
    kernel_brk = 0x4_0000;
    data_seg_limit = 0x3_0000;
    data_seg_base = 0x2_0000;
    krnl_page_table = λ i. page i;
    initial_ks_0 = page 13;
    initial_ks_1 = page 14;
    int_vector = [];
    p_idle = some 1;
    p_init = some 0;
  };
}
