-- ===== src/Scheduler/Examples.antt =====
-- The theorems of the scheduler at a running thread, a runnable, a waiting and a sleeping one.
use custom_os_kernel.Base.{ℕ, ◌+◌, ◌≡◌, refl, true, some, [], ◌∷◌, arith, ◌==◌, if◌then◌else◌, inr}
use custom_os_kernel.Base.Int.{pos}
use custom_os_kernel.HashTable.{HashTable, Entry, ht_get}
use custom_os_kernel.Pcb.{Pcb}
use custom_os_kernel.Tcb.{Tcb, Status, running, runnable, waiting, sleeping}
use custom_os_kernel.TcbPool.{TcbPool}
use custom_os_kernel.Mutex.{sched_mutex_lock, sched_mutex_unlock}
use custom_os_kernel.TcbPool.{unlink}
use custom_os_kernel.TcbPool.Ops.{tcb_pool_make_waiting}
use custom_os_kernel.Scheduler.{
  Scheduler, scheduler_deschedule_current, scheduler_deschedule_current_safe,
}
use custom_os_kernel.Scheduler.Steps.{Runs}
use custom_os_kernel.Scheduler.Reaper.{Wakeable}
use custom_os_kernel.Scheduler.Reach.{
  Reach, here, next, deschedules, makes_runnable, run_call, Reach-IsValid, timer_ticks, Served,
  timer_ticks-Served,
}
use custom_os_kernel.Scheduler.Helpers.{Exit, thr_yield}
use custom_os_kernel.Scheduler.Yield.{Yields, yield-Yields}
use custom_os_kernel.Scheduler.Inv.{IsValid, Placed}

abbrev tcb_of : (tid : ℕ) → Status → (t_wakeup : ℕ) → Tcb
tcb_of tid status t_wakeup = record {
  tid = tid;
  status = status;
  exit_status = pos 0;
  t_wakeup = t_wakeup;
  pcb = 900;
  k_stack_bot = 0;
  k_stack_top = 0;
  orig_k_stack = 0;
  tmp_k_stack = 5000 + tid;
  swexn_handler = 0;
  swexn_handler_arg = 0;
  swexn_handler_esp = 0;
}

abbrev tcbs : ℕ → Tcb
tcbs a =
    if a == 101
    then tcb_of 1 running 0
    else if a == 102
    then tcb_of 2 runnable 0
    else if a == 103
    then tcb_of 3 waiting 0
    else if a == 104
    then tcb_of 4 sleeping 7
    else tcb_of 0 runnable 0

abbrev entry_of : (key : ℕ) → Entry
entry_of key = record { key = key; val = 100 + key; address = 200 + key; node = 300 + key }

abbrev table : HashTable
table = record {
  size = 4;
  max_size = 1;
  hash = λ key. key;
  arr = λ i. entry_of 1 ∷ entry_of 2 ∷ entry_of 3 ∷ entry_of 4 ∷ [];
}

abbrev no_process : Pcb
no_process = record {
  pid = pos 1;
  ppid = pos 1;
  original_tid = pos 1;
  stack_top = 0;
  entry_point = 0;
  num_threads = 4;
  num_child_proc = 0;
  wait_sem = record { count = pos 0; q = [] };
  status_queue = [];
}

abbrev pool : TcbPool
pool = record {
  threads = table;
  processes = record { size = 0; max_size = 1; hash = λ key. key; arr = λ i. [] };
  runnable_pool = 101 ∷ 102 ∷ [];
  waiting_pool = 103 ∷ [];
  sleeping_pool = 104 ∷ [];
  zombie_pool = [];
  zombies_sem = record { count = pos 0; q = [] };
  tcbs = tcbs;
  pcbs = λ a. no_process;
}

abbrev four : Scheduler
four = record {
  started = true;
  num_ticks = 6;
  next_tid = 5;
  next_pid = 2;
  init_pcb = 900;
  reaper_tcb = 0;
  idle_tcb = 100;
  thr_pool = pool;
  cur_tcb = 101;
  interrupts = true;
  esp0 = 0;
  pdbr = 900;
  memory = λ a. 0;
}

four-Placed : (a : ℕ) → Placed pool 6 a
unfolding ht_get
four-Placed a = ground arith

four-IsValid : IsValid four
unfolding ht_get
four-IsValid = record {
  placed = four-Placed;
  listed = λ tid a found. ground arith;
  sorted = tt;
  one_runs = λ a h r. ground arith;
  idle_apart = refl;
  idle_there = omega arith;
  current = inr (inr (omega arith));
}

-- The running thread waits.
abbrev three : Scheduler
three = record four {
  thr_pool = record pool {
    runnable_pool = 102 ∷ [];
    waiting_pool = 103 ∷ 101 ∷ [];
    tcbs = λ b. if b == 101 then tcb_of 1 waiting 0 else tcbs b;
  };
}

four-Runs : Runs four
four-Runs = (omega arith, refl, omega arith)

four-three : Reach four three
unfolding scheduler_deschedule_current_safe scheduler_deschedule_current tcb_pool_make_waiting
    unlink ht_get sched_mutex_lock sched_mutex_unlock
four-three = next here deschedules four-Runs refl

three-wakes_3 : Wakeable three.thr_pool 3
unfolding ht_get
three-wakes_3 = inr (103, refl, inr (omega arith))

-- Thread 3 is made runnable after that.
Reach-IsValid_example :
    IsValid three × (s : Scheduler) × (run_call (makes_runnable 3) three ≡ some s) × IsValid s
Reach-IsValid_example = Reach-IsValid (makes_runnable 3) four-three four-IsValid three-wakes_3

-- Thread 2 runs after one tick, at which thread 4 wakes.
timer_ticks-Served_example :
    (s : Scheduler) × (timer_ticks (5001 ∷ []) four ≡ some s) × Served 102 s
timer_ticks-Served_example =
    timer_ticks-Served [] 101 102 [] (5001 ∷ []) four four-IsValid refl refl (omega arith)

yield-Yields_example : (r : Exit × Scheduler) × (thr_yield four 5001 2 ≡ some r) × Yields four 2 r
yield-Yields_example = yield-Yields four 5001 2 four-IsValid (omega arith)
