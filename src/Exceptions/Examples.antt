-- ===== src/Exceptions/Examples.antt =====
-- A page fault of a thread that has a handler.
use custom_os_kernel.Base.{◌+◌, ◌≡◌, refl, true, false, [], ◌∷◌, arith}
use custom_os_kernel.Base.Int.{pos}
use custom_os_kernel.Tcb.{running}
use custom_os_kernel.Scheduler.{Scheduler}
use custom_os_kernel.Exceptions.{Processor, Context, swexn_execute, handle, page_fault}
use custom_os_kernel.Exceptions.Frame.{Documented}
use custom_os_kernel.Exceptions.Faults.{Meets, handle-Meets}
use custom_os_kernel.Exceptions.Enter.{Entered, swexn_execute-Entered}

abbrev cpu : Processor
cpu = record {
  layout = record { cause = 0; cr2 = 1; ds = 2; error_code = 14; eip = 15; size = 20 };
  cr2 = 4096;
  segsel_user_ds = 43;
  segsel_user_cs = 35;
  user_eflags = 514;
}

cpu-Documented : Documented cpu.layout
cpu-Documented = record {
  cause_first = omega arith;
  cr2_first = omega arith;
  apart = λ e. omega (arith, e);
  code = refl;
  pushed = refl;
  ends = refl;
}

abbrev context : Context
context = record {
  tcb = record {
    tid = 3;
    status = running;
    exit_status = pos 0;
    t_wakeup = 0;
    pcb = 900;
    k_stack_bot = 4096;
    k_stack_top = 0;
    orig_k_stack = 0;
    tmp_k_stack = 0;
    swexn_handler = 16777216;
    swexn_handler_arg = 5;
    swexn_handler_esp = 33554432;
  };
  memory = λ a. 0;
  stack = λ j. 100 + j;
}

swexn_execute-Entered_example :
    (c' : Context) × (swexn_execute cpu (λ w. 0) 14 context true ≡ (pos 0, c'))
    × Entered cpu 14 33554432 16777216 5 true context c'
swexn_execute-Entered_example =
    swexn_execute-Entered cpu (λ w. 0) 14 context true cpu-Documented (λ e. omega (arith, e))
      (omega arith) (omega arith)

-- The thread at address 1, without others.
abbrev one_thread : Scheduler
one_thread = record {
  started = true;
  num_ticks = 0;
  next_tid = 4;
  next_pid = 2;
  init_pcb = 900;
  reaper_tcb = 0;
  idle_tcb = 0;
  thr_pool = record {
    threads = record { size = 0; max_size = 1; hash = λ key. key; arr = λ i. [] };
    processes = record { size = 0; max_size = 1; hash = λ key. key; arr = λ i. [] };
    runnable_pool = 1 ∷ [];
    waiting_pool = [];
    sleeping_pool = [];
    zombie_pool = [];
    zombies_sem = record { count = pos 0; q = [] };
    tcbs = λ a. context.tcb;
    pcbs = λ a. record {
      pid = pos 1;
      ppid = pos 1;
      original_tid = pos 1;
      stack_top = 0;
      entry_point = 0;
      num_threads = 1;
      num_child_proc = 0;
      wait_sem = record { count = pos 0; q = [] };
      status_queue = [];
    };
  };
  cur_tcb = 1;
  interrupts = false;
  esp0 = 0;
  pdbr = 0;
  memory = λ a. 0;
}

handle-Meets_example :
    Meets cpu 14 true true true page_fault
      (λ a. 0)
      (λ j. 0)
      one_thread
      (handle cpu (λ f. 14) (λ w. 0) true true page_fault (λ a. 0) (λ j. 0) one_thread)
handle-Meets_example =
    handle-Meets cpu (λ f. 14) (λ w. 0) true true true page_fault (λ a. 0) (λ j. 0) one_thread refl
      (λ e. omega (arith, e)) cpu-Documented (λ h. omega arith) (omega arith)
