-- ===== src/Tcb/Examples.antt =====
-- The theorem of kern/scheduler/tcb.c at a stack whose registers hold their own places.
use custom_os_kernel.Base.{ℕ, ◌+◌, ◌*◌, ◌<◌, ◌≡◌, ◌≢◌, some, arith}
use custom_os_kernel.Base.Int.{pos}
use custom_os_kernel.Tcb.{Tcb, Processor, Program, runnable, load_kstack}
use custom_os_kernel.Tcb.Stack.{saved, load_kstack-saved}

abbrev cpu : Processor
cpu = record { segsel_user_ds = 43; segsel_user_cs = 35; user_eflags = 514 }

abbrev thread : Tcb
thread = record {
  tid = 3;
  status = runnable;
  exit_status = pos 0;
  t_wakeup = 0;
  pcb = 900;
  k_stack_bot = 4096;
  k_stack_top = 0;
  orig_k_stack = 0;
  tmp_k_stack = 0;
  swexn_handler = 0;
  swexn_handler_arg = 0;
  swexn_handler_esp = 0;
}

abbrev program : Program
program = record { stack_top = 3221225472; entry_point = 16777216 }

abbrev regs : ℕ → ℕ
regs index = 100 + index

load_kstack-saved_example :
    ((index : ℕ)
      → index < 18
      → (load_kstack cpu thread program 36864 (some regs) (λ a. 0)).1
          ((load_kstack cpu thread program 36864 (some regs) (λ a. 0)).0.tmp_k_stack + 4 * index)
        ≡ saved regs index)
    × ((a : ℕ)
        → ((index : ℕ)
            → index < 18
            → a
              ≢ (load_kstack cpu thread program 36864 (some regs) (λ a. 0)).0.tmp_k_stack
                + 4 * index)
        → (load_kstack cpu thread program 36864 (some regs) (λ a. 0)).1 a ≡ 0)
load_kstack-saved_example =
    load_kstack-saved cpu thread program 36864 regs (λ a. 0) (omega arith) (omega arith)
