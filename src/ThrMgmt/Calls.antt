-- ===== src/ThrMgmt/Calls.antt =====
-- kern/handlers/thr_mgmt_handlers.c: the system calls that pass on to kern/scheduler/thr_helpers.c.
use custom_os_kernel.Base.{ℕ, Bool, Option, some, if◌then◌else◌}
use custom_os_kernel.Base.Int.{ℤ, pos, neg, is_neg, is_nonpos}
use custom_os_kernel.Scheduler.{Scheduler}
use custom_os_kernel.Scheduler.Helpers.{
  Exit, returns, thr_yield, thr_deschedule, thr_make_runnable, thr_sleep, thr_gettid,
}

unfoldable pub syscall_gettid : Scheduler → ℤ
syscall_gettid s = thr_gettid s

unfoldable pub syscall_yield : Scheduler → (old_esp tid : ℕ) → Option (Exit × Scheduler)
syscall_yield s old_esp tid = thr_yield s old_esp tid

unfoldable pub syscall_deschedule :
    Scheduler → (old_esp : ℕ) → (mapped : Bool) → (reject : ℕ) → Option (Exit × ℕ × Scheduler)
syscall_deschedule s old_esp mapped reject = thr_deschedule s old_esp mapped reject

unfoldable pub syscall_make_runnable : Scheduler → (tid : ℕ) → Option (ℤ × Scheduler)
syscall_make_runnable s tid = thr_make_runnable s tid

unfoldable pub syscall_get_ticks : Scheduler → ℕ
syscall_get_ticks s = s.num_ticks

unfoldable pub syscall_sleep : Scheduler → (old_esp : ℕ) → (ticks : ℤ) → Option (Exit × Scheduler)
syscall_sleep s old_esp ticks =
    if is_neg ticks
    then some (returns (neg 1), s)
    else if is_nonpos ticks
    then some (returns (pos 0), s)
    else thr_sleep s old_esp ticks
