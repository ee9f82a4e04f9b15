-- ===== src/Scheduler/Switch.antt =====
-- The context switch of kern/dispatcher/dispatcher.c with the parts of kern/scheduler/scheduler.c that
-- only it uses, and the timer handler of kern/handlers/peripheral_handlers.c.
use custom_os_kernel.Base.{
  ℕ, ◌+◌, ◌-◌, ◌%◌, ◌^◌, Bool, true, Option, none, some, if◌then◌else◌, ◌==◌,
}
use custom_os_kernel.Base.Int.{ℤ, pos, neg, is_neg, to_int}
use custom_os_kernel.Tcb.{Status, uninit, runnable, waiting, zombie, running, sleeping}
use custom_os_kernel.TcbPool.Ops.{tcb_pool_wakeup}
use custom_os_kernel.TcbPool.Tables.{tcb_pool_get_next_tcb}
use custom_os_kernel.Scheduler.{
  Scheduler, tcb_at, set_tcb, locked, unlocked, scheduler_get_tcb_by_tid, scheduler_get_idle_tcb,
}

abbrev pub deferred : Status → Status
deferred running = runnable
deferred uninit = uninit
deferred runnable = runnable
deferred waiting = waiting
deferred zombie = zombie
deferred sleeping = sleeping

-- It returns 0.
unfoldable pub scheduler_defer_current_tcb : Scheduler → (old_esp : ℕ) → Scheduler
scheduler_defer_current_tcb s old_esp =
    if s.cur_tcb == 0
    then s
    else let t = tcb_at s s.cur_tcb in
      set_tcb s.cur_tcb (record t { tmp_k_stack = old_esp; status = deferred t.status }) s

-- The new stack pointer is the second result.
unfoldable pub scheduler_set_running_tcb :
    Scheduler → (tcb : ℕ) → (wanted : Bool) → ℤ × ℕ × Scheduler
scheduler_set_running_tcb s tcb wanted =
    if tcb == 0
    then (neg 1, 0, s)
    else if wanted
    then (
      pos 0,
      (tcb_at s tcb).tmp_k_stack,
      record (set_tcb tcb (record (tcb_at s tcb) { status = running }) s) {
        cur_tcb = tcb;
        esp0 = (tcb_at s tcb).orig_k_stack;
        pdbr = (tcb_at s tcb).pcb;
      },
    )
    else (neg 1, 0, s)

-- The next thread, or the idle one, whose pointer may be NULL.
unfoldable pub scheduler_get_next_tcb : Scheduler → (wanted : Bool) → ℤ × ℕ × Scheduler
scheduler_get_next_tcb s wanted =
    if wanted
    then (let (status, next, pool) = tcb_pool_get_next_tcb s.thr_pool true in
        elim next [
          | none ↦ (pos 0, s.idle_tcb, s)
          | some a ↦ (pos 0, a, record s { thr_pool = pool })
        ])
    else (neg 1, 0, s)

-- The thread that has the number, or the idle thread; the pointer of a thread is stored exactly where
-- the look-up returns 0. `none` is a panic.
abbrev pub target_or_idle : Scheduler → (target_tid : ℕ) → Option ℕ
target_or_idle s target_tid = elim (scheduler_get_tcb_by_tid s target_tid true).1 [
  | none ↦ (scheduler_get_idle_tcb s true).1
  | some a ↦ some a
]

abbrev pub run_tcb : ℤ × ℕ × Scheduler → Option (ℕ × Scheduler)
run_tcb (status, new_esp, s) = if is_neg status then none else some (new_esp, s)

-- `target_tid` is the bit pattern of an `int`.
unfoldable pub context_switch : Scheduler → (old_esp target_tid : ℕ) → Option (ℕ × Scheduler)
context_switch s old_esp target_tid =
    let s' = scheduler_defer_current_tcb s old_esp in
    if is_neg (to_int target_tid)
    then (let (status, next, s'') = scheduler_get_next_tcb s' true in
        run_tcb (scheduler_set_running_tcb s'' next true))
    else elim (target_or_idle s' target_tid) [
      | none ↦ none
      | some next ↦ run_tcb (scheduler_set_running_tcb s' next true)
    ]

unfoldable pub context_switch_safe : Scheduler → (old_esp target_tid : ℕ) → Option (ℕ × Scheduler)
context_switch_safe s old_esp target_tid = elim (context_switch (locked s) old_esp target_tid) [
  | none ↦ none
  | some (new_esp, s') ↦ some (new_esp, unlocked s')
]

unfoldable pub scheduler_wakeup : Scheduler → Option (ℤ × Scheduler)
scheduler_wakeup s = elim (tcb_pool_wakeup s.thr_pool s.num_ticks) [
  | none ↦ none
  | some (status, pool) ↦ some (status, record s { thr_pool = pool })
]

-- The context switch picks the next thread, -1.
unfoldable pub c_timer_handler : Scheduler → (old_esp : ℕ) → Option (ℕ × Scheduler)
c_timer_handler s old_esp =
    elim (scheduler_wakeup (record s { num_ticks = (s.num_ticks + 1) % 2 ^ 32 })) [
      | none ↦ none
      | some (status, s') ↦ context_switch s' old_esp (2 ^ 32 - 1)
    ]

unfoldable pub scheduler_start : Scheduler → ℤ × Scheduler
scheduler_start s = (pos 0, record s { started = true; interrupts = true })
