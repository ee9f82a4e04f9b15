-- ===== src/Scheduler.antt =====
-- kern/scheduler/scheduler.c: the scheduler, what it answers and how it moves the current thread. A
-- pointer to a block is its address, and 0 is NULL. The scheduler is a global, so its address is not
-- NULL. Numbers of ticks stay below 2^31, where a signed sum overflows. A result `none` is a panic, a
-- load through NULL, or a run on which the pools break.
pub mod Switch
pub mod Add
pub mod Helpers
pub mod Inv
pub mod Keeps
pub mod Steps
pub mod Reaper
pub mod Reach
pub mod Robin
pub mod Turns
pub mod Yield
pub mod Wakeup
mod Examples
use custom_os_kernel.Base.{
  ℕ, ◌+◌, ◌^◌, Bool, true, false, Option, none, some, if◌then◌else◌, ◌==◌, leb,
}
use custom_os_kernel.Base.Int.{ℤ, pos, negsuc, neg, is_neg}
use custom_os_kernel.Mutex.{sched_mutex_lock, sched_mutex_unlock}
use custom_os_kernel.Tcb.{Tcb, Status, uninit, runnable, waiting, zombie, running, sleeping, Memory}
use custom_os_kernel.TcbPool.{TcbPool, put_tcb}
use custom_os_kernel.TcbPool.Ops.{
  is_runnable, tcb_pool_make_waiting, tcb_pool_make_runnable, tcb_pool_make_sleeping,
  tcb_pool_make_zombie,
}
use custom_os_kernel.TcbPool.Tables.{sched_lock, tcb_pool_find_tcb, tcb_pool_find_pcb}

-- `scheduler_t` less the stack of the reaper, with the interrupt flag, the stack pointer for entries to
-- the kernel, the process whose page directory is in use, and the memory of the kernel stacks.
pub record Scheduler : Type 0 where
  pub started : Bool
  pub num_ticks : ℕ
  pub next_tid : ℕ
  pub next_pid : ℕ
  pub init_pcb : ℕ
  pub reaper_tcb : ℕ
  pub idle_tcb : ℕ
  pub thr_pool : TcbPool
  pub cur_tcb : ℕ
  pub interrupts : Bool
  pub esp0 : ℕ
  pub pdbr : ℕ
  pub memory : Memory

abbrev pub set_tcb : ℕ → Tcb → Scheduler → Scheduler
set_tcb a t s = record s { thr_pool = put_tcb a t s.thr_pool }

abbrev pub tcb_at : Scheduler → ℕ → Tcb
tcb_at s a = s.thr_pool.tcbs a

-- Whether the pointer is not NULL.
abbrev pub at_pointer : ℕ → ℤ × Option ℕ
at_pointer a = if a == 0 then (neg 2, none) else (pos 0, some a)

unfoldable pub scheduler_get_current_tid : Scheduler → ℤ × Option ℕ
scheduler_get_current_tid s =
    if s.cur_tcb == 0 then (neg 1, none) else (pos 0, some (tcb_at s s.cur_tcb).tid)

-- `wanted` says that the output pointer is not NULL. A NULL that is stored comes back as `none`.
unfoldable pub scheduler_get_idle_tcb : Scheduler → (wanted : Bool) → ℤ × Option ℕ
scheduler_get_idle_tcb s wanted = if wanted then at_pointer s.idle_tcb else (neg 1, none)

unfoldable pub scheduler_get_tcb_by_tid :
    Scheduler → (target_tid : ℕ) → (wanted : Bool) → ℤ × Option ℕ
scheduler_get_tcb_by_tid s target_tid wanted =
    if wanted
    then (let (found, a) = tcb_pool_find_tcb s.thr_pool target_tid true in
        if is_neg found then (neg 2, none) else (pos 0, a))
    else (neg 1, none)

unfoldable pub scheduler_check_is_runnable : Scheduler → (target_tid : ℕ) → ℤ
scheduler_check_is_runnable s target_tid = elim (tcb_pool_find_tcb s.thr_pool target_tid true).1 [
  | none ↦ neg 2
  | some a ↦ if is_runnable (tcb_at s a).status then pos 1 else pos 0
]

unfoldable pub scheduler_get_pcb_by_pid :
    Scheduler → (target_pid : ℕ) → (wanted : Bool) → ℤ × Option ℕ
scheduler_get_pcb_by_pid s target_pid wanted =
    if wanted
    then (let (found, a) = tcb_pool_find_pcb s.thr_pool target_pid true in
        if is_neg found then (neg 2, none) else (pos 0, a))
    else (neg 1, none)

unfoldable pub scheduler_get_init_pcb : Scheduler → (wanted : Bool) → ℤ × Option ℕ
scheduler_get_init_pcb s wanted = if wanted then at_pointer s.init_pcb else (neg 1, none)

-- `none` is a load through NULL.
unfoldable pub scheduler_get_current_pcb : Scheduler → Option (ℤ × ℕ)
scheduler_get_current_pcb s =
    if s.cur_tcb == 0 then none else some (pos 0, (tcb_at s s.cur_tcb).pcb)

unfoldable pub scheduler_get_current_tcb : Scheduler → ℤ × ℕ
scheduler_get_current_tcb s = (pos 0, s.cur_tcb)

unfoldable pub scheduler_deschedule_current : Scheduler → Option (ℤ × Scheduler)
scheduler_deschedule_current s =
    if s.cur_tcb == 0
    then none
    else elim (tcb_pool_make_waiting s.thr_pool (tcb_at s s.cur_tcb).tid) [
      | none ↦ none
      | some (moved, pool) ↦
          let s' = record s { thr_pool = pool } in
          if is_neg moved
          then some (neg 3, s')
          else some
              (pos 0, set_tcb s.cur_tcb (record (tcb_at s' s.cur_tcb) { status = waiting }) s')
    ]

-- The call between `sched_mutex_lock` and `sched_mutex_unlock`.
abbrev pub locked : Scheduler → Scheduler
locked s = record s { interrupts = sched_mutex_lock sched_lock s.started s.interrupts }

abbrev pub unlocked : Scheduler → Scheduler
unlocked s = record s { interrupts = sched_mutex_unlock sched_lock s.started s.interrupts }

abbrev pub safely : Option (ℤ × Scheduler) → Option (ℤ × Scheduler)
safely none = none
safely (some (status, s)) = some (status, unlocked s)

unfoldable pub scheduler_deschedule_current_safe : Scheduler → Option (ℤ × Scheduler)
scheduler_deschedule_current_safe s = safely (scheduler_deschedule_current (locked s))

unfoldable pub scheduler_make_runnable : Scheduler → (tid : ℕ) → Option (ℤ × Scheduler)
scheduler_make_runnable s tid = elim (tcb_pool_make_runnable s.thr_pool tid) [
  | none ↦ none
  | some (moved, pool) ↦
      let s' = record s { thr_pool = pool } in
      if is_neg moved then some (neg 2, s') else elim (tcb_pool_find_tcb pool tid true).1 [
        | none ↦ some (neg 3, s')
        | some a ↦ some (pos 0, set_tcb a (record (tcb_at s' a) { status = runnable }) s')
      ]
]

unfoldable pub scheduler_make_runnable_safe : Scheduler → (tid : ℕ) → Option (ℤ × Scheduler)
scheduler_make_runnable_safe s tid = safely (scheduler_make_runnable (locked s) tid)

abbrev pub is_sleeping : Status → Bool
is_sleeping sleeping = true
is_sleeping uninit = false
is_sleeping runnable = false
is_sleeping waiting = false
is_sleeping zombie = false
is_sleeping running = false

unfoldable pub scheduler_make_current_sleeping : Scheduler → (ticks : ℤ) → Option (ℤ × Scheduler)
scheduler_make_current_sleeping s (negsuc n) = some (neg 1, s)
scheduler_make_current_sleeping s (pos ticks) =
    if ticks == 0
    then some (pos 0, s)
    else if s.cur_tcb == 0
    then none
    else if is_sleeping (tcb_at s s.cur_tcb).status
    then some (neg 4, s)
    else if leb (2 ^ 31) (s.num_ticks + ticks)
    then none
    else let s' =
        set_tcb s.cur_tcb
          (record (tcb_at s s.cur_tcb) { status = sleeping; t_wakeup = s.num_ticks + ticks }) s in
      elim (tcb_pool_make_sleeping s'.thr_pool (tcb_at s' s.cur_tcb).tid) [
        | none ↦ none
        | some (moved, pool) ↦
            some (if is_neg moved then neg 2 else pos 0, record s' { thr_pool = pool })
      ]

unfoldable pub scheduler_make_current_sleeping_safe :
    Scheduler → (ticks : ℤ) → Option (ℤ × Scheduler)
scheduler_make_current_sleeping_safe s ticks =
    safely (scheduler_make_current_sleeping (locked s) ticks)

unfoldable pub scheduler_make_current_zombie : Scheduler → Option (ℤ × Scheduler)
scheduler_make_current_zombie s =
    if s.cur_tcb == 0
    then none
    else elim (tcb_pool_make_zombie s.thr_pool (tcb_at s s.cur_tcb).tid) [
      | none ↦ none
      | some (moved, pool) ↦
          if is_neg moved
          then some (neg 2, record s { thr_pool = pool })
          else some (pos 0, record s { thr_pool = pool; cur_tcb = 0 })
    ]

unfoldable pub scheduler_make_current_zombie_safe : Scheduler → Option (ℤ × Scheduler)
scheduler_make_current_zombie_safe s = safely (scheduler_make_current_zombie (locked s))
